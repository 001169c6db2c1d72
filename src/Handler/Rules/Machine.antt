-- ===== src/Handler/Rules/Machine.antt =====
-- HandleMasterFrame as an implementation of the rules.
use fuji_iot.Base.{
  ◌<◌, ◌≡◌, refl, sym, ap, ◌∙◌, Bool, true, false, Option, none, some, List, [], ◌∷◌, if◌then◌else◌,
}
use mathlib.Core.Path.{subst}
use fuji_iot.Base.Bytes.{IsBytes5, IsBytes8}
use fuji_iot.Register.View.{view, temperature-lt}
use fuji_iot.Frame
use fuji_iot.Frame.{
  MasterFrame, ControllerFrame, DestinationAddr, RegisterType, master_payload, with_write_bit,
}
use fuji_iot.Handler.{
  Handler, handle_master_frame, dispatch, respond, update_from_master_status_register,
  update_from_master_error_register,
}
use fuji_iot.Handler.Replies.{view-send_logged_in_frame}
use fuji_iot.Handler.Protocol.{updated_lem}
use fuji_iot.Handler.Rules.Answers.{
  seen, reply_of-settings, respond-Responds, Responds-temperature, Rule-total,
}
use fuji_iot.Handler.Rules.{
  Message, message, register_message, addressed, Reply, Hears, Rule, Rules,
}

-- The handler that a STATUS register leaves to `respond`.
abbrev heard : Handler → MasterFrame → Handler
heard h f = if h.ac_state.merged then update_from_master_status_register h f else h

heard-Hears :
    (h : Handler) (f : MasterFrame) (k : Handler)
    → IsBytes5 (master_payload f)
    → h.ac_state.temperature < 128
    → Hears h (view (master_payload f)) k
    → (heard h f ≡ k) × (k.ac_state.temperature < 128)
heard-Hears h f k b t (Hears.keeps _ _ m) = (rw m, t)
heard-Hears h f k b t (Hears.takes _ _ m) = (
  ap (λ (b : Bool). if b then update_from_master_status_register h f else h) m ∙ updated_lem h f,
  unfold view in temperature-lt (master_payload f) b,
)

-- What the outside sees of an exchange.
abbrev pub observed : Handler × Option ControllerFrame → Handler × Option Reply
observed r = (r.0, seen r.1)

dispatch-Rule :
    (t : RegisterType) (h : Handler) (f : MasterFrame) (r : Option Reply) (k : Handler)
    → IsBytes5 (master_payload f)
    → h.ac_state.temperature < 128
    → Rule h (register_message t (view (master_payload f))) r k
    → (observed (dispatch t h f) ≡ (k, r)) × (k.ac_state.temperature < 128)
unfolding dispatch register_message update_from_master_error_register
dispatch-Rule RegisterType.error h f _ _ b t (Rule.ignores_error _) = (refl, t)
dispatch-Rule RegisterType.unknown h f _ _ b t (Rule.ignores_unknown _) = (refl, t)
dispatch-Rule RegisterType.login h f _ _ b t (Rule.confirms _) =
    (λ i. (h, some (reply_of-settings _ true false h t (view-send_logged_in_frame h) i)), t)
dispatch-Rule RegisterType.status h f _ _ b t (Rule.answers _ g k v r told responded) =
    let (same, low) = heard-Hears h f g b t told in
    let (cf, sent, says) = respond-Responds g r k low responded in
    (
      ap observed (ap respond same ∙ sent) ∙ λ i. (k, some (says i)),
      rw (Responds-temperature g r k responded) low,
    )

addressed-Rule :
    (d : DestinationAddr) (h : Handler) (f : MasterFrame) (r : Option Reply) (k : Handler)
    → Frame.destination f ≡ d
    → IsBytes5 (master_payload f)
    → h.ac_state.temperature < 128
    → Rule h (addressed d (register_message (Frame.register_type f) (view (master_payload f)))) r k
    → (observed (handle_master_frame h f) ≡ (k, r)) × (k.ac_state.temperature < 128)
unfolding addressed handle_master_frame
addressed-Rule DestinationAddr.wired_controller_addr h f r k e b t rule =
    let q : handle_master_frame h f ≡ dispatch (Frame.register_type f) h f = rw e in
    let (same, low) = dispatch-Rule (Frame.register_type f) h f r k b t rule in
    (ap observed q ∙ same, low)
addressed-Rule DestinationAddr.other h f _ _ e b t (Rule.ignores_elsewhere _) =
    (let q : handle_master_frame h f ≡ (h, none) = rw e in ap observed q, t)
addressed-Rule DestinationAddr.unknown h f _ _ e b t (Rule.ignores_elsewhere _) =
    (let q : handle_master_frame h f ≡ (h, none) = rw e in ap observed q, t)

-- One exchange by the rules is what HandleMasterFrame does.
Rule-observed :
    (h : Handler) (f : MasterFrame) (r : Option Reply) (k : Handler)
    → IsBytes8 f.bytes
    → h.ac_state.temperature < 128
    → Rule h (message f) r k
    → (observed (handle_master_frame h f) ≡ (k, r)) × (k.ac_state.temperature < 128)
unfolding message master_payload
Rule-observed h f r k b t rule =
    addressed-Rule (Frame.destination f) h f r k refl
      (record {
        b0_lt = b.d3_lt;
        b1_lt = b.d4_lt;
        b2_lt = b.d5_lt;
        b3_lt = b.d6_lt;
        b4_lt = b.d7_lt;
      })
      t rule

-- HandleMasterFrame on one frame after the other, seen from outside.
unfoldable pub exchanges : Handler → List MasterFrame → Handler × List (Option Reply)
exchanges h [] = (h, [])
exchanges h (f ∷ fs) =
    let (k, r) = observed (handle_master_frame h f) in
    let (last, rs) = exchanges k fs in (last, r ∷ rs)

unfoldable pub messages : List MasterFrame → List Message
messages [] = []
messages (f ∷ fs) = message f ∷ messages fs

abbrev pub AllBytes : List MasterFrame → Type 0
AllBytes [] = Unit
AllBytes (f ∷ fs) = IsBytes8 f.bytes × AllBytes fs

-- HandleMasterFrame implements a machine without bytes. For a handler with a temperature below 128
-- and any list of frames of eight bytes, the answers, as the getters of the frame and of the
-- register read them, and the handler at the end follow the rules: a frame for another device, or
-- with the error register or an unknown one, is left unanswered and changes nothing; the login
-- register is answered with the login bit and the settings; a STATUS register is first taken over
-- unless a local change waits, and answered with the login query, else the error query, else the
-- change with the write bit (once more without the swing step, if it asked for one), else the
-- settings.
pub exchanges-Rules :
    (h : Handler) (fs : List MasterFrame)
    → h.ac_state.temperature < 128
    → AllBytes fs
    → Rules h (messages fs) (exchanges h fs).1 (exchanges h fs).0
unfolding exchanges messages
exchanges-Rules h [] t b = Rules.ends h
exchanges-Rules h (f ∷ fs) t b =
    let (r, k, rule) = Rule-total h (message f) in
    let (same, low) = Rule-observed h f r k b.0 t rule in
    let done = λ (o : Handler × Option Reply).
      Rules h (message f ∷ messages fs) (o.1 ∷ (exchanges o.0 fs).1) (exchanges o.0 fs).0 in
    subst done (sym same) (Rules.goes_on rule (exchanges-Rules k fs low b.1))

-- The rules leave the handler no choice: for a handler with a temperature below 128 and any list of
-- frames of eight bytes, whatever answers and last handler the rules allow for what the frames say,
-- those are the ones of HandleMasterFrame.
pub Rules-exchanges :
    (h : Handler) (fs : List MasterFrame) (rs : List (Option Reply)) (k : Handler)
    → h.ac_state.temperature < 128
    → AllBytes fs
    → Rules h (messages fs) rs k
    → exchanges h fs ≡ (k, rs)
unfolding exchanges messages
Rules-exchanges h [] _ _ t b (Rules.ends _) = refl
Rules-exchanges h (f ∷ fs) _ k t b (Rules.goes_on {g = g} {r = r} {rs = rs} rule rest) =
    let (same, low) = Rule-observed h f r g b.0 t rule in
    ap (λ (o : Handler × Option Reply). ((exchanges o.0 fs).0, o.1 ∷ (exchanges o.0 fs).1)) same
    ∙ ap (λ (o : Handler × List (Option Reply)). (o.0, r ∷ o.1))
        (Rules-exchanges g fs rs k low b.1 rest)

-- The handler does not see more of a frame than what it says: on two lists of frames of eight bytes
-- that say the same (for the wired controller or not, the register, and what a STATUS register
-- reads), a handler with a temperature below 128 gives the same answers and ends in the same state.
pub same_messages :
    (h : Handler) (fs gs : List MasterFrame)
    → h.ac_state.temperature < 128
    → AllBytes fs
    → AllBytes gs
    → messages fs ≡ messages gs
    → exchanges h fs ≡ exchanges h gs
same_messages h fs gs t b c e = Rules-exchanges h fs _ _ t b (
    subst (λ ms. Rules h ms (exchanges h gs).1 (exchanges h gs).0) (sym e)
      (exchanges-Rules h gs t c))
