-- ===== src/Handler/Rules/Answers.antt =====
-- The answers of the handler by what they say, and SendStatusFrame with the queries before it as an
-- implementation of the rules.
use fuji_iot.Base.{
  ◌<◌, ◌≡◌, refl, ap, ◌∙◌, Bool, true, false, Option, none, some, arith, Bool-cases, inl, inr,
}
use fuji_iot.Register
use fuji_iot.Register.View.{Status, view}
use fuji_iot.Register.Layout.{extract_bits}
use fuji_iot.Frame.{ControllerFrame, RegisterType, with_write_bit}
use fuji_iot.Frame.Laws.{ControllerView, controller_view}
use fuji_iot.State.{set_merged, set_swing_step}
use fuji_iot.Handler.{
  Handler, respond, send_status_frame, send_login_frame, send_error_query_frame, status_frame,
}
use fuji_iot.Handler.Replies.{
  zero_payload, query_for, settings_reply, view-send_login_frame, view-send_error_query_frame,
  view-status_frame, view-status_frame_write, view-settings,
}
use fuji_iot.Handler.Rules.{Message, Reply, reply_of, nothing, asks, tells, Hears, Responds, Rule}

-- The answer, if there is one, by what it says.
abbrev pub seen : Option ControllerFrame → Option Reply
seen none = none
seen (some f) = some (reply_of f)

-- A reply, by what the getters of the frame say.
abbrev of_view : ControllerView → Reply
of_view v = record {
  login_bit = v.login_bit;
  write_bit = v.write_bit;
  query_register = v.query_register;
  settings = view v.payload;
}

reply_of_lem : (f : ControllerFrame) → reply_of f ≡ of_view (controller_view f)
unfolding reply_of controller_view
reply_of_lem f = refl

view-zero_payload : view zero_payload ≡ nothing
unfolding view Register.mode_of Register.fan_of extract_bits
view-zero_payload = refl

reply_of-query :
    (f : ControllerFrame) (t : RegisterType) → controller_view f ≡ query_for t → reply_of f ≡ asks t
reply_of-query f t e =
    reply_of_lem f ∙ ap of_view e ∙ λ i. record (asks t) { settings = view-zero_payload i }

pub reply_of-settings :
    (f : ControllerFrame) (login write : Bool) (h : Handler)
    → h.ac_state.temperature < 128
    → controller_view f ≡ settings_reply login write h.ac_state
    → reply_of f ≡ tells login write h
reply_of-settings f login write h t e = reply_of_lem f ∙ ap of_view e ∙ λ i.
    record (tells login write h) { settings = view-settings h.ac_state t i }

-- `respond` gives what the rules say.
pub respond-Responds :
    (h : Handler) (r : Reply) (k : Handler)
    → h.ac_state.temperature < 128
    → Responds h r k
    → (f : ControllerFrame) × (respond h ≡ (k, some f)) × (reply_of f ≡ r)
unfolding respond send_status_frame set_merged set_swing_step
respond-Responds _ _ _ t (Responds.asks_login h l) =
    (send_login_frame, ground arith, reply_of-query _ _ view-send_login_frame)
respond-Responds _ _ _ t (Responds.asks_error h l e) =
    (send_error_query_frame, ground arith, reply_of-query _ _ view-send_error_query_frame)
respond-Responds _ _ _ t (Responds.repeats h l e m) = (
  status_frame h.ac_state,
  ground arith,
  reply_of-settings _ false false h t (view-status_frame h.ac_state),
)
respond-Responds _ _ _ t (Responds.writes h l e m s) = (
  with_write_bit (status_frame h.ac_state) true,
  rw (l, e, m, s),
  reply_of-settings _ false true h t (view-status_frame_write h.ac_state),
)
respond-Responds _ _ _ t (Responds.writes_step h l e m s) = (
  with_write_bit (status_frame h.ac_state) true,
  rw (l, e, m, s),
  reply_of-settings _ false true h t (view-status_frame_write h.ac_state),
)

pub Responds-temperature :
    (g : Handler) (r : Reply) (k : Handler)
    → Responds g r k
    → k.ac_state.temperature ≡ g.ac_state.temperature
Responds-temperature _ _ _ (Responds.asks_login h l) = refl
Responds-temperature _ _ _ (Responds.asks_error h l e) = refl
Responds-temperature _ _ _ (Responds.repeats h l e m) = refl
Responds-temperature _ _ _ (Responds.writes h l e m s) = refl
Responds-temperature _ _ _ (Responds.writes_step h l e m s) = refl

-- Some rule fits every handler.
Responds-total : (h : Handler) → (r : Reply) × (k : Handler) × Responds h r k
Responds-total h = elim (Bool-cases h.login_read) [
  | inl l ↦ (_, _, Responds.asks_login h l)
  | inr l ↦ elim (Bool-cases h.error_read) [
    | inl e ↦ (_, _, Responds.asks_error h l e)
    | inr e ↦ elim (Bool-cases h.ac_state.merged) [
      | inl m ↦ (_, _, Responds.repeats h l e m)
      | inr m ↦ elim (Bool-cases h.ac_state.swing_step) [
        | inl s ↦ (_, _, Responds.writes_step h l e m s)
        | inr s ↦ (_, _, Responds.writes h l e m s)
      ]
    ]
  ]
]

Hears-total : (h : Handler) (v : Status) → (k : Handler) × Hears h v k
Hears-total h v = elim (Bool-cases h.ac_state.merged) [
  | inl m ↦ (_, Hears.takes h v m)
  | inr m ↦ (_, Hears.keeps h v m)
]

pub Rule-total : (h : Handler) (m : Message) → (r : Option Reply) × (k : Handler) × Rule h m r k
Rule-total h Message.elsewhere = (_, _, Rule.ignores_elsewhere h)
Rule-total h Message.error_register = (_, _, Rule.ignores_error h)
Rule-total h Message.unknown_register = (_, _, Rule.ignores_unknown h)
Rule-total h Message.login_register = (_, _, Rule.confirms h)
Rule-total h (Message.status_register v) =
    let (g, heard) = Hears-total h v in
    let (r, k, responded) = Responds-total g in (some r, k, Rule.answers h g k v r heard responded)
