-- ===== src/Handler/Shape.antt =====
-- The form of the handler's answers, and which of them are writes.
use fuji_iot.Base.{◌≡◌, refl, sym, ap, ◌∙◌, true, false, Option, some, arith, ◌⊎◌, inl, inr}
use fuji_iot.Base.Bytes.{IsBytes8}
use fuji_iot.Frame
use fuji_iot.Frame.{
  MasterFrame, ControllerFrame, RegisterType, DestinationAddr, empty_frame, with_payload,
  with_query_register, with_login_bit, with_write_bit,
}
use fuji_iot.Frame.Valid.{
  with_payload-IsBytes8, with_query_register-IsBytes8, with_login_bit-IsBytes8,
  with_write_bit-IsBytes8,
}
use fuji_iot.State.{AcState}
use fuji_iot.State.Laws.{build-IsBytes5}
use fuji_iot.Handler.{
  Handler, handle_master_frame, dispatch, respond, send_status_frame, blank_payload,
  send_login_frame, send_error_query_frame, send_logged_in_frame, status_frame,
}
use fuji_iot.Handler.Replies.{blank_payload-IsBytes5, write_bit-logged_in}
use fuji_iot.Handler.Protocol.{IsStatus, handle_cases}
use fuji_iot.Handler.Delivery.{pending, write_frame, handle_write, handle_unmerged_idle}

-- Eight bytes from the wired controller, with the login bit or without it.
pub record IsReply (f : ControllerFrame) : Type 0 where
  pub bytes : IsBytes8 f.bytes
  pub address : f.bytes.d0 ≡ 32
  pub mark : (f.bytes.d1 ≡ 129) ⊎ (f.bytes.d1 ≡ 161)

empty_frame-IsBytes8 : IsBytes8 empty_frame.bytes
unfolding empty_frame
empty_frame-IsBytes8 = omega arith

query-IsReply : (t : RegisterType) → IsReply (with_query_register empty_frame t)
query-IsReply t = record {
  bytes = with_query_register-IsBytes8 empty_frame t empty_frame-IsBytes8;
  address = unfold with_query_register empty_frame in refl;
  mark = inl (unfold with_query_register empty_frame in refl);
}

status_frame-IsReply : (s : AcState) → IsReply (status_frame s)
unfolding status_frame
status_frame-IsReply s = record {
  bytes = with_query_register-IsBytes8 _ RegisterType.status (
      with_payload-IsBytes8 empty_frame _ empty_frame-IsBytes8
        (build-IsBytes5 s blank_payload blank_payload-IsBytes5));
  address = unfold with_query_register with_payload empty_frame in refl;
  mark = inl (unfold with_query_register with_payload empty_frame in refl);
}

write_frame-IsReply : (s : AcState) → IsReply (write_frame s)
write_frame-IsReply s = record {
  bytes = with_write_bit-IsBytes8 (status_frame s) true (status_frame-IsReply s).bytes;
  address = unfold with_write_bit in (status_frame-IsReply s).address;
  mark = unfold with_write_bit in (status_frame-IsReply s).mark;
}

logged_in-IsReply : (h : Handler) → IsReply (send_logged_in_frame h)
unfolding send_logged_in_frame
logged_in-IsReply h = record {
  bytes = with_query_register-IsBytes8 _ RegisterType.status (
      with_payload-IsBytes8 _ _ (with_login_bit-IsBytes8 empty_frame true empty_frame-IsBytes8)
        (build-IsBytes5 h.ac_state blank_payload blank_payload-IsBytes5));
  address = unfold with_query_register with_payload with_login_bit empty_frame in refl;
  mark = inr (unfold with_query_register with_payload with_login_bit empty_frame in refl);
}

-- What `respond` sends.
respond_cases :
    (h : Handler) (cf : ControllerFrame)
    → (respond h).1 ≡ some cf
    → (cf ≡ send_login_frame)
      ⊎ (cf ≡ send_error_query_frame)
      ⊎ (cf ≡ status_frame h.ac_state)
      ⊎ (cf ≡ write_frame h.ac_state)
unfolding respond send_status_frame
respond_cases h cf e = ground arith

respond-IsReply : (h : Handler) (cf : ControllerFrame) → (respond h).1 ≡ some cf → IsReply cf
unfolding send_login_frame send_error_query_frame
respond-IsReply h cf e = elim (respond_cases h cf e) [
  | inl q ↦ rw q (query-IsReply RegisterType.login)
  | inr (inl q) ↦ rw q (query-IsReply RegisterType.error)
  | inr (inr (inl q)) ↦ rw q (status_frame-IsReply h.ac_state)
  | inr (inr (inr q)) ↦ rw q (write_frame-IsReply h.ac_state)
]

dispatch-IsReply :
    (t : RegisterType) (h : Handler) (f : MasterFrame) (cf : ControllerFrame)
    → (dispatch t h f).1 ≡ some cf
    → IsReply cf
unfolding dispatch
dispatch-IsReply RegisterType.status h f cf e = respond-IsReply _ cf e
dispatch-IsReply RegisterType.login h f cf e =
    (let q : send_logged_in_frame h ≡ cf = cc in rw (← q) (logged_in-IsReply h))
dispatch-IsReply RegisterType.error h f cf e = cc
dispatch-IsReply RegisterType.unknown h f cf e = cc

abbrev reply_of : Handler × Option ControllerFrame → Option ControllerFrame
reply_of r = r.1

-- Whatever the handler and the frame, an answer consists of eight bytes, of which the first is the
-- address 32 and the second is 129, or 161 with the login bit.
pub handle-IsReply :
    (h : Handler) (f : MasterFrame) (cf : ControllerFrame)
    → (handle_master_frame h f).1 ≡ some cf
    → IsReply cf
handle-IsReply h f cf e = elim (handle_cases h f) [
  | inl silent ↦ cc (ap reply_of silent)
  | inr (_, q) ↦ dispatch-IsReply (Frame.register_type f) h f cf (sym (ap reply_of q) ∙ e)
]

write_needs_status :
    (t : RegisterType) (h : Handler) (f : MasterFrame) (cf : ControllerFrame)
    → (dispatch t h f).1 ≡ some cf
    → Frame.write_bit cf ≡ true
    → t ≡ RegisterType.status
unfolding dispatch
write_needs_status RegisterType.status h f cf e w = refl
write_needs_status RegisterType.login h f cf e w = cc (write_bit-logged_in h)
write_needs_status RegisterType.error h f cf e w = cc
write_needs_status RegisterType.unknown h f cf e w = cc

some_eq : {x y : ControllerFrame} → ◌≡◌ {A = Option ControllerFrame} (some x) (some y) → x ≡ y
some_eq e = cc

IsStatus-of_write :
    (h : Handler) (f : MasterFrame) (cf : ControllerFrame)
    → (handle_master_frame h f).1 ≡ some cf
    → Frame.write_bit cf ≡ true
    → IsStatus f
IsStatus-of_write h f cf e w = elim (handle_cases h f) [
  | inl silent ↦ cc (ap reply_of silent)
  | inr (us, q) ↦ record {
    for_us = us;
    holds_status = write_needs_status (Frame.register_type f) h f cf (sym (ap reply_of q) ∙ e) w;
  }
]

-- The handler sends a frame with the write bit only in answer to a STATUS frame for the wired
-- controller, only with a local change and no query pending, and the frame holds the settings of
-- the local state.
pub handle_write_only :
    (h : Handler) (f : MasterFrame) (cf : ControllerFrame)
    → (handle_master_frame h f).1 ≡ some cf
    → Frame.write_bit cf ≡ true
    → IsStatus f × (h.ac_state.merged ≡ false) × (pending h ≡ 0) × (cf ≡ write_frame h.ac_state)
handle_write_only h f cf e w =
    let p = IsStatus-of_write h f cf e w in
    let (m, z) = handle_write h f cf p e w in
    (p, m, z, some_eq (sym e ∙ ap reply_of (handle_unmerged_idle h f m z p)))
