-- ===== src/Handler/Protocol.antt =====
-- Which frames the handler answers, and what it takes over from the main unit.
use fuji_iot.Base.{
  ◌==◌, ◌&&◌, ◌||◌, ◌≡◌, ◌≢◌, refl, sym, ap, ◌∙◌, Bool, true, false, not, Option, none, some, arith,
  ◌⊎◌, inl, inr, if◌then◌else◌,
}
use fuji_iot.Frame
use fuji_iot.Frame.{
  MasterFrame, ControllerFrame, destination_code, DestinationAddr, RegisterType, master_payload,
  with_write_bit,
}
use fuji_iot.Register.View.{view}
use fuji_iot.State.{AcState, merge_from_master_status_register}
use fuji_iot.State.Laws.{with_status}
use fuji_iot.Handler.{
  Handler, handle_master_frame, dispatch, respond, update_from_master_status_register,
  send_login_frame, send_error_query_frame, send_status_frame, status_frame,
  update_from_master_error_register, differ,
}

-- A frame for the wired controller with the status register in it.
pub record IsStatus (f : MasterFrame) : Type 0 where
  pub for_us : Frame.destination f ≡ DestinationAddr.wired_controller_addr
  pub holds_status : Frame.register_type f ≡ RegisterType.status

-- A frame that the handler leaves unanswered.
abbrev pub IsSilent : MasterFrame → Type 0
IsSilent f =
    (Frame.destination f ≢ DestinationAddr.wired_controller_addr)
    ⊎ (Frame.register_type f ≡ RegisterType.error)
    ⊎ (Frame.register_type f ≡ RegisterType.unknown)

respond-ne-none : (h : Handler) → (respond h).1 ≢ none
unfolding respond send_status_frame
respond-ne-none h = ground arith

dispatch-none :
    (t : RegisterType) (h : Handler) (f : MasterFrame)
    → (dispatch t h f).1 ≡ none
    → ((t ≡ RegisterType.error) ⊎ (t ≡ RegisterType.unknown)) × ((dispatch t h f).0 ≡ h)
unfolding dispatch update_from_master_error_register
dispatch-none RegisterType.status h f e = absurd (respond-ne-none _ e)
dispatch-none RegisterType.login h f e = cc
dispatch-none RegisterType.error h f e = (inl refl, refl)
dispatch-none RegisterType.unknown h f e = (inr refl, refl)

destination_cases :
    (d : DestinationAddr)
    → (d ≡ DestinationAddr.wired_controller_addr)
      ⊎ (not (destination_code d == destination_code DestinationAddr.wired_controller_addr) ≡ true)
destination_cases DestinationAddr.unknown = inr refl
destination_cases DestinationAddr.wired_controller_addr = inl refl
destination_cases DestinationAddr.other = inr refl

-- A frame is for another device, or goes to the switch on its register type.
pub handle_cases :
    (h : Handler) (f : MasterFrame)
    → (handle_master_frame h f ≡ (h, none))
      ⊎ ((Frame.destination f ≡ DestinationAddr.wired_controller_addr)
          × (handle_master_frame h f ≡ dispatch (Frame.register_type f) h f))
unfolding handle_master_frame
handle_cases h f = elim (destination_cases (Frame.destination f)) [
  | inl us ↦ inr (us, rw us)
  | inr other ↦ inl (rw other)
]

-- If the handler does not answer a frame, then the frame is not for the wired controller, or holds
-- the error register or an unknown one.
pub IsSilent-none :
    (h : Handler) (f : MasterFrame) → (handle_master_frame h f).1 ≡ none → IsSilent f
unfolding handle_master_frame
IsSilent-none h f e = ground (arith, dispatch-none (Frame.register_type f) h f)

-- A frame that is not for the wired controller, or that holds the error register or an unknown one,
-- is not answered and changes nothing in the handler.
pub none-IsSilent :
    (h : Handler) (f : MasterFrame) → IsSilent f → handle_master_frame h f ≡ (h, none)
unfolding handle_master_frame dispatch update_from_master_error_register
none-IsSilent h f e = ground arith

-- A local change takes precedence: while the state is not merged, two STATUS frames for the wired
-- controller lead to the same answer and the same handler, whatever they hold.
pub handle_local_precedence :
    (h : Handler) (f g : MasterFrame)
    → h.ac_state.merged ≡ false
    → IsStatus f
    → IsStatus g
    → handle_master_frame h f ≡ handle_master_frame h g
unfolding handle_master_frame dispatch
handle_local_precedence h f g m (p) (q) = rw (p.for_us, p.holds_status, q.for_us, q.holds_status, m)

pub handle_status :
    (h : Handler) (f : MasterFrame)
    → IsStatus f
    → handle_master_frame h f
      ≡ respond (if h.ac_state.merged then update_from_master_status_register h f else h)
unfolding handle_master_frame dispatch
handle_status h f p = rw (p.for_us, p.holds_status)

-- The handler that has taken a status frame over.
abbrev pub updated : Handler → MasterFrame → Handler
updated h f =
    let v = view (master_payload f) in
    record {
      ac_state = with_status v h.ac_state;
      error_read = h.error_read || differ h.ac_state.error_flag v.error;
      login_read = h.login_read || not v.controller_present;
    }

pub updated_lem :
    (h : Handler) (f : MasterFrame) → update_from_master_status_register h f ≡ updated h f
unfolding update_from_master_status_register merge_from_master_status_register view
updated_lem h f = ground arith

pub handle_status_merged :
    (h : Handler) (f : MasterFrame)
    → h.ac_state.merged ≡ true
    → IsStatus f
    → handle_master_frame h f ≡ respond (updated h f)
handle_status_merged h f m p =
    handle_status h f p
    ∙ ap (λ (b : Bool). respond (if b then update_from_master_status_register h f else h)) m
    ∙ ap respond (updated_lem h f)

pub handle_status_unmerged :
    (h : Handler) (f : MasterFrame)
    → h.ac_state.merged ≡ false
    → IsStatus f
    → handle_master_frame h f ≡ respond h
handle_status_unmerged h f m p =
    handle_status h f p
    ∙ ap (λ (b : Bool). respond (if b then update_from_master_status_register h f else h)) m

respond_merged :
    (h : Handler)
    → h.ac_state.merged ≡ true
    → respond h ≡ (
      record h { login_read = false; error_read = h.login_read && h.error_read },
      some (
          if h.login_read
          then send_login_frame
          else if h.error_read
          then send_error_query_frame
          else status_frame h.ac_state),
    )
unfolding respond send_status_frame
respond_merged h m = ground arith

-- A STATUS frame for the wired controller, while nothing is to be written, is taken over into the
-- local state, and the answer is the login query if one was pending or the frame says that the
-- controller is not registered, else the error query if one was pending or the error bit differs
-- from the error flag, else the local settings without the write bit. Afterwards no login query is
-- pending, and an error query only if the login query went before it.
pub handle_merged :
    (h : Handler) (f : MasterFrame)
    → h.ac_state.merged ≡ true
    → IsStatus f
    → let v = view (master_payload f) in
      let s = with_status v h.ac_state in
      let login = h.login_read || not v.controller_present in
      let error = h.error_read || differ h.ac_state.error_flag v.error in
      handle_master_frame h f ≡ (
        record { ac_state = s; login_read = false; error_read = login && error },
        some (
            if login
            then send_login_frame
            else if error
            then send_error_query_frame
            else status_frame s),
      )
handle_merged h f m p = handle_status_merged h f m p ∙ respond_merged _ refl

-- With nothing pending and no news about the error or the registration, the handler takes the
-- settings over and answers with them.
pub handle_read :
    (h : Handler) (f : MasterFrame)
    → h.ac_state.merged ≡ true
    → h.login_read ≡ false
    → h.error_read ≡ false
    → IsStatus f
    → (view (master_payload f)).controller_present ≡ true
    → (view (master_payload f)).error ≡ h.ac_state.error_flag
    → let s = with_status (view (master_payload f)) h.ac_state in
      handle_master_frame h f ≡ (record h { ac_state = s }, some (status_frame s))
handle_read h f m l e p c d =
    let s = with_status (view (master_payload f)) h.ac_state in
    handle_merged h f m p
    ∙ quiet h.login_read h.error_read (view (master_payload f)).controller_present
        h.ac_state.error_flag (view (master_payload f)).error s l e c d
    ∙ λ i.
        (record { ac_state = s; login_read = sym l i; error_read = sym e i }, some (status_frame s))
  where
    quiet :
        (l e c x y : Bool) (s : AcState)
        → l ≡ false
        → e ≡ false
        → c ≡ true
        → y ≡ x
        → ◌≡◌ {A = Handler × Option ControllerFrame}
            (
              record {
                ac_state = s;
                login_read = false;
                error_read = (l || not c) && (e || differ x y);
              },
              some (
                  if l || not c
                  then send_login_frame
                  else if e || differ x y
                  then send_error_query_frame
                  else status_frame s),
            )
            (record { ac_state = s; login_read = false; error_read = false }, some (status_frame s))
    quiet l e c x y s p q r t = ground arith
