-- ===== src/Controller/Ready.antt =====
-- When the controller counts as ready: every step of its two threads, and what `ready_` says of an
-- update that is under way.
use fuji_iot.Base.{
  ◌≡◌, ◌≢◌, refl, sym, ap, ◌∙◌, true, false, Option, none, some, arith, ◌⊎◌, inl, inr,
}
use fuji_iot.Base.Bytes.{bytes_eq_iff}
use fuji_iot.Frame
use fuji_iot.Frame.{
  MasterFrame, ControllerFrame, RegisterType, DestinationAddr, frame_eq, empty_frame,
}
use fuji_iot.Frame.Laws.{ControllerView, controller_view}
use fuji_iot.State.{AcState}
use fuji_iot.Handler.{
  respond, send_status_frame, dispatch, Handler, handle_master_frame, send_login_frame,
  send_error_query_frame, send_logged_in_frame, status_frame,
}
use fuji_iot.Handler.Replies.{
  view-send_login_frame, view-send_error_query_frame, view-send_logged_in_frame, view-status_frame,
}
use fuji_iot.Handler.Protocol.{handle_cases, none-IsSilent, IsSilent-none}
use fuji_iot.Controller.{
  Controller, AcUnitState, make_controller, begin_update, process_frame, settle,
}

pub frame_eq_refl : (f : ControllerFrame) → frame_eq f f ≡ true
unfolding frame_eq
frame_eq_refl f = (bytes_eq_iff f.bytes f.bytes).1 refl

pub frame_eq_sound : (f g : ControllerFrame) → frame_eq f g ≡ true → f ≡ g
unfolding frame_eq
frame_eq_sound f g e = λ i. record { bytes = (bytes_eq_iff f.bytes g.bytes).0 e i }

-- One step of the loop thread, or of a thread that calls Update.
pub data Step : Controller → Controller → Type 0 where
  frame : (c : Controller) (f : MasterFrame) → Step c (process_frame c f).0
  request : (c : Controller) (u : AcUnitState) → Step c (begin_update c u)

pub data Reach (c : Controller) : Controller → Type 0 where
  here : Reach c c
  next : {d e : Controller} → Reach c d → Step d e → Reach c e

-- A query is still to be sent only if it was not the last frame.
pub record Inv (c : Controller) : Type 0 where
  pub login_next : c.client.login_read ≡ true → c.last_frame ≢ send_login_frame
  pub error_next : c.client.error_read ≡ true → c.last_frame ≢ send_error_query_frame

query_of_view :
    (f : ControllerFrame) (v : ControllerView)
    → controller_view f ≡ v
    → Frame.query_register f ≡ v.query_register
unfolding controller_view
query_of_view f v e = ap (λ w. w.query_register) e

pub query-login : Frame.query_register send_login_frame ≡ RegisterType.login
query-login = query_of_view _ _ view-send_login_frame

query-error : Frame.query_register send_error_query_frame ≡ RegisterType.error
query-error = query_of_view _ _ view-send_error_query_frame

query-logged_in :
    (h : Handler) → Frame.query_register (send_logged_in_frame h) ≡ RegisterType.status
query-logged_in h = query_of_view _ _ (view-send_logged_in_frame h)

query-status : (s : AcState) → Frame.query_register (status_frame s) ≡ RegisterType.status
query-status s = query_of_view _ _ (view-status_frame s)

pub query-empty : Frame.query_register empty_frame ≡ RegisterType.status
unfolding Frame.query_register empty_frame Frame.query_of
query-empty = refl

pub make_controller-Inv : Inv make_controller
unfolding make_controller
make_controller-Inv = record {
  login_next = λ _ e. cc (query-empty, query-login);
  error_next = λ e _. cc;
}

-- What a handler still has to query behind an answer `cf`.
pub record Queries (h : Handler) (cf : ControllerFrame) : Type 0 where
  pub login_after : h.login_read ≡ true → cf ≢ send_login_frame
  pub error_after : h.error_read ≡ true → cf ≢ send_error_query_frame

login-ne-error : send_login_frame ≢ send_error_query_frame
login-ne-error e = cc (query-login, query-error, ap Frame.query_register e)

respond_flags :
    (h : Handler) (cf : ControllerFrame)
    → (respond h).1 ≡ some cf
    → ((respond h).0.login_read ≡ false)
      × (((respond h).0.error_read ≡ false) ⊎ (cf ≡ send_login_frame))
unfolding respond send_status_frame
respond_flags h cf e = ground arith

respond-Queries :
    (h : Handler) (cf : ControllerFrame) → (respond h).1 ≡ some cf → Queries (respond h).0 cf
respond-Queries h cf e =
    let (l, r) = respond_flags h cf e in
    record {
      login_after = λ t. cc;
      error_after = elim r [ inl n ↦ (λ t. cc) | inr q ↦ (λ t z. login-ne-error (sym q ∙ z)) ];
    }

dispatch-Queries :
    (t : RegisterType) (h : Handler) (f : MasterFrame) (cf : ControllerFrame)
    → (dispatch t h f).1 ≡ some cf
    → Queries (dispatch t h f).0 cf
unfolding dispatch
dispatch-Queries RegisterType.status h f cf e = respond-Queries _ cf e
dispatch-Queries RegisterType.login h f cf e = record {
  login_after = λ _ z. cc (query-logged_in h, query-login, e, ap Frame.query_register z);
  error_after = λ _ z. cc (query-logged_in h, query-error, e, ap Frame.query_register z);
}
dispatch-Queries RegisterType.error h f cf e = cc
dispatch-Queries RegisterType.unknown h f cf e = cc

handle-Queries :
    (h : Handler) (f : MasterFrame) (cf : ControllerFrame)
    → (handle_master_frame h f).1 ≡ some cf
    → Queries (handle_master_frame h f).0 cf
handle-Queries h f cf e = elim (handle_cases h f) [
  | inl silent ↦ cc (ap (λ (r : Handler × Option ControllerFrame). r.1) silent)
  | inr (_, q) ↦ rw q (
      dispatch-Queries (Frame.register_type f) h f cf
        (sym (ap (λ (r : Handler × Option ControllerFrame). r.1) q) ∙ e))
]

settle-Inv :
    (c : Controller) (h : Handler) (r : Option ControllerFrame)
    → Inv c
    → (r ≡ none → h ≡ c.client)
    → ((cf : ControllerFrame) → r ≡ some cf → Queries h cf)
    → Inv (settle c (h, r)).0
unfolding settle
settle-Inv c h none v same queries = rw (same refl) v
settle-Inv c h (some cf) v same queries = record {
  login_next = (queries cf refl).login_after;
  error_next = (queries cf refl).error_after;
}

pub process_frame-Inv : (c : Controller) (f : MasterFrame) → Inv c → Inv (process_frame c f).0
unfolding process_frame
process_frame-Inv c f v =
    settle-Inv c (handle_master_frame c.client f).0 (handle_master_frame c.client f).1 v
      (λ e.
        ap (λ (r : Handler × Option ControllerFrame). r.0)
          (none-IsSilent c.client f (IsSilent-none c.client f e)))
      (handle-Queries c.client f)

pub begin_update-Inv : (c : Controller) (u : AcUnitState) → Inv c → Inv (begin_update c u)
unfolding begin_update
begin_update-Inv c u v = record { login_next = v.login_next; error_next = v.error_next }

Step-Inv : {c d : Controller} → Step c d → Inv c → Inv d
Step-Inv (frame c f) v = process_frame-Inv c f v
Step-Inv (request c u) v = begin_update-Inv c u v

-- In every controller that frames and requests of Update, in any order, make of a new one, a login
-- query still to be sent was not the last frame sent, and neither was an error query still to be
-- sent.
pub Reach-Inv : {c : Controller} → Reach make_controller c → Inv c
Reach-Inv here = make_controller-Inv
Reach-Inv (next r st) = Step-Inv st (Reach-Inv r)
