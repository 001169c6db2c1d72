-- ===== src/Controller/Written.antt =====
-- FujiAcController::Update and DoLoop: which frames DoLoop writes while an update is under way, and
-- when it sets `ready_`.
use fuji_iot.Base.{
  ◌≡◌, ◌≢◌, refl, sym, ap, ◌∙◌, Bool, true, false, Option, none, some, List, [], ◌∷◌, arith, ◌⊎◌,
  inl, inr, if◌then◌else◌, Bool-cases,
}
use mathlib.Core.Path.{subst}
use fuji_iot.Frame
use fuji_iot.Frame.{MasterFrame, ControllerFrame, RegisterType, DestinationAddr, frame_eq}
use fuji_iot.State.{AcState}
use fuji_iot.Handler.{
  update_from_master_status_register, send_status_frame, Handler, handle_master_frame, dispatch,
  respond, send_login_frame, send_error_query_frame, send_logged_in_frame,
  update_from_master_error_register,
}
use fuji_iot.Handler.Protocol.{handle_cases}
use fuji_iot.Handler.Delivery.{write_frame}
use fuji_iot.Handler.Replies.{write_bit-logged_in, login_bit-logged_in}
use fuji_iot.Controller.{Controller, process_frame, settle}
use fuji_iot.Controller.Ready.{frame_eq_refl, Inv, process_frame-Inv, frame_eq_sound}

abbrev pub emit : Option ControllerFrame → List ControllerFrame → List ControllerFrame
emit none rest = rest
emit (some cf) rest = cf ∷ rest

-- The frames that DoLoop writes for a list of frames that it reads, and the controller behind them.
unfoldable pub run_frames : Controller → List MasterFrame → Controller × List ControllerFrame
run_frames c [] = (c, [])
run_frames c (f ∷ fs) =
    let round = process_frame c f in
    let rest = run_frames round.0 fs in (rest.0, emit round.1 rest.1)

abbrev pub Sent : ControllerFrame → List ControllerFrame → Type 0
Sent cf [] = ⊥
Sent cf (x ∷ xs) = (x ≡ cf) ⊎ Sent cf xs

abbrev pub NoLogin : List MasterFrame → Type 0
NoLogin [] = Unit {0}
NoLogin (f ∷ fs) = (Frame.register_type f ≢ RegisterType.login) × NoLogin fs

respond_unmerged :
    (h : Handler)
    → h.ac_state.merged ≡ false
    → ((respond h).1 ≡ some (write_frame h.ac_state))
      ⊎ ((h.login_read ≡ true)
          × (respond h ≡ (record h { login_read = false }, some send_login_frame)))
      ⊎ ((h.error_read ≡ true)
          × (respond h ≡ (record h { error_read = false }, some send_error_query_frame)))
unfolding respond send_status_frame
respond_unmerged h m = ground arith

frame_eq_ne : (f g : ControllerFrame) → g ≢ f → frame_eq f g ≡ false
frame_eq_ne f g n = elim (Bool-cases (frame_eq f g)) [
  | inl e ↦ absurd (n (sym (frame_eq_sound f g e)))
  | inr e ↦ e
]

-- Not ready, and with the state as it was.
abbrev pub Waits : Controller → AcState → Type 0
Waits c a = (c.ready ≡ false) × (c.client.ac_state ≡ a)

settle-Waits :
    (c : Controller) (h : Handler) (cf : ControllerFrame)
    → c.ready ≡ false
    → c.last_frame ≢ cf
    → Waits (settle c (h, some cf)).0 h.ac_state
unfolding settle
settle-Waits c h cf r n = (rw (frame_eq_ne cf c.last_frame n) r, refl)

pub settle_out : (c : Controller) (r : Handler × Option ControllerFrame) → (settle c r).1 ≡ r.1
unfolding settle
settle_out c (h, none) = refl
settle_out c (h, some cf) = refl

abbrev pub Outcome : Controller → Handler × Option ControllerFrame → Type 0
Outcome c r =
    ((settle c r).1 ≡ some (write_frame c.client.ac_state)) ⊎ Waits (settle c r).0 c.client.ac_state

respond_outcome :
    (c : Controller)
    → Inv c
    → c.client.ac_state.merged ≡ false
    → c.ready ≡ false
    → Outcome c (respond c.client)
respond_outcome c v m r = elim (respond_unmerged c.client m) [
  | inl w ↦ inl (settle_out c (respond c.client) ∙ w)
  | inr (inl (l, q)) ↦ inr (rw q (settle-Waits c _ _ r (v.login_next l)))
  | inr (inr (e, q)) ↦ inr (rw q (settle-Waits c _ _ r (v.error_next e)))
]

-- The answer to a LOGIN frame, behind a frame without the login bit.
logged_in_outcome :
    (c : Controller)
    → c.ready ≡ false
    → Frame.login_bit c.last_frame ≡ false
    → Outcome c (c.client, some (send_logged_in_frame c.client))
logged_in_outcome c r l = inr (
    settle-Waits c c.client (send_logged_in_frame c.client) r
      (λ e. cc (login_bit-logged_in c.client, ap Frame.login_bit e)))

dispatch_outcome :
    (t : RegisterType) (c : Controller) (f : MasterFrame)
    → (t ≡ RegisterType.login → Frame.login_bit c.last_frame ≡ false)
    → Inv c
    → c.client.ac_state.merged ≡ false
    → c.ready ≡ false
    → Outcome c (dispatch t c.client f)
unfolding dispatch update_from_master_error_register
dispatch_outcome RegisterType.status c f n v m r =
    subst
      (λ (b : Bool).
        Outcome c (respond (if b then update_from_master_status_register c.client f else c.client)))
      (sym m) (respond_outcome c v m r)
dispatch_outcome RegisterType.login c f n v m r = logged_in_outcome c r (n refl)
dispatch_outcome RegisterType.error c f n v m r = inr (unfold settle in (r, refl))
dispatch_outcome RegisterType.unknown c f n v m r = inr (unfold settle in (r, refl))

-- A round while an update is under way: its settings are written, or it still is. A LOGIN frame
-- comes only behind a frame without the login bit.
pub process_outcome :
    (c : Controller) (f : MasterFrame)
    → Inv c
    → c.client.ac_state.merged ≡ false
    → c.ready ≡ false
    → (Frame.register_type f ≡ RegisterType.login → Frame.login_bit c.last_frame ≡ false)
    → Outcome c (handle_master_frame c.client f)
process_outcome c f v m r n = elim (handle_cases c.client f) [
  | inl silent ↦ inr (rw silent (unfold settle in (r, refl)))
  | inr (us, q) ↦ rw q (dispatch_outcome (Frame.register_type f) c f n v m r)
]

pub Sent-first :
    (out : Option ControllerFrame) (rest : List ControllerFrame) (cf : ControllerFrame)
    → out ≡ some cf
    → Sent cf (emit out rest)
Sent-first none rest cf e = cc
Sent-first (some x) rest cf e = inl (cc)

pub Sent-later :
    (out : Option ControllerFrame) (rest : List ControllerFrame) (cf : ControllerFrame)
    → Sent cf rest
    → Sent cf (emit out rest)
Sent-later none rest cf s = s
Sent-later (some x) rest cf s = inr s

-- Update does not return early: from a controller that keeps the query invariant, is not ready and
-- has a local change to write, if DoLoop becomes ready on a list of frames with no LOGIN frame in
-- it, then the frame with the write bit and the changed settings is among the frames that it wrote.
pub ready_after_write :
    (fs : List MasterFrame) (c : Controller)
    → Inv c
    → c.client.ac_state.merged ≡ false
    → c.ready ≡ false
    → NoLogin fs
    → (run_frames c fs).0.ready ≡ true
    → Sent (write_frame c.client.ac_state) (run_frames c fs).1
unfolding run_frames process_frame
ready_after_write [] c v m r n e = cc
ready_after_write (f ∷ fs) c v m r (n, ns) e =
    elim (process_outcome c f v m r (λ l. absurd (n l))) [
      | inl w ↦ Sent-first _ _ _ w
      | inr (r', same) ↦
          let c' = (process_frame c f).0 in
          Sent-later _ (run_frames c' fs).1 (write_frame c.client.ac_state) (
            subst (λ (a : AcState). Sent (write_frame a) (run_frames c' fs).1) same
              (ready_after_write fs c' (process_frame-Inv c f v)
                (ap (λ (a : AcState). a.merged) same ∙ m) r' ns e))
    ]

-- A frame for the wired controller with the login register in it.
pub record IsLogin (f : MasterFrame) : Type 0 where
  pub for_us : Frame.destination f ≡ DestinationAddr.wired_controller_addr
  pub holds_login : Frame.register_type f ≡ RegisterType.login

pub handle_login :
    (h : Handler) (f : MasterFrame)
    → IsLogin f
    → handle_master_frame h f ≡ (h, some (send_logged_in_frame h))
unfolding handle_master_frame dispatch
handle_login h f p = rw (p.for_us, p.holds_login)

process_login :
    (c : Controller) (f : MasterFrame)
    → IsLogin f
    → process_frame c f ≡ settle c (c.client, some (send_logged_in_frame c.client))
unfolding process_frame
process_login c f p = ap (settle c) (handle_login c.client f p)

settle_twice :
    (c : Controller) (h : Handler) (cf : ControllerFrame)
    → (settle (settle c (h, some cf)).0 (h, some cf)).0.ready ≡ true
unfolding settle
settle_twice c h cf = rw (frame_eq_refl cf)

run_two :
    (c : Controller) (f g : MasterFrame) (r₁ r₂ : Controller × Option ControllerFrame)
    → process_frame c f ≡ r₁
    → process_frame r₁.0 g ≡ r₂
    → run_frames c (f ∷ g ∷ []) ≡ (r₂.0, emit r₁.1 (emit r₂.1 []))
unfolding run_frames
run_two c f g r₁ r₂ p q = rw (p, q)

-- Two LOGIN frames in a row make any controller ready, also with an update under way: the handler
-- is as it was, and the two frames that were written are equal and have no write bit.
pub login_twice_ready :
    (c : Controller) (f g : MasterFrame)
    → IsLogin f
    → IsLogin g
    → let (c', sent) = run_frames c (f ∷ g ∷ []) in
      (c'.ready ≡ true)
      × (c'.client ≡ c.client)
      × (sent ≡ send_logged_in_frame c.client ∷ send_logged_in_frame c.client ∷ [])
      × (Frame.write_bit (send_logged_in_frame c.client) ≡ false)
unfolding settle
login_twice_ready c f g p q =
    let reply = send_logged_in_frame c.client in
    let c' = (settle c (c.client, some reply)).0 in
    rw (run_two c f g _ _ (process_login c f p) (process_login c' g q))
      (settle_twice c c.client reply, refl, refl, write_bit-logged_in c.client)
