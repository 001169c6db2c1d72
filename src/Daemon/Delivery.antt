-- ===== src/Daemon/Delivery.antt =====
-- FujiAcController::Update among the other threads: what the loop writes before a call goes on.
use fuji_iot.Base.{
  ◌≡◌, refl, sym, ap, ◌∙◌, true, false, Option, none, some, List, [], ◌∷◌, ◌++◌, ◌⊎◌, inl, inr,
  arith,
}
use mathlib.Core.List.{append_assoc, append-nil}
use fuji_iot.Frame
use fuji_iot.Frame.{MasterFrame, ControllerFrame, RegisterType}
use fuji_iot.State.{AcState, set_enabled, set_mode, set_fan, set_temperature}
use fuji_iot.Handler.Delivery.{write_frame}
use fuji_iot.Controller.{
  AcUnitState, Controller, begin_update, update_mode, update_fan, update_temperature, do_loop_round,
  process_frame,
}
use fuji_iot.Controller.Ready.{Inv, process_frame-Inv, begin_update-Inv, make_controller-Inv}
use fuji_iot.Controller.Update.{Asks, begin_update-merged}
use fuji_iot.Controller.Written.{emit, Sent, process_outcome, Sent-first, Sent-later}
use fuji_iot.Daemon.{
  Daemon, Call, Step, Run, make_daemon, call_update, call_status, resume, test_shutdown, run_round,
}
use fuji_iot.Daemon.Shutdown.{shut_down-closing, not_both}

-- What the loop writes in a step.
abbrev step_frame : {d e : Daemon} → Step d e → Option ControllerFrame
step_frame (Step.round d mf l) = (do_loop_round d.controller mf).1
step_frame _ = none

-- The frames that the loop writes in a run, the last one first.
unfoldable pub frames_written : {d e : Daemon} → Run d e → List ControllerFrame
frames_written Run.here = []
frames_written (Run.next r s) = emit (step_frame s) (frames_written r)

-- The states that the calls of Update in a run ask for.
abbrev step_requests : {d e : Daemon} → Step d e → List AcUnitState
step_requests (Step.update d u) = u ∷ []
step_requests _ = []

unfoldable pub requests : {d e : Daemon} → Run d e → List AcUnitState
requests Run.here = []
requests (Run.next r s) = requests r ++ step_requests s

-- What a request does to the local state.
abbrev pub asked : AcUnitState → AcState → AcState
asked u a = update_temperature u.setpoint_temperature (update_fan u.fan (update_mode u.mode a))

abbrev pub all_asked : List AcUnitState → AcState → AcState
all_asked [] a = a
all_asked (u ∷ us) a = all_asked us (asked u a)

all_asked-append :
    (us vs : List AcUnitState) (a : AcState)
    → all_asked (us ++ vs) a ≡ all_asked vs (all_asked us a)
all_asked-append [] vs a = refl
all_asked-append (u ∷ us) vs a = all_asked-append us vs (asked u a)

-- No LOGIN frame comes right behind a frame with the login bit.
abbrev StepCalm : {d e : Daemon} → Step d e → Type 0
StepCalm (Step.round d (some f) l) =
    Frame.register_type f ≡ RegisterType.login → Frame.login_bit d.controller.last_frame ≡ false
StepCalm _ = Unit {0}

abbrev pub Calm : {d e : Daemon} → Run d e → Type 0
Calm Run.here = Unit {0}
Calm (Run.next r s) = Calm r × StepCalm s

-- The changes since `a` are on their way: nothing waits for them to be over.
abbrev Under : AcState → Controller → List AcUnitState → Type 0
Under a c rs =
    (c.ready ≡ false) × (c.client.ac_state.merged ≡ false) × (c.client.ac_state ≡ all_asked rs a)

-- A write holds the settings after the first ones of the requests.
abbrev pub Delivered : AcState → List AcUnitState → List ControllerFrame → Type 0
Delivered a rs fs =
    (us : List AcUnitState) × (vs : List AcUnitState) × (rs ≡ us ++ vs)
    × Sent (write_frame (all_asked us a)) fs

Delivered-later :
    (a : AcState) (rs ws : List AcUnitState) (out : Option ControllerFrame)
    (fs : List ControllerFrame)
    → Delivered a rs fs
    → Delivered a (rs ++ ws) (emit out fs)
Delivered-later a rs ws out fs (us, vs, e, sent) = (
  us,
  vs ++ ws,
  ap (λ (x : List AcUnitState). x ++ ws) e ∙ append_assoc us vs ws,
  Sent-later out fs _ sent,
)

Under-nothing :
    (a : AcState) (c : Controller) (rs : List AcUnitState) → Under a c rs → Under a c (rs ++ [])
Under-nothing a c rs h = rw append-nil h

asked-unmerged :
    (c : Controller) (u : AcUnitState)
    → c.client.ac_state.merged ≡ false
    → (begin_update c u).client.ac_state.merged ≡ false
unfolding begin_update set_enabled set_mode set_fan set_temperature
asked-unmerged c u h = ground arith

update-Under :
    (a : AcState) (c : Controller) (u : AcUnitState) (rs : List AcUnitState)
    → Under a c rs
    → Under a (begin_update c u) (rs ++ u ∷ [])
update-Under a c u rs (r, m, e) = (
  unfold begin_update in refl,
  asked-unmerged c u m,
  unfold begin_update in ap (asked u) e ∙ sym (all_asked-append rs (u ∷ []) a),
)

round-Under :
    (a : AcState) (c : Controller) (f : MasterFrame) (rs : List AcUnitState)
    (fs : List ControllerFrame)
    → Inv c
    → (Frame.register_type f ≡ RegisterType.login → Frame.login_bit c.last_frame ≡ false)
    → Under a c rs
    → Under a (process_frame c f).0 (rs ++ [])
      ⊎ Delivered a (rs ++ []) (emit (process_frame c f).1 fs)
unfolding process_frame
round-Under a c f rs fs v calm (r, m, e) = elim (process_outcome c f v m r calm) [
  | inl w ↦ inr (rs, [], refl, rw (← e) (Sent-first _ fs _ w))
  | inr (r', same) ↦ inl (
      Under-nothing a (process_frame c f).0 rs
        (r', ap (λ (x : AcState). x.merged) same ∙ m, same ∙ e))
]

step-Inv : {d e : Daemon} → Step d e → Inv d.controller → Inv e.controller
unfolding call_update call_status resume test_shutdown run_round do_loop_round
step-Inv (Step.update d u) v = begin_update-Inv d.controller u v
step-Inv (Step.status d) v = v
step-Inv (Step.wake d before Call.update_waits after _ _) v = v
step-Inv (Step.wake d before Call.status_waits after _ _) v = v
step-Inv (Step.test d l) v = v
step-Inv (Step.round d none l) v = v
step-Inv (Step.round d (some f) l) v = process_frame-Inv d.controller f v
step-Inv (Step.stop d e g) v =
    rw (shut_down-closing d e g) (record { login_next = v.login_next; error_next = v.error_next })
step-Inv (Step.join d j l) v = v

run-Inv : {d e : Daemon} → Run d e → Inv d.controller → Inv e.controller
run-Inv Run.here v = v
run-Inv (Run.next r s) v = step-Inv s (run-Inv r v)

step-Under :
    {d e : Daemon} (a : AcState) (rs : List AcUnitState) (fs : List ControllerFrame) (s : Step d e)
    → Inv d.controller
    → StepCalm s
    → Under a d.controller rs
    → Under a e.controller (rs ++ step_requests s)
      ⊎ Delivered a (rs ++ step_requests s) (emit (step_frame s) fs)
unfolding call_update call_status test_shutdown run_round do_loop_round
step-Under a rs fs (Step.update d u) v calm h = inl (update-Under a d.controller u rs h)
step-Under a rs fs (Step.status d) v calm h = inl (Under-nothing a d.controller rs h)
step-Under a rs fs (Step.wake d before call after _ r) v calm h = absurd (not_both h.0 r)
step-Under a rs fs (Step.test d l) v calm h = inl (Under-nothing a d.controller rs h)
step-Under a rs fs (Step.round d none l) v calm h = inl (Under-nothing a d.controller rs h)
step-Under a rs fs (Step.round d (some f) l) v calm h = round-Under a d.controller f rs fs v calm h
step-Under a rs fs (Step.stop d e g) v calm h =
    inl (rw (shut_down-closing d e g) (Under-nothing a d.controller rs h))
step-Under a rs fs (Step.join d j l) v calm h = inl (Under-nothing a d.controller rs h)

run-Under :
    {d e : Daemon} (a : AcState) (r : Run d e)
    → Inv d.controller
    → Calm r
    → Under a d.controller []
    → Under a e.controller (requests r) ⊎ Delivered a (requests r) (frames_written r)
unfolding requests frames_written
run-Under a Run.here v calm h = inl h
run-Under a (Run.next r s) v (calm, last) h = elim (run-Under a r v calm h) [
  | inl under ↦ step-Under a (requests r) (frames_written r) s (run-Inv r v) last under
  | inr sent ↦ inr (Delivered-later a (requests r) (step_requests s) _ (frames_written r) sent)
]

-- A call of Update does not return before its change was written, whatever the threads do. Take any
-- run of the daemon from its start, then a call of Update that sets at least one field, and any run
-- behind it, with further calls, a shutdown and frames of any kind, in which no LOGIN frame comes
-- right behind a frame that was answered with the login bit. If the controller is ready at the end,
-- then one of the frames that the loop wrote in this second run has the write bit and the settings
-- of the local state as the call of Update, and the first of the calls of Update that came later,
-- left it.
pub update-Delivered :
    (d e : Daemon) (u : AcUnitState)
    → Run make_daemon d
    → (r : Run (call_update d u) e) → Asks u
    → Calm r
    → e.controller.ready ≡ true
    → Delivered (asked u d.controller.client.ac_state) (requests r) (frames_written r)
unfolding make_daemon call_update
update-Delivered d e u start r asks calm ready =
    let v = run-Inv start make_controller-Inv in
    elim (run-Under (asked u d.controller.client.ac_state) r (begin_update-Inv d.controller u v)
      calm
      (
        unfold begin_update in refl,
        begin_update-merged d.controller u asks,
        unfold begin_update in refl,
      )) [ inl under ↦ absurd (not_both under.0 ready) | inr sent ↦ sent ]
