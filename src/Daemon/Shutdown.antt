-- ===== src/Daemon/Shutdown.antt =====
-- FujiAcController::Shutdown and its destructor: the end of the loop thread, and what it leaves
-- behind.
use fuji_iot.Base.{
  ℕ, ◌+◌, ◌≤◌, ◌≡◌, ◌≢◌, refl, ap, ◌∙◌, Bool, true, false, Option, none, some, arith, length, ◌⊎◌,
  inl, inr,
}
use fuji_iot.Frame.{MasterFrame, ControllerFrame}
use fuji_iot.Handler.{Handler, handle_master_frame}
use fuji_iot.Serial.{done, fatal}
use fuji_iot.Controller.{Controller, begin_update, do_loop_round, process_frame, settle}
use fuji_iot.Daemon.{
  Daemon, Loop, Call, Step, Run, call_update, call_status, resume, test_shutdown, run_round,
  shut_down, destroy, step_rounds, rounds,
}

-- How many rounds the loop thread still runs once `shutdown_` is set.
abbrev pub rounds_left : Loop → ℕ
rounds_left Loop.at_test = 0
rounds_left Loop.in_round = 1
rounds_left Loop.ended = 0

settle-shutdown :
    (c : Controller) (r : Handler × Option ControllerFrame) → (settle c r).0.shutdown ≡ c.shutdown
unfolding settle
settle-shutdown c (h, none) = refl
settle-shutdown c (h, some cf) = refl

pub do_loop_round-shutdown :
    (c : Controller) (mf : Option MasterFrame) → (do_loop_round c mf).0.shutdown ≡ c.shutdown
unfolding do_loop_round process_frame
do_loop_round-shutdown c none = refl
do_loop_round-shutdown c (some mf) = settle-shutdown c (handle_master_frame c.client mf)

pub shut_down-fatal : (d : Daemon) → d.controller.shutdown ≡ true → shut_down d ≡ fatal
unfolding shut_down
shut_down-fatal d h = rw h

stop_again : (d e : Daemon) → d.controller.shutdown ≡ true → shut_down d ≢ done e
stop_again d e h f = let g = shut_down-fatal d h in cc

step-closing :
    {d e : Daemon} (s : Step d e)
    → d.controller.shutdown ≡ true
    → (e.controller.shutdown ≡ true) × (step_rounds s + rounds_left e.loop ≤ rounds_left d.loop)
unfolding call_update call_status resume test_shutdown run_round step_rounds begin_update
step-closing (Step.update d u) h = (h, omega arith)
step-closing (Step.status d) h = (h, omega arith)
step-closing (Step.wake d before Call.update_waits after _ _) h = (h, omega arith)
step-closing (Step.wake d before Call.status_waits after _ _) h = (h, omega arith)
step-closing (Step.test d l) h = (h, rw h (omega arith))
step-closing (Step.round d mf l) h =
    (do_loop_round-shutdown d.controller mf ∙ h, rw l (omega arith))
step-closing (Step.stop d e f) h = absurd (stop_again d e h f)
step-closing (Step.join d j l) h = (h, omega arith)

run-closing :
    {d e : Daemon} (r : Run d e)
    → d.controller.shutdown ≡ true
    → (e.controller.shutdown ≡ true) × (rounds r + rounds_left e.loop ≤ rounds_left d.loop)
unfolding rounds
run-closing Run.here h = (h, omega arith)
run-closing (Run.next r s) h =
    let (g, left) = run-closing r h in let (g', left') = step-closing s g in (g', omega arith)

abbrev pub closing : Daemon → Daemon
closing d = record d { controller = record (d.controller) { shutdown = true }; joining = true }

pub shut_down-closing : (d e : Daemon) → shut_down d ≡ done e → e ≡ closing d
unfolding shut_down
shut_down-closing d e f = ground arith

pub shut_down-sets : (d e : Daemon) → shut_down d ≡ done e → e.controller.shutdown ≡ true
shut_down-sets d e f = ap (λ (x : Daemon). x.controller.shutdown) (shut_down-closing d e f)

rounds_left_le : (l : Loop) → rounds_left l ≤ 1
rounds_left_le Loop.at_test = omega arith
rounds_left_le Loop.in_round = omega arith
rounds_left_le Loop.ended = omega arith

not_ended : (l : Loop) → l ≡ Loop.ended → l ≡ Loop.at_test → ⊥
not_ended l h g = cc

not_ended_round : (l : Loop) → l ≡ Loop.ended → l ≡ Loop.in_round → ⊥
not_ended_round l h g = cc

-- The join of Shutdown is under way, or it is over and the loop has ended.
abbrev pub JoinOrEnd : Daemon → Type 0
JoinOrEnd d = (d.joining ≡ true) ⊎ ((d.joining ≡ false) × (d.loop ≡ Loop.ended))

step-JoinOrEnd :
    {d e : Daemon} (s : Step d e) → d.controller.shutdown ≡ true → JoinOrEnd d → JoinOrEnd e
unfolding call_update call_status resume test_shutdown run_round
step-JoinOrEnd (Step.update d u) h j = j
step-JoinOrEnd (Step.status d) h j = j
step-JoinOrEnd (Step.wake d before Call.update_waits after _ _) h j = j
step-JoinOrEnd (Step.wake d before Call.status_waits after _ _) h j = j
step-JoinOrEnd (Step.test d l) h (inl j) = inl j
step-JoinOrEnd (Step.test d l) h (inr (_, k)) = absurd (not_ended d.loop k l)
step-JoinOrEnd (Step.round d mf l) h (inl j) = inl j
step-JoinOrEnd (Step.round d mf l) h (inr (_, k)) = absurd (not_ended_round d.loop k l)
step-JoinOrEnd (Step.stop d e f) h j = absurd (stop_again d e h f)
step-JoinOrEnd (Step.join d _ l) h j = inr (refl, l)

run-JoinOrEnd :
    {d e : Daemon} (r : Run d e) → d.controller.shutdown ≡ true → JoinOrEnd d → JoinOrEnd e
run-JoinOrEnd Run.here h j = j
run-JoinOrEnd (Run.next r s) h j = step-JoinOrEnd s (run-closing r h).0 (run-JoinOrEnd r h j)

-- What becomes of a controller that is destroyed behind a call of Shutdown.
abbrev pub Destroyed : Daemon → Type 0
Destroyed d =
    ((d.joining ≡ true) × (destroy d ≡ fatal))
    ⊎ ((d.joining ≡ false) × (d.loop ≡ Loop.ended) × (destroy d ≡ done d))

JoinOrEnd-Destroyed : (d : Daemon) → d.controller.shutdown ≡ true → JoinOrEnd d → Destroyed d
unfolding destroy
JoinOrEnd-Destroyed d h (inl j) = inl (j, ground (arith, h, j))
JoinOrEnd-Destroyed d h (inr (j, l)) = inr (j, l, ground (arith, h, j))

-- After a call of Shutdown that does not end the process, DoLoop runs at most one round more,
-- whatever the steps of the threads. At every later point a second call of Shutdown ends the
-- process; and the destruction of the controller ends the process too if the call of Shutdown has
-- not joined the thread of DoLoop yet, and otherwise leaves everything as it is, with the loop
-- ended.
pub shutdown_once :
    (d d' e : Daemon) (r : Run d' e)
    → shut_down d ≡ done d'
    → (rounds r ≤ 1) × (shut_down e ≡ fatal) × Destroyed e
shutdown_once d d' e r f =
    let set = shut_down-sets d d' f in
    let (h, left) = run-closing r set in
    let joins = inl (ap (λ (x : Daemon). x.joining) (shut_down-closing d d' f)) in
    (
      omega (arith, rounds_left_le d'.loop),
      shut_down-fatal e h,
      JoinOrEnd-Destroyed e h (run-JoinOrEnd r set joins),
    )

-- The loop has ended while the controller was not ready.
record IsStranded (d e : Daemon) : Type 0 where
  loop_ended : e.loop ≡ Loop.ended
  not_ready : e.controller.ready ≡ false
  no_response : e.responses ≡ d.responses
  still_waiting : length d.calls ≤ length e.calls

pub not_both : {b : Bool} → b ≡ false → b ≡ true → ⊥
not_both h g = cc

step-IsStranded : (d : Daemon) {e f : Daemon} (s : Step e f) → IsStranded d e → IsStranded d f
unfolding call_update call_status begin_update
step-IsStranded d (Step.update e u) h = record {
  loop_ended = h.loop_ended;
  not_ready = refl;
  no_response = h.no_response;
  still_waiting = omega (arith, h.still_waiting);
}
step-IsStranded d (Step.status e) h = record {
  loop_ended = h.loop_ended;
  not_ready = h.not_ready;
  no_response = h.no_response;
  still_waiting = omega (arith, h.still_waiting);
}
step-IsStranded d (Step.wake e before call after _ r) h = absurd (not_both h.not_ready r)
step-IsStranded d (Step.test e l) h = absurd (not_ended e.loop h.loop_ended l)
step-IsStranded d (Step.round e mf l) h = absurd (not_ended_round e.loop h.loop_ended l)
step-IsStranded d (Step.stop e f g) h = rw (shut_down-closing e f g) (record {
  loop_ended = h.loop_ended;
  not_ready = h.not_ready;
  no_response = h.no_response;
  still_waiting = omega (arith, h.still_waiting);
})
step-IsStranded d (Step.join e j l) h = record {
  loop_ended = h.loop_ended;
  not_ready = h.not_ready;
  no_response = h.no_response;
  still_waiting = omega (arith, h.still_waiting);
}

run-IsStranded : {d e : Daemon} → Run d e → IsStranded d d → IsStranded d e
run-IsStranded Run.here h = h
run-IsStranded (Run.next r s) h = step-IsStranded _ s (run-IsStranded r h)

-- Clients that wait when the loop ends wait for ever: if the loop has ended and the controller is
-- not ready, then along every run no response is given and no call leaves its wait for good.
pub ended_never_responds :
    (d e : Daemon)
    → Run d e
    → d.loop ≡ Loop.ended
    → d.controller.ready ≡ false
    → (e.responses ≡ d.responses) × (length d.calls ≤ length e.calls)
ended_never_responds d e r l n =
    let h =
      run-IsStranded r (record {
        loop_ended = l;
        not_ready = n;
        no_response = refl;
        still_waiting = omega arith;
      }) in
    (h.no_response, h.still_waiting)

-- A run at whose end the thread that called Shutdown goes on.
abbrev pub Joins : Daemon → Type 0
Joins d = (e : Daemon) × Run d e × (e.loop ≡ Loop.ended) × (e.joining ≡ false)

joined : (d : Daemon) → d.loop ≡ Loop.ended → d.joining ≡ true → Joins d
joined d l j = (record d { joining = false }, Run.next Run.here (Step.join d j l), l, refl)

tested :
    (d e : Daemon)
    → Run d e
    → e.loop ≡ Loop.at_test
    → e.joining ≡ true
    → e.controller.shutdown ≡ true
    → Joins d
unfolding test_shutdown
tested d e r l j h =
    let e' = test_shutdown e in
    let ended : e'.loop ≡ Loop.ended = rw h refl in
    (
      record e' { joining = false },
      Run.next (Run.next r (Step.test e l)) (Step.join e' j ended),
      ended,
      refl,
    )

Loop-cases : (l : Loop) → (l ≡ Loop.at_test) ⊎ (l ≡ Loop.in_round) ⊎ (l ≡ Loop.ended)
Loop-cases Loop.at_test = inl refl
Loop-cases Loop.in_round = inr (inl refl)
Loop-cases Loop.ended = inr (inr refl)

-- Shutdown can return: after its first part, if it does not end the process, there is a run for
-- every result of the read that is under way, at whose end the loop has ended and the join is over.
pub shutdown-Joins : (d d' : Daemon) → Option MasterFrame → shut_down d ≡ done d' → Joins d'
unfolding run_round
shutdown-Joins d d' mf f =
    let set = shut_down-sets d d' f in
    let joining = ap (λ (x : Daemon). x.joining) (shut_down-closing d d' f) in
    elim (Loop-cases d'.loop) [
      | inl l ↦ tested d' d' Run.here l joining set
      | inr (inl l) ↦
          tested d' (run_round d' mf) (Run.next Run.here (Step.round d' mf l)) refl joining
            (do_loop_round-shutdown d'.controller mf ∙ set)
      | inr (inr l) ↦ joined d' l joining
    ]
