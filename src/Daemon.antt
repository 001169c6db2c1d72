-- ===== src/Daemon.antt =====
-- controller/fuji_ac_controller.cc and controller/fuji_ac_server.cc: the threads of the daemon. One
-- thread runs DoLoop, one may call Shutdown, and each client call has its own. A thread that waits
-- at mu_.Await holds no lock, so a step is what a thread does between two such points. Both services
-- have the same methods GetStatus and Update.
pub mod Shutdown
pub mod Patience
pub mod Delivery
use fuji_iot.Base.{
  ◌≡◌, ℕ, ◌+◌, Bool, true, false, not, Option, none, some, List, [], ◌∷◌, ◌++◌, if◌then◌else◌,
}
use fuji_iot.Frame.{MasterFrame}
use fuji_iot.Serial.{Outcome, done, fatal}
use fuji_iot.Controller.{
  AcUnitState, Controller, make_controller, begin_update, read_status, do_loop_round,
}

-- Where DoLoop stands: at the test of `shutdown_`, behind it, or at its end.
pub data Loop : Type 0 where
  at_test in_round ended : Loop

-- What a client's call waits for: the end of Update, or the state of GetStatus.
pub data Call : Type 0 where
  update_waits status_waits : Call

pub record Daemon : Type 0 where
  pub controller : Controller
  pub loop : Loop
  pub joining : Bool
  pub calls : List Call
  pub responses : List AcUnitState

-- The constructor of the controller, with its thread.
unfoldable pub make_daemon : Daemon
make_daemon = record {
  controller = make_controller;
  loop = Loop.at_test;
  joining = false;
  calls = [];
  responses = [];
}

-- A call of Update, to its first wait.
unfoldable pub call_update : Daemon → AcUnitState → Daemon
call_update d new_state = record d {
  controller = begin_update d.controller new_state;
  calls = Call.update_waits ∷ d.calls;
}

-- A call of GetStatus, to its wait.
unfoldable pub call_status : Daemon → Daemon
call_status d = record d { calls = Call.status_waits ∷ d.calls }

-- A call between two others goes on: Update calls GetStatus then, and GetStatus responds.
unfoldable pub resume : Daemon → List Call → Call → List Call → Daemon
resume d before Call.update_waits after = record d { calls = before ++ Call.status_waits ∷ after }
resume d before Call.status_waits after = record d {
  calls = before ++ after;
  responses = read_status d.controller ∷ d.responses;
}

-- `while (!shutdown_)`.
unfoldable pub test_shutdown : Daemon → Daemon
test_shutdown d = record d {
  loop = if not d.controller.shutdown then Loop.in_round else Loop.ended;
}

-- The body of the loop, for what was read.
unfoldable pub run_round : Daemon → Option MasterFrame → Daemon
run_round d mf = record d { controller = (do_loop_round d.controller mf).0; loop = Loop.at_test }

-- Shutdown, to its join.
unfoldable pub shut_down : Daemon → Outcome Daemon
shut_down d =
    if d.controller.shutdown
    then fatal
    else done (record d { controller = record (d.controller) { shutdown = true }; joining = true })

-- The destructor, to the join of the Shutdown that it calls; or, with nothing to shut down, on to the
-- destruction of `loop_thread_`, which ends the process while the thread has not been joined.
unfoldable pub destroy : Daemon → Outcome Daemon
unfolding shut_down
destroy d = if not d.controller.shutdown then shut_down d else if d.joining then fatal else done d

-- One step of one thread.
pub data Step : Daemon → Daemon → Type 0 where
  update : (d : Daemon) (new_state : AcUnitState) → Step d (call_update d new_state)
  status : (d : Daemon) → Step d (call_status d)
  wake :
      (d : Daemon) (before : List Call) (call : Call) (after : List Call)
      → d.calls ≡ before ++ call ∷ after
      → d.controller.ready ≡ true
      → Step d (resume d before call after)
  test : (d : Daemon) → d.loop ≡ Loop.at_test → Step d (test_shutdown d)
  round : (d : Daemon) (mf : Option MasterFrame) → d.loop ≡ Loop.in_round → Step d (run_round d mf)
  stop : (d e : Daemon) → shut_down d ≡ done e → Step d e
  join :
      (d : Daemon) → d.joining ≡ true → d.loop ≡ Loop.ended → Step d (record d { joining = false })

-- Steps in any order.
pub data Run (d : Daemon) : Daemon → Type 0 where
  here : Run d d
  next : {e f : Daemon} → Run d e → Step e f → Run d f

unfoldable pub step_rounds : {d e : Daemon} → Step d e → ℕ
step_rounds (round d mf h) = 1
step_rounds _ = 0

-- How many rounds of DoLoop a run has.
unfoldable pub rounds : {d e : Daemon} → Run d e → ℕ
rounds here = 0
rounds (next r s) = rounds r + step_rounds s
