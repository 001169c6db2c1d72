-- ===== src/Tests/Threads.antt =====
-- The theorems on the daemon's threads at concrete runs.
use fuji_iot.Base.{◌≡◌, ◌≤◌, refl, some, [], ◌∷◌, length}
use fuji_iot.Frame
use fuji_iot.Serial.{done, fatal}
use fuji_iot.Controller
use fuji_iot.Daemon.{Daemon, Call, Loop, Step, Run, make_daemon, shut_down, destroy, rounds}
use fuji_iot.Daemon
use fuji_iot.Daemon.Shutdown.{closing, Destroyed, shutdown_once, ended_never_responds}
use fuji_iot.Daemon.Patience.{response_after_two}
use fuji_iot.Tests.Golden.Replay.{replay_all}
use fuji_iot.Tests.Data.{login_mf}

-- Shutdown of a daemon whose loop is within a round.
abbrev in_round : Daemon
in_round = record (make_daemon) { loop = Loop.in_round }

shut_down-in_round : shut_down in_round ≡ done (closing in_round)
unfolding shut_down make_daemon Controller.make_controller
shut_down-in_round = refl

abbrev last_round : Run (closing in_round) (Daemon.run_round (closing in_round) (some login_mf))
last_round = Run.next Run.here (Step.round (closing in_round) (some login_mf) refl)

shutdown_once_example :
    let e = Daemon.run_round (closing in_round) (some login_mf) in
    (rounds last_round ≤ 1) × (shut_down e ≡ fatal) × Destroyed e
shutdown_once_example = shutdown_once in_round (closing in_round) _ last_round shut_down-in_round

-- A client that calls GetStatus at a daemon that has been shut down at once.
abbrev too_late : Daemon
too_late = record (closing make_daemon) { loop = Loop.ended; calls = Call.update_waits ∷ [] }

ended_never_responds_example :
    ((Daemon.call_status too_late).responses ≡ too_late.responses)
    × (length too_late.calls ≤ length (Daemon.call_status too_late).calls)
unfolding make_daemon Controller.make_controller
ended_never_responds_example =
    ended_never_responds too_late (Daemon.call_status too_late)
      (Run.next Run.here (Step.status too_late)) refl refl

-- GetStatus, and two equal frames from the unit.
abbrev asked : Daemon
asked = Daemon.call_status make_daemon

abbrev once : Daemon
once = Daemon.run_round (Daemon.test_shutdown asked) (some login_mf)

abbrev twice : Daemon
twice = Daemon.run_round (Daemon.test_shutdown once) (some login_mf)

abbrev responded : Daemon
responded = Daemon.resume twice [] Call.status_waits []

first_response : Run make_daemon responded
unfolding make_daemon Daemon.call_status Daemon.run_round Daemon.test_shutdown replay_all
    Controller.make_controller Controller.do_loop_round Frame.frame_eq
first_response =
    Run.next
      (Run.next
        (Run.next
          (Run.next (Run.next (Run.next Run.here (Step.status make_daemon)) (Step.test asked refl))
            (Step.round (Daemon.test_shutdown asked) (some login_mf) refl))
          (Step.test once refl))
        (Step.round (Daemon.test_shutdown once) (some login_mf) refl))
      (Step.wake twice [] Call.status_waits [] refl refl)

response_after_two_example : 2 ≤ rounds first_response
unfolding Daemon.resume
response_after_two_example = response_after_two responded first_response (λ e. cc)
