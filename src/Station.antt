-- ===== src/Station.antt =====
-- controller/fuji_ac_controller.cc, controller/fuji_ac_serial_interface.h and the services of
-- controller/fuji_ac_server.cc: the daemon at work over any serial interface. The loop thread, client
-- calls and keys of the unit's remote control take turns, in any order, by one act each.
pub mod Trace
pub mod Unit
pub mod Sound
pub mod Session
pub mod Answers
pub mod Served
pub mod Line
pub mod Simulated
pub mod Calm
pub mod Promises
pub mod Shutdown
use fuji_iot.Base.{
  ℕ, zero, suc, Bool, true, false, Option, none, some, List, [], ◌∷◌, ◌++◌, if◌then◌else◌,
}
use fuji_iot.Frame.{MasterFrame, ControllerFrame}
use fuji_iot.Serial.{Outcome, done, fatal}
use fuji_iot.Controller.{AcUnitState, Controller, do_loop_round}
use fuji_iot.Server.Remote.{Press}
use fuji_iot.Daemon.{
  Daemon, Loop, Call, make_daemon, call_update, call_status, resume, test_shutdown, run_round,
  shut_down,
}

-- FujiAcSerialInterface, on the state `W` of what is behind it.
pub record SerialInterface (W : Type 0) : Type 0 where
  pub read_master_frame : W → Outcome (Option MasterFrame × W)
  pub write_controller_frame : ControllerFrame → W → Outcome W

-- The threads of the daemon, what is behind the interface, and the frame that DoLoop has read and
-- not yet handled.
pub record Station (W : Type 0) : Type 0 where
  pub daemon : Daemon
  pub world : W
  pub held : Option MasterFrame

-- What happens next: a step of the loop thread, a key, a call of Update or of GetStatus, the waiting
-- call of a number goes on, a call of Shutdown comes to its join, or its join is over.
pub data Act : Type 0 where
  loop stop join : Act
  key : Press → Act
  update : AcUnitState → Act
  status : Act
  wake : ℕ → Act

-- The waiting call of a number behind the calls before it.
unfoldable pub wake_at : Daemon → List Call → List Call → ℕ → Daemon
wake_at d before [] n = d
wake_at d before (call ∷ after) zero = resume d before call after
wake_at d before (call ∷ after) (suc n) = wake_at d (before ++ call ∷ []) after n

-- A call goes on only if the controller is ready.
unfoldable pub wake_call : ℕ → Daemon → Daemon
wake_call n d = if d.controller.ready then wake_at d [] d.calls n else d

-- `loop_thread_->join()` returns once the loop has ended.
unfoldable pub join_loop : Bool → Loop → Daemon → Daemon
join_loop true Loop.ended d = record d { joining = false }
join_loop _ _ d = d

module _ {W : Type 0} where
  -- The constructors, with the loop thread at its first test.
  abbrev pub new_station : W → Station W
  new_station w = record { daemon = make_daemon; world = w; held = none }

  -- Behind ReadMasterFrame, if it returns; without a frame the loop goes on to its test.
  unfoldable pub after_read : Daemon → Outcome (Option MasterFrame × W) → Outcome (Station W)
  after_read d fatal = fatal
  after_read d (done (none, w)) =
      done (record { daemon = run_round d none; world = w; held = none })
  after_read d (done (some mf, w)) = done (record { daemon = d; world = w; held = some mf })

  -- Behind WriteControllerFrame, if it returns.
  unfoldable pub after_write : Daemon → Outcome W → Outcome (Station W)
  after_write d fatal = fatal
  after_write d (done w) = done (record { daemon = d; world = w; held = none })

  -- Behind Shutdown up to its join, if it does not end the process.
  unfoldable pub after_stop : Station W → Outcome Daemon → Outcome (Station W)
  after_stop s fatal = fatal
  after_stop s (done d) = done (record s { daemon = d })

  module _ (i : SerialInterface W) where
    -- WriteControllerFrame of the answer, if there is one.
    unfoldable pub write_answer : Daemon → W → Option ControllerFrame → Outcome (Station W)
    unfolding after_write
    write_answer d w none = done (record { daemon = d; world = w; held = none })
    write_answer d w (some cf) = after_write d (i.write_controller_frame cf w)

    -- In the body of the loop: ReadMasterFrame, or what is done under the lock for its frame.
    unfoldable pub body_step : Daemon → W → Option MasterFrame → Outcome (Station W)
    unfolding after_read write_answer
    body_step d w none = after_read d (i.read_master_frame w)
    body_step d w (some mf) =
        write_answer (run_round d (some mf)) w (do_loop_round d.controller (some mf)).1

    -- The next step of the loop thread.
    unfoldable pub loop_step : Loop → Daemon → W → Option MasterFrame → Outcome (Station W)
    unfolding body_step
    loop_step Loop.at_test d w held =
        done (record { daemon = test_shutdown d; world = w; held = held })
    loop_step Loop.in_round d w held = body_step d w held
    loop_step Loop.ended d w held = done (record { daemon = d; world = w; held = held })

    module _ (press_key : Press → W → W) where
      unfoldable pub act : Act → Station W → Outcome (Station W)
      unfolding loop_step after_stop
      act Act.loop s = loop_step s.daemon.loop s.daemon s.world s.held
      act Act.stop s = after_stop s (shut_down s.daemon)
      act Act.join s =
          done (record s { daemon = join_loop s.daemon.joining s.daemon.loop s.daemon })
      act (Act.key p) s = done (record s { world = press_key p s.world })
      act (Act.update u) s = done (record s { daemon = call_update s.daemon u })
      act Act.status s = done (record s { daemon = call_status s.daemon })
      act (Act.wake n) s = done (record s { daemon = wake_call n s.daemon })

      -- A list of acts, unless one of them ends the process.
      unfoldable pub acts : List Act → Station W → Outcome (Station W)
      unfolding act
      acts [] s = done s
      acts (a ∷ later) s = elim (act a s) [ fatal ↦ fatal | done s' ↦ acts later s' ]
