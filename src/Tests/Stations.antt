-- ===== src/Tests/Stations.antt =====
-- The theorems on the daemon at work over a serial interface, at concrete acts.
use fuji_iot.Base.{ℕ, zero, suc, some, List, [], ◌∷◌, ◌++◌, ◌≡◌, refl, arith, inr, inl, true, false}
use fuji_iot.Sim.{Sim, new_sim, get_next_master_frame}
use fuji_iot.Controller
use fuji_iot.Serial.{done, Outcome, fatal}
use fuji_iot.Server.Remote.{Press, press}
use fuji_iot.Server.Session.Append.{round_events}
use fuji_iot.Daemon
use fuji_iot.Daemon.{Run, make_daemon, Loop}
use fuji_iot.Station
use fuji_iot.Station.{Station, Act, new_station, acts, join_loop}
use fuji_iot.Station.Unit.{AllAllowedActs, heard}
use fuji_iot.Station.Session.{Held, acts-interleave}
use fuji_iot.Station.Served.{Serves, station-Serves}
use fuji_iot.Station.Simulated.{sim_interface, same_unit, AnyUnit, sim-IsUnit}
use fuji_iot.Station.Promises.{Delivers, sim-Delivers}
use fuji_iot.Tests.Golden.Replay
use fuji_iot.Station.Shutdown.{shutdown_returns}
use fuji_iot.Controller.{pos, ProtoMode, ProtoFan, read_status, AcUnitState}
use fuji_iot.Client.{Flags, run_client}
use fuji_iot.Client.Wanted.{Wants}
use fuji_iot.Client.Delivery.{client-Delivers}
use fuji_iot.Register.View.{view}
use fuji_iot.Sim
use fuji_iot.Server.Thermostat.{Command, Commands, commanded_all, perform, settings_of, told}
use fuji_iot.Server.Thermostat.Refinement.{started, first_settings, perform-commanded_all}
use fuji_iot.Station.Calm.{AllCalm}
use fuji_iot.Tests.Golden.ReplaySim
use fuji_iot.Tests.Sessions.{heat_request, heat-Asks}

-- A call before the registration, and a key between a frame and its answer.
abbrev pub early_acts : List Act
early_acts =
    Act.update heat_request ∷ Act.loop ∷ Act.loop ∷ Act.key (Press.temperature 25) ∷ Act.loop ∷ []

pub early_acts-AllAllowedActs : AllAllowedActs early_acts
early_acts-AllAllowedActs = (inr (omega arith), (tt, (tt, (omega arith, (tt, tt)))))

abbrev pub loops : ℕ → List Act
loops zero = []
loops (suc n) = Act.loop ∷ loops n

-- A call of GetStatus behind two steps of the loop thread, and then the loop alone.
abbrev late_acts : List Act
late_acts = Act.loop ∷ Act.loop ∷ Act.status ∷ Act.wake 0 ∷ loops 15

loops-AllCalm : (n : ℕ) → AllCalm (loops n)
loops-AllCalm zero = tt
loops-AllCalm (suc n) = (tt, loops-AllCalm n)

late_acts-AllCalm : AllCalm late_acts
late_acts-AllCalm = (tt, (tt, (tt, (tt, loops-AllCalm 15))))

sim-Delivers_example : Delivers heat_request same_unit (
    acts sim_interface press
      (early_acts ++ Act.update heat_request ∷ late_acts)
      (new_station new_sim))
sim-Delivers_example =
    sim-Delivers early_acts late_acts heat_request early_acts-AllAllowedActs (inr (omega arith))
      heat-Asks late_acts-AllCalm (omega arith)

acts-interleave_example : Held sim_interface press same_unit AnyUnit new_sim early_acts
acts-interleave_example =
    acts-interleave sim_interface press same_unit AnyUnit early_acts new_sim sim-IsUnit tt refl
      early_acts-AllAllowedActs

abbrev read_once : Station Sim
read_once =
    let polled = get_next_master_frame new_sim in
    record {
      daemon = Daemon.call_status (Daemon.test_shutdown make_daemon);
      world = polled.0;
      held = some polled.1;
    }

-- The loop alone, from the start on.
loops-heard : heard sim_interface press (loops 17) (new_station new_sim) ≡ round_events 11
unfolding make_daemon Controller.make_controller Daemon.test_shutdown Daemon.run_round heard
    Replay.replay_all ReplaySim.replay_all Controller.do_loop_round Controller.settle Station.act
    Station.loop_step Station.body_step Station.after_read Station.write_answer Station.after_write
loops-heard = refl

loops-AllAllowedActs : (n : ℕ) → AllAllowedActs (loops n)
loops-AllAllowedActs zero = tt
loops-AllAllowedActs (suc n) = (tt, loops-AllAllowedActs n)

station-Serves_example :
    (s : Station Sim) × (acts sim_interface press (loops 17) (new_station new_sim) ≡ done s)
    × Serves same_unit s
station-Serves_example =
    station-Serves sim_interface press same_unit AnyUnit (loops 17) [] 11 new_sim sim-IsUnit tt refl
      (loops-AllAllowedActs 17) loops-heard (omega arith)

-- The command line client in heating mode at 24 degrees.
abbrev heat_flags : Flags
heat_flags = record { mode = "heat"; fan = "low"; setpoint = pos 24 }

-- The request that they stand for.
abbrev heat_wanted : AcUnitState
heat_wanted = record {
  mode = ProtoMode.mode_heat;
  fan = ProtoFan.fan_low;
  setpoint_temperature = pos 24;
}

heat_flags-Wants : Wants heat_flags heat_wanted
heat_flags-Wants = record {
  mode_wanted = inr (inr (inr (inr (inr (refl, refl)))));
  fan_wanted = inr (inl (refl, refl));
  setpoint_wanted = inr (inr (omega arith, omega arith, refl));
}

client-Delivers_example : Delivers heat_wanted same_unit (
    acts sim_interface press
      (early_acts ++ Act.update (run_client heat_flags) ∷ late_acts)
      (new_station new_sim))
client-Delivers_example =
    client-Delivers early_acts late_acts heat_flags heat_wanted early_acts-AllAllowedActs
      heat_flags-Wants (inl (λ e. cc)) late_acts-AllCalm (omega arith)

-- A request, two keys, and another fan speed.
abbrev commands : Commands
commands =
    (Command.update heat_request, 0)
    ∷ (Command.keys (Press.temperature 25 ∷ Press.economy true ∷ []), 2)
    ∷ (
      Command.update (record {
        mode = ProtoMode.mode_unknown;
        fan = ProtoFan.fan_low;
        setpoint_temperature = pos 0;
      }),
      0,
    )
    ∷ []

perform-commanded_all_example :
    let s = perform commands started in
    let settings = commanded_all commands first_settings in
    (settings_of (view (Sim.status s.sim)) ≡ settings) × (read_status s.controller ≡ told settings)
perform-commanded_all_example = perform-commanded_all commands (
  (heat-Asks, inr (omega arith)),
  ((omega arith, (tt, tt)), ((inr (inl (λ e. cc)), inl refl), tt)),
)

-- A shutdown while the loop has a frame in hand, and three steps of the loop thread.
abbrev got : Outcome (Station Sim) → Station Sim
got (done s) = s
got fatal = read_once

abbrev stopped : Station Sim
stopped = got (acts sim_interface press (Act.stop ∷ loops 3) read_once)

shutdown_returns_example :
    (stopped.daemon.loop ≡ Loop.ended)
    × ((join_loop stopped.daemon.joining stopped.daemon.loop stopped.daemon).joining ≡ false)
unfolding make_daemon Controller.make_controller Daemon.test_shutdown Daemon.run_round
    Daemon.shut_down Replay.replay_all ReplaySim.replay_all Controller.do_loop_round
    Controller.settle Station.act acts Station.loop_step Station.body_step Station.after_read
    Station.write_answer Station.after_write Station.after_stop Daemon.call_status
shutdown_returns_example =
    shutdown_returns sim_interface press (loops 3) read_once stopped refl (omega arith)
