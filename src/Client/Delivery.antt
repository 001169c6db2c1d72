-- ===== src/Client/Delivery.antt =====
-- From the command line to the unit.
use fuji_iot.Base.{◌<◌, ◌≤◌, ◌≡◌, ap, true, false, arith, List, ◌∷◌, ◌++◌, inl, inr}
use fuji_iot.Register.View.{Status, view}
use fuji_iot.State.{AcState}
use fuji_iot.Sim
use fuji_iot.Controller.{read_status, AcUnitState}
use fuji_iot.Controller.Update.{Asks}
use fuji_iot.Client.{Flags, run_client}
use mathlib.Core.Path.{subst}
use fuji_iot.Client.Wanted.{Wants, run_client-Wants}
use fuji_iot.Client.Requests.{run_client_temperature, setpoint_cases}
use fuji_iot.Sim.{new_sim}
use fuji_iot.Server.Remote.{press}
use fuji_iot.Server.Session.{IsLow}
use fuji_iot.Station.{Act, acts, new_station}
use fuji_iot.Station.Unit.{AllAllowedActs}
use fuji_iot.Station.Calm.{AllCalm, loop_counts}
use fuji_iot.Station.Simulated.{sim_interface, same_unit}
use fuji_iot.Station.Promises.{Delivers, sim-Delivers}
use fuji_iot.Server.{SimService, cycle}
use fuji_iot.Server.Convergence.{At}
use fuji_iot.Server.Update.{UnitGrants, report, request, update_reaches_unit}

-- A request of the command line client reaches the simulated unit. Let the unit poll its status
-- register and have registered the controller, let the controller have no query pending, no swing
-- step to ask for, a local temperature below 128 and the unit's error bit as its error flag, and
-- let the flags make a request that sets at least one field. Then three rounds of DoLoop after that
-- request the controller is ready, the unit has the requested mode and fan, and the requested
-- temperature if one is set (18 in fan mode), and GetStatus reports what the unit's register says.
pub client_reaches_unit :
    (s : SimService) (flags : Flags) (a : AcState) (v : Status)
    → At s a v
    → Asks (run_client flags)
    → a.swing_step ≡ false
    → a.temperature < 128
    → v.controller_present ≡ true
    → v.error ≡ a.error_flag
    → let s' = cycle (cycle (cycle (request s (run_client flags)))) in
      let v' = view (Sim.status s'.sim) in
      (s'.controller.ready ≡ true)
      × UnitGrants (run_client flags) v'
      × (read_status s'.controller ≡ report v')
client_reaches_unit s flags a v h asks w t p e =
    update_reaches_unit s (run_client flags) a v h asks w
      (ground (
        arith,
        run_client_temperature s.controller flags,
        ap (λ (x : AcState). x.temperature) h.state,
      ))
      p e

-- A request of the command line client is low, whatever the flags.
run_client-IsLow : (flags : Flags) → IsLow (run_client flags)
unfolding run_client
run_client-IsLow flags = elim (setpoint_cases flags.setpoint) [
  | inl zero ↦ inl zero
  | inr (_, _, h) ↦ inr (omega (arith, h))
]

-- A request of the command line client is served, whatever came before it. Let the flags stand for
-- a request that sets at least one field: --mode is off, cool, dry, fan or heat, --fan is low,
-- medium, high or max, and either may be empty, for none; a --setpoint from 18 to 28 stands for
-- itself, and any other for none. Start the daemon over the simulated unit, and let any acts but
-- calls of Shutdown happen, in any order and number, with temperatures below 128. Then let the
-- request of RunClient for these flags come, and behind it any acts but keys and calls of Update
-- and Shutdown, with at least seventeen steps of the loop thread among them. Then the process has
-- not ended, the controller is ready and has nothing to write, GetStatus reports what the unit's
-- register says, all waiting calls can end, and in whatever order they go on, one for one, every
-- response of theirs is that report; and the unit has the mode and the fan that the flags stand
-- for, and their temperature if there is one (18 in fan mode).
pub client-Delivers :
    (before after : List Act) (flags : Flags) (u : AcUnitState)
    → AllAllowedActs before
    → Wants flags u
    → Asks u
    → AllCalm after
    → 17 ≤ loop_counts after
    → let later = Act.update (run_client flags) ∷ after in
      Delivers u same_unit (acts sim_interface press (before ++ later) (new_station new_sim))
client-Delivers before after flags u ok wants asks calm enough =
    let made = run_client-Wants flags u wants in
    rw made
      (sim-Delivers before after u ok (subst IsLow made (run_client-IsLow flags)) asks calm enough)
