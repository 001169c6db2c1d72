-- ===== src/Server/Thermostat/Refinement.antt =====
-- Commands to the service, and what they do to the settings.
use fuji_iot.Base.{◌≡◌, refl, ap, ◌∙◌, [], ◌∷◌, arith}
use fuji_iot.Register.View.{Status, view}
use fuji_iot.Sim
use fuji_iot.Sim.{new_sim}
use fuji_iot.Sim.Laws.{new_sim-IsValid}
use fuji_iot.Register.Layout.{extract_bits}
use fuji_iot.State.{initial_state}
use fuji_iot.State.Laws.{with_status}
use fuji_iot.Controller.{make_controller, read_status}
use fuji_iot.Server.{SimService, new_sim_service, cycle, cycles}
use fuji_iot.Server.Login.{AtLogin}
use fuji_iot.Server.Registration.{with_controller, registers}
use fuji_iot.Server.Rounds.{polled_view}
use fuji_iot.Server.Convergence.{two_reads}
use fuji_iot.Server.Remote.{pressed}
use fuji_iot.Server.Thermostat.{
  Settings, settings_of, Command, Commands, commanded, commanded_all, told, IsPossible, AllPossible,
  give, perform,
}
use fuji_iot.Server.Thermostat.Steady.{
  Steady, Steady-told, cycles-Steady, keys-Steady, pressed-keyed, update-Steady,
}

-- A command, and three rounds.
give-Steady :
    (c : Command) (s : SimService) (v : Status)
    → IsPossible c
    → Steady s v
    → (w : Status) × Steady (cycles 3 (give c s)) w × (settings_of w ≡ commanded c (settings_of v))
unfolding give
give-Steady (Command.update u) s v (asks, low) h = update-Steady u s v asks low h
give-Steady (Command.keys ps) s v g h =
    (polled_view (pressed ps v), keys-Steady ps s v g h, pressed-keyed ps v)

perform-Steady :
    (cs : Commands) (s : SimService) (v : Status)
    → AllPossible cs
    → Steady s v
    → (w : Status) × Steady (perform cs s) w × (settings_of w ≡ commanded_all cs (settings_of v))
unfolding perform
perform-Steady [] s v ok h = (v, h, refl)
perform-Steady ((c, n) ∷ cs) s v (ok, oks) h =
    let (v₁, h₁, e₁) = give-Steady c s v ok h in
    let (v₂, h₂, e₂) = cycles-Steady n (cycles 3 (give c s)) v₁ h₁ in
    let (w, g, e) = perform-Steady cs (cycles n (cycles 3 (give c s))) v₂ oks h₂ in
    (w, g, e ∙ ap (commanded_all cs) (e₂ ∙ e₁))

-- The service when its controller has been registered.
abbrev pub started : SimService
started = cycles 4 new_sim_service

abbrev first_status : Status
first_status = view (Sim.status new_sim)

-- The settings of the simulated unit at its start.
abbrev pub first_settings : Settings
first_settings = settings_of first_status

first-AtLogin : AtLogin new_sim_service initial_state first_status
unfolding make_controller
first-AtLogin = record {
  sim_valid = new_sim-IsValid;
  sim_status = refl;
  login_due = refl;
  no_error = refl;
  state = refl;
  seen = refl;
}

started-Steady : Steady started (polled_view (with_controller first_status))
unfolding cycles view extract_bits
started-Steady =
    let h = registers new_sim_service initial_state first_status first-AtLogin refl refl in
    let (two, ready) =
      two_reads (cycle (cycle new_sim_service)) (with_status first_status initial_state)
        (with_controller first_status) h refl refl refl in
    record {
      base = initial_state;
      at = two;
      no_step = refl;
      low = omega arith;
      present = refl;
      ready = ready;
    }

-- To its users the service is a record of settings. Start the service over the simulated unit, and
-- let it have four rounds of DoLoop. Take any list of commands, each a call of Update that sets at
-- least one field, or some keys of the unit, with temperatures below 128, and each with three
-- rounds or more behind it. Then the unit's settings (switch, mode, fan, temperature, economy and
-- swing) are what the commands make of the ones at the start, one after the other, where a request
-- sets the fields that it names and leaves the others, but in fan mode the temperature is 18 and
-- the economy off, and a key sets its field; and GetStatus reports these settings.
pub perform-commanded_all :
    (cs : Commands)
    → AllPossible cs
    → let s = perform cs started in
      let settings = commanded_all cs first_settings in
      (settings_of (view (Sim.status s.sim)) ≡ settings)
      × (read_status s.controller ≡ told settings)
perform-commanded_all cs ok =
    let (w, h, e) = perform-Steady cs started _ ok started-Steady in
    (ap settings_of h.at.seen ∙ e, Steady-told _ w h ∙ ap told e)
