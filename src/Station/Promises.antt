-- ===== src/Station/Promises.antt =====
-- What clients of the simulated service of controller/fuji_ac_server.cc can rely on.
use fuji_iot.Base.{ℕ, ◌≤◌, ◌≡◌, refl, sym, ◌∙◌, ap, List, [], ◌∷◌, ◌++◌, arith}
use mathlib.Core.Path.{subst}
use fuji_iot.Register.View.{view}
use fuji_iot.Sim
use fuji_iot.Sim.{Sim, new_sim}
use fuji_iot.Controller.{AcUnitState}
use fuji_iot.Controller.Update.{Asks}
use fuji_iot.Serial.{Outcome, done}
use fuji_iot.Server.Update.{UnitGrants}
use fuji_iot.Server.Remote.{press}
use fuji_iot.Server.Session.{Event, IsLow}
use fuji_iot.Server.Session.Append.{round_events}
use fuji_iot.Daemon.{call_update}
use fuji_iot.Station.{Station, Act, new_station, act, acts}
use fuji_iot.Station.Unit.{AllAllowedActs, heard}
use fuji_iot.Station.Sound.{Sound, act-Led}
use fuji_iot.Station.Session.{acts-Led, new_station-Sound, heard-append, done-inj}
use fuji_iot.Station.Served.{Serves, station_grants}
use fuji_iot.Station.Simulated.{sim_interface, same_unit, AnyUnit, sim-IsUnit}
use fuji_iot.Station.Calm.{AllCalm, loop_counts, IsCalm-AllowedAct, calm-heard}

pub append-AllAllowedActs :
    (xs ys : List Act) → AllAllowedActs xs → AllAllowedActs ys → AllAllowedActs (xs ++ ys)
append-AllAllowedActs [] ys a b = b
append-AllAllowedActs (x ∷ xs) ys (a, rest) b = (a, append-AllAllowedActs xs ys rest b)

calm-AllAllowedActs : (xs : List Act) → AllCalm xs → AllAllowedActs xs
calm-AllAllowedActs [] c = tt
calm-AllAllowedActs (x ∷ xs) (c, cs) = (IsCalm-AllowedAct x c, calm-AllAllowedActs xs cs)

-- The station is ready for its clients, and the unit does what a request asks.
abbrev pub Delivers : {W : Type 0} → AcUnitState → (W → Sim) → Outcome (Station W) → Type 0
Delivers {W} u unit o =
    (s : Station W) × (o ≡ done s) × Serves unit s × UnitGrants u (view (Sim.status (unit s.world)))

-- A request in a session of the simulated service, and calm acts behind it.
request_heard :
    (before after : List Act) (u : AcUnitState)
    → AllAllowedActs before
    → IsLow u
    → AllCalm after
    → 17 ≤ loop_counts after
    → (n : ℕ) × (hs : List Event) × (heard sim_interface press
          (before ++ Act.update u ∷ after)
          (new_station new_sim)
        ≡ hs ++ Event.call u ∷ round_events n)
      × (11 ≤ n)
unfolding heard act
request_heard before after u ok low calm enough =
    let start = new_station new_sim in
    let b =
      acts-Led sim_interface press same_unit AnyUnit before start sim-IsUnit ok
        (new_station-Sound sim_interface press same_unit AnyUnit new_sim tt refl) in
    let t = b.station in
    let called : Station Sim = record t { daemon = call_update t.daemon u } in
    let r = act-Led sim_interface press same_unit AnyUnit (Act.update u) t sim-IsUnit low b.sound in
    let sound =
      subst (Sound sim_interface press same_unit AnyUnit) (sym (done-inj r.returned)) r.sound in
    let (n, events, few) = calm-heard after called calm sound in
    (
      n,
      heard sim_interface press before start,
      heard-append sim_interface press before (Act.update u ∷ after) start t b.returned
          ∙ ap (λ (l : List Event). heard sim_interface press before start ++ Event.call u ∷ l)
              events,
      omega (arith, few, enough),
    )

-- The daemon over the simulated unit serves its clients. Start it, and let any acts happen, in any
-- order and number: steps of the loop thread (its test, a read, or what it does under the lock),
-- keys of the unit, calls of Update and GetStatus, and waiting calls that go on, with temperatures
-- below 128. Then let a call of Update come that sets at least one field, with a temperature below
-- 128 if it sets one, and behind it any acts but keys and calls of Update and Shutdown, with at
-- least seventeen steps of the loop thread among them. Then the process has not ended, the
-- controller is ready and has nothing to write, GetStatus reports what the unit's register says,
-- all waiting calls can end, and in whatever order they go on, one for one, every response of
-- theirs is that report; and the unit has the requested mode and fan, and the requested temperature
-- if one is set (18 in fan mode).
pub sim-Delivers :
    (before after : List Act) (u : AcUnitState)
    → AllAllowedActs before
    → IsLow u
    → Asks u
    → AllCalm after
    → 17 ≤ loop_counts after
    → Delivers u same_unit
        (acts sim_interface press (before ++ Act.update u ∷ after) (new_station new_sim))
sim-Delivers before after u ok low asks calm enough =
    let (n, hs, split, few) = request_heard before after u ok low calm enough in
    station_grants sim_interface press same_unit AnyUnit (before ++ Act.update u ∷ after) hs u n
      new_sim sim-IsUnit tt refl
      (append-AllAllowedActs before (Act.update u ∷ after) ok (low, calm-AllAllowedActs after calm))
      split asks few
