-- ===== src/Station/Served.antt =====
-- What sessions at a station with a unit behind its interface lead to.
use fuji_iot.Base.{ℕ, ◌≤◌, ◌≡◌, sym, ap, ◌∙◌, List, ◌∷◌, ◌++◌}
use mathlib.Core.Path.{subst}
use fuji_iot.Register.View.{view}
use fuji_iot.Sim
use fuji_iot.Sim.{Sim, new_sim}
use fuji_iot.Serial.{done}
use fuji_iot.Controller.{AcUnitState}
use fuji_iot.Controller.Update.{Asks}
use fuji_iot.Server.Update.{UnitGrants, report}
use fuji_iot.Server.Remote.{Press}
use fuji_iot.Server.Session.{Event, AllAllowed}
use fuji_iot.Server.Session.Append.{round_events, prefix-AllAllowed, suffix-AllAllowed}
use fuji_iot.Server.Session.Agreement.{Agrees}
use fuji_iot.Server.Interleaved.{Exchange, new_exchange, interleave}
use fuji_iot.Server.Interleaved.Settled.{Grants}
use fuji_iot.Server.Interleaved.Agreement.{interleave-Agrees, interleave-Grants}
use fuji_iot.Station.{SerialInterface, Station, Act, new_station, acts}
use fuji_iot.Station.Unit.{AllAllowedActs, heard, IsUnit, exchange_of}
use fuji_iot.Station.Session.{acts-interleave, interleave-append}
use fuji_iot.Station.Answers.{Answered, ready-Answered}

module _ {W : Type 0} (unit : W → Sim) where
  -- What the unit's register says, as GetStatus reports it.
  abbrev pub unit_report : W → AcUnitState
  unit_report w = report (view (Sim.status (unit w)))

  -- Controller and unit agree, and every call that waits is answered with what the unit says.
  pub record Serves (s : Station W) : Type 0 where
    pub agrees : Agrees (exchange_of unit s).service
    pub answered : Answered (unit_report s.world) s.daemon

  serves : (s : Station W) → Agrees (exchange_of unit s).service → Serves s
  serves s a = record { agrees = a; answered = ready-Answered s.daemon _ a.ready a.reported }

module _ {W : Type 0} (i : SerialInterface W) (press_key : Press → W → W) (unit : W → Sim)
    (good : W → Type 0) where
  -- Clients are answered from every point of a session. Let a unit that behaves like the
  -- simulated one be behind the serial interface: as long as what is there is good, a predicate
  -- that is given, and the unit's registers hold bytes, a read returns with the unit's next
  -- frame, or with none while the unit stays as it is; a write of a frame of eight bytes returns
  -- and reaches the unit; a key of the remote control changes it as the simulated one; and all of
  -- them leave it good. Let the unit be as the simulated one is at its start. Take any list of
  -- acts from the start of the daemon, without a call of Shutdown and with temperatures below
  -- 128, of which the last events but eleven or more steps of DoLoop, each of which reads a frame
  -- or answers one, are arbitrary. Then the acts do not end the process; behind them the
  -- controller is ready and has nothing to write, GetStatus reports what the unit's register
  -- says, all waiting calls can end, and in whatever order they go on, one for one, every
  -- response of theirs is that report.
  pub station-Serves :
      (list : List Act) (hs : List Event) (n : ℕ) (w : W)
      → IsUnit i press_key unit good
      → good w
      → unit w ≡ new_sim
      → AllAllowedActs list
      → heard i press_key list (new_station w) ≡ hs ++ round_events n
      → 11 ≤ n
      → (s : Station W) × (acts i press_key list (new_station w) ≡ done s) × Serves unit s
  station-Serves list hs n w u g e ok split few =
      let h = acts-interleave i press_key unit good list w u g e ok in
      let allowed = prefix-AllAllowed hs (round_events n) (subst AllAllowed split h.allowed) in
      let same =
        h.same
        ∙ ap (λ es. interleave es new_exchange) split
        ∙ interleave-append hs (round_events n) new_exchange in
      let agrees =
        subst (λ (x : Exchange). Agrees x.service) (sym same)
          (interleave-Agrees hs n allowed few) in
      (h.station, h.returned, serves unit h.station agrees)

  -- If the last event but steps of DoLoop is a call of Update that sets at least one field, then the
  -- unit does what it asks.
  pub station_grants :
      (list : List Act) (hs : List Event) (u : AcUnitState) (n : ℕ) (w : W)
      → IsUnit i press_key unit good
      → good w
      → unit w ≡ new_sim
      → AllAllowedActs list
      → heard i press_key list (new_station w) ≡ hs ++ Event.call u ∷ round_events n
      → Asks u
      → 11 ≤ n
      → (s : Station W) × (acts i press_key list (new_station w) ≡ done s)
        × Serves unit s
        × UnitGrants u (view (Sim.status (unit s.world)))
  unfolding interleave
  station_grants list hs u n w l g e ok split asks few =
      let h = acts-interleave i press_key unit good list w l g e ok in
      let last = Event.call u ∷ round_events n in
      let allowed = subst AllAllowed split h.allowed in
      let same =
        h.same
        ∙ ap (λ es. interleave es new_exchange) split
        ∙ interleave-append hs last new_exchange in
      let (agrees, granted) =
        subst (λ (x : Exchange). Grants u x.service) (sym same)
          (interleave-Grants hs u n (prefix-AllAllowed hs last allowed)
            (suffix-AllAllowed hs last allowed).0 asks few) in
      (h.station, h.returned, serves unit h.station agrees, granted)
