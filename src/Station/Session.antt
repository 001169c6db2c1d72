-- ===== src/Station/Session.antt =====
-- Whole sessions at a station with a unit behind its interface.
use fuji_iot.Base.{◌≡◌, refl, sym, ap, ◌∙◌, none, List, [], ◌∷◌, ◌++◌}
use mathlib.Core.Path.{subst}
use fuji_iot.Sim.{Sim, new_sim}
use fuji_iot.Serial.{Outcome, done, fatal}
use fuji_iot.Controller.{make_controller}
use fuji_iot.Server.Remote.{Press}
use fuji_iot.Server.Session.{Event, AllAllowed}
use fuji_iot.Server.Session.Append.{append-AllAllowed}
use fuji_iot.Server.Interleaved.{Exchange, new_exchange, occur, interleave}
use fuji_iot.Server.Interleaved.Going.{Going, new_exchange-Going}
use fuji_iot.Daemon.{make_daemon}
use fuji_iot.Station.{SerialInterface, Station, Act, new_station, act, acts}
use fuji_iot.Station.Unit.{AllAllowedActs, heard_act, heard, IsUnit, exchange_of}
use fuji_iot.Station.Sound.{Sound, Led, act-Led}

pub interleave-append :
    (es fs : List Event) (x : Exchange) → interleave (es ++ fs) x ≡ interleave fs (interleave es x)
unfolding interleave
interleave-append [] fs x = refl
interleave-append (e ∷ es) fs x = interleave-append es fs (occur e x)

-- An outcome is of one station.
pub done-inj : {W : Type 0} → {s t : Station W} → done s ≡ done t → s ≡ t
done-inj e = cc e

append_assoc : (xs ys zs : List Event) → (xs ++ ys) ++ zs ≡ xs ++ (ys ++ zs)
append_assoc [] ys zs = refl
append_assoc (x ∷ xs) ys zs = ap (λ (l : List Event). x ∷ l) (append_assoc xs ys zs)

module _ {W : Type 0} (i : SerialInterface W) (press_key : Press → W → W) where
  -- What is heard of acts behind others, if the first ones return.
  heard_behind :
      (es : List Event) (xs ys : List Act) (o : Outcome (Station W)) (t : Station W)
      → ((s : Station W)
          → acts i press_key xs s ≡ done t
          → heard i press_key (xs ++ ys) s ≡ heard i press_key xs s ++ heard i press_key ys t)
      → (elim o [ fatal ↦ fatal | done s ↦ acts i press_key xs s ]) ≡ done t
      → (elim o [ fatal ↦ [] | done s ↦ es ++ heard i press_key (xs ++ ys) s ])
        ≡ (elim o [ fatal ↦ [] | done s ↦ es ++ heard i press_key xs s ]) ++ heard i press_key ys t
  heard_behind es xs ys fatal t rest e = absurd (cc e)
  heard_behind es xs ys (done s) t rest e = ap (λ l. es ++ l) (rest s e) ∙ sym (append_assoc es _ _)

  pub heard-append :
      (xs ys : List Act) (s t : Station W)
      → acts i press_key xs s ≡ done t
      → heard i press_key (xs ++ ys) s ≡ heard i press_key xs s ++ heard i press_key ys t
  unfolding acts heard
  heard-append [] ys s t e = ap (heard i press_key ys) (done-inj e)
  heard-append (x ∷ xs) ys s t e =
      heard_behind (heard_act i x s) xs ys (act i press_key x s) t (λ s'. heard-append xs ys s' t) e

module _ {W : Type 0} (i : SerialInterface W) (press_key : Press → W → W) (unit : W → Sim)
    (good : W → Type 0) where
  pub acts-Led :
      (list : List Act) (s : Station W)
      → IsUnit i press_key unit good
      → AllAllowedActs list
      → Sound i press_key unit good s
      → Led i press_key unit good (heard i press_key list s) s (acts i press_key list s)
  unfolding acts heard interleave
  acts-Led [] s u ok h = record {
    station = s;
    allowed = tt;
    returned = refl;
    sound = h;
    same = refl;
  }
  acts-Led (a ∷ later) s u (ok, oks) h =
      let one = act-Led i press_key unit good a s u ok h in
      let rest = acts-Led later one.station u oks one.sound in
      rw (acts, heard, one.returned)
        (record {
          station = rest.station;
          allowed = append-AllAllowed (heard_act i a s) _ one.allowed rest.allowed;
          returned = rest.returned;
          sound = rest.sound;
          same =
              rest.same
              ∙ ap (interleave (heard i press_key later one.station)) one.same
              ∙ sym (
                  interleave-append (heard_act i a s) (heard i press_key later one.station)
                    (exchange_of unit s));
        })

  start_exchange : (w : W) → unit w ≡ new_sim → exchange_of unit (new_station w) ≡ new_exchange
  unfolding make_daemon make_controller
  start_exchange w e =
      ap
        (λ (m : Sim).
          let x : Exchange = record {
            service = record { controller = make_controller; sim = m };
            held = none;
          } in
          x)
        e

  pub new_station-Sound :
      (w : W) → good w → unit w ≡ new_sim → Sound i press_key unit good (new_station w)
  unfolding make_daemon make_controller
  new_station-Sound w g e = record {
    going = subst Going (sym (start_exchange w e)) new_exchange-Going;
    fit = g;
    running = refl;
    place = refl;
  }

  -- What a session at a station comes to.
  pub record Held (w : W) (list : List Act) : Type 0 where
    pub station : Station W
    pub returned : acts i press_key list (new_station w) ≡ done station
    pub same :
        exchange_of unit station ≡ interleave (heard i press_key list (new_station w)) new_exchange
    pub allowed : AllAllowed (heard i press_key list (new_station w))
    pub sound : Sound i press_key unit good station

  -- The daemon's threads over a serial interface do what the interleaved session of the simulated
  -- service does. Let a unit that behaves like the simulated one be behind the serial interface:
  -- as long as what is there is good, a predicate that is given, and the unit's registers hold
  -- bytes, a read returns with the unit's next frame, or with none while the unit stays as it is;
  -- a write of a frame of eight bytes returns and reaches the unit; a key of the remote control
  -- changes it as the simulated one; and all of them leave it good. Let the unit be as the
  -- simulated one is at its start. Then any list of acts from the start of the daemon, without a
  -- call of Shutdown and with temperatures below 128, does not end the process, and leads to the
  -- controller, the unit and the frame in hand of the interleaved session of the frames read, the
  -- frames answered, the keys and the calls of Update among them; these events have temperatures
  -- below 128; and the loop thread still runs and holds a frame only in its body, what is behind
  -- the interface is good, and the session is between two rounds, or in one with the keys pressed
  -- since its read.
  pub acts-interleave :
      (list : List Act) (w : W)
      → IsUnit i press_key unit good
      → good w
      → unit w ≡ new_sim
      → AllAllowedActs list
      → Held w list
  acts-interleave list w u g e ok =
      let l = acts-Led list (new_station w) u ok (new_station-Sound w g e) in
      record {
        station = l.station;
        returned = l.returned;
        same =
            l.same ∙ ap (interleave (heard i press_key list (new_station w))) (start_exchange w e);
        allowed = l.allowed;
        sound = l.sound;
      }
