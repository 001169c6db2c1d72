-- ===== src/Station/Sound.antt =====
-- A station with a unit behind its interface does what the interleaved session of the simulated unit
-- does, act by act.
use fuji_iot.Base.{
  ◌≡◌, refl, sym, ap, ◌∙◌, Bool, true, false, not, Option, none, some, List, [], ◌∷◌, if◌then◌else◌,
}
use mathlib.Core.Path.{subst}
use fuji_iot.Base.Bytes.{IsBytes8}
use fuji_iot.Frame.{MasterFrame, ControllerFrame}
use fuji_iot.Sim.{Sim, get_next_master_frame}
use fuji_iot.Sim.Laws.{IsValid}
use fuji_iot.Serial.{Outcome, done, fatal}
use fuji_iot.Controller.{Controller, do_loop_round, begin_update, process_frame}
use fuji_iot.Server
use fuji_iot.Server.{SimService}
use fuji_iot.Server.Remote.{Press}
use fuji_iot.Server.Session.{Event, AllAllowed}
use fuji_iot.Server.Session.Live.{Live-IsValid}
use fuji_iot.Server.Interleaved.{Exchange, read_frame, answer_frame, advance, occur, interleave}
use fuji_iot.Server.Interleaved.Going.{Going, interleave-Going}
use fuji_iot.Station.Unit.{
  answer-IsBytes8, AllowedAct, heard_read, heard_body, heard_loop, heard_act, UnitRead, IsUnit,
  exchange_of, wake_call-controller, join_loop-controller,
}
use fuji_iot.Daemon.{Daemon, Loop, call_update, call_status, test_shutdown, run_round}
use fuji_iot.Daemon.Shutdown.{do_loop_round-shutdown}
use fuji_iot.Station.{
  SerialInterface, Station, Act, wake_call, join_loop, after_read, after_write, write_answer,
  body_step, loop_step, act,
}

-- The loop thread goes on, and holds a frame only in its body.
abbrev pub Place : Loop → Option MasterFrame → Type 0
Place Loop.at_test held = held ≡ none
Place Loop.in_round held = Unit
Place Loop.ended held = ⊥

test-Place :
    (b : Bool) (held : Option MasterFrame)
    → b ≡ false
    → Place (if not b then Loop.in_round else Loop.ended) held
test-Place false held e = tt
test-Place true held e = absurd (cc e)

idle-IsValid : (x : Exchange) → x.held ≡ none → Going x → IsValid x.service.sim
idle-IsValid x e (Going.between _ h) = Live-IsValid x.service h
idle-IsValid x e (Going.within sim ps g k _ h) = absurd (cc (e, k))

heard_read-AllAllowed :
    {W : Type 0} → (o : Outcome (Option MasterFrame × W)) → AllAllowed (heard_read o)
heard_read-AllAllowed fatal = tt
heard_read-AllAllowed (done (none, w)) = tt
heard_read-AllAllowed (done (some mf, w)) = (tt, tt)

module _ {W : Type 0} (i : SerialInterface W) (press_key : Press → W → W) (unit : W → Sim)
    (good : W → Type 0) where
  pub record Sound (s : Station W) : Type 0 where
    pub going : Going (exchange_of unit s)
    pub fit : good s.world
    pub running : s.daemon.controller.shutdown ≡ false
    pub place : Place s.daemon.loop s.held

  -- An outcome is a sound station, to which the given events, which are allowed, lead.
  pub record Led (es : List Event) (s : Station W) (o : Outcome (Station W)) : Type 0 where
    pub station : Station W
    pub allowed : AllAllowed es
    pub returned : o ≡ done station
    pub sound : Sound station
    pub same : exchange_of unit station ≡ interleave es (exchange_of unit s)

  pub led :
      (es : List Event) (s t : Station W) (o : Outcome (Station W))
      → Sound s
      → AllAllowed es
      → o ≡ done t
      → good t.world
      → t.daemon.controller.shutdown ≡ false
      → Place t.daemon.loop t.held
      → exchange_of unit t ≡ interleave es (exchange_of unit s)
      → Led es s o
  led es s t o h ok e fit running place same = record {
    station = t;
    allowed = ok;
    returned = e;
    sound = record {
      going = subst Going (sym same) (interleave-Going es (exchange_of unit s) ok h.going);
      fit = fit;
      running = running;
      place = place;
    };
    same = same;
  }

  -- The exchange with another unit in it.
  abbrev exchange_with : Controller → Option MasterFrame → Sim → Exchange
  exchange_with c held sim = record { service = record { controller = c; sim = sim }; held = held }

  read-Led :
      (d : Daemon) (w : W)
      → IsUnit i press_key unit good
      → d.loop ≡ Loop.in_round
      → Sound (record { daemon = d; world = w; held = none })
      → Led
          (heard_read (i.read_master_frame w))
          (record { daemon = d; world = w; held = none })
          (after_read d (i.read_master_frame w))
  unfolding after_read run_round do_loop_round interleave occur advance read_frame
  read-Led d w u l h =
      let s : Station W = record { daemon = d; world = w; held = none } in
      elim (u.reads w h.fit (idle-IsValid (exchange_of unit s) refl h.going)) [
        | UnitRead.full w' e at k ↦
            let f = (get_next_master_frame (unit w)).1 in
            rw e (
              led (Event.round ∷ []) s (record { daemon = d; world = w'; held = some f }) _ h
                (tt, tt) refl k h.running (subst (λ x. Place x (some f)) (sym l) tt)
                (ap (exchange_with d.controller (some f)) at))
        | UnitRead.quiet w' e at k ↦ rw e (
            led [] s (record { daemon = run_round d none; world = w'; held = none }) _ h tt refl k
              h.running refl (ap (exchange_with d.controller none) at))
      ]

  answer_written :
      (d : Daemon) (w : W) (cf : Option ControllerFrame)
      → IsUnit i press_key unit good
      → good w
      → ((c : ControllerFrame) → cf ≡ some c → IsBytes8 c.bytes)
      → (w' : W) × (write_answer i d w cf ≡ done (record { daemon = d; world = w'; held = none }))
        × (unit w' ≡ Server.write_controller_frame (unit w) cf)
        × good w'
  unfolding write_answer after_write Server.write_controller_frame
  answer_written d w none u g bytes = (w, refl, refl, g)
  answer_written d w (some cf) u g bytes =
      let (w', e, at, k) = u.writes cf w g (bytes cf refl) in (w', rw e refl, at, k)

  answer-Led :
      (d : Daemon) (w : W) (mf : MasterFrame)
      → IsUnit i press_key unit good
      → Sound (record { daemon = d; world = w; held = some mf })
      → Led
          (Event.round ∷ [])
          (record { daemon = d; world = w; held = some mf })
          (body_step i d w (some mf))
  unfolding body_step run_round do_loop_round interleave occur advance answer_frame
  answer-Led d w mf u h =
      let s : Station W = record { daemon = d; world = w; held = some mf } in
      let d' = run_round d (some mf) in
      let (w', e, at, k) =
        answer_written d' w (process_frame d.controller mf).1 u h.fit
          (answer-IsBytes8 d.controller mf) in
      led (Event.round ∷ []) s (record { daemon = d'; world = w'; held = none }) _ h (tt, tt) e k
        (do_loop_round-shutdown d.controller (some mf) ∙ h.running) refl
        (ap (exchange_with d'.controller none) at)

  body-Led :
      (d : Daemon) (w : W) (held : Option MasterFrame)
      → IsUnit i press_key unit good
      → d.loop ≡ Loop.in_round
      → Sound (record { daemon = d; world = w; held = held })
      → Led
          (heard_body i w held)
          (record { daemon = d; world = w; held = held })
          (body_step i d w held)
  unfolding body_step
  body-Led d w none u l h = read-Led d w u l h
  body-Led d w (some mf) u l h = answer-Led d w mf u h

  loop-Led :
      (l : Loop) (d : Daemon) (w : W) (held : Option MasterFrame)
      → IsUnit i press_key unit good
      → d.loop ≡ l
      → Sound (record { daemon = d; world = w; held = held })
      → Led
          (heard_loop i l w held)
          (record { daemon = d; world = w; held = held })
          (loop_step i l d w held)
  unfolding loop_step test_shutdown interleave
  loop-Led Loop.at_test d w held u l h =
      led [] (record { daemon = d; world = w; held = held })
        (record { daemon = test_shutdown d; world = w; held = held }) _ h tt refl h.fit h.running
        (test-Place d.controller.shutdown held h.running) refl
  loop-Led Loop.in_round d w held u l h = body-Led d w held u l h
  loop-Led Loop.ended d w held u l h = absurd (subst (λ x. Place x held) l h.place)

  -- A daemon that differs in its calls and its join only.
  daemon-Led :
      (s : Station W) (d : Daemon)
      → Sound s
      → (d.controller ≡ s.daemon.controller) × (d.loop ≡ s.daemon.loop)
      → Led [] s (done (record s { daemon = d }))
  unfolding interleave
  daemon-Led s d h (same, still) =
      led [] s (record s { daemon = d }) _ h tt refl h.fit
        (ap (λ (c : Controller). c.shutdown) same ∙ h.running)
        (subst (λ l. Place l s.held) (sym still) h.place)
        (ap (λ (c : Controller). exchange_with c s.held (unit s.world)) same)

  pub act-Led :
      (a : Act) (s : Station W)
      → IsUnit i press_key unit good
      → AllowedAct a
      → Sound s
      → Led (heard_act i a s) s (act i press_key a s)
  unfolding act interleave occur call_update call_status begin_update
  act-Led Act.loop s u ok h = loop-Led s.daemon.loop s.daemon s.world s.held u refl h
  act-Led (Act.key p) s u ok h =
      led (Event.key p ∷ []) s (record s { world = press_key p s.world }) _ h (ok, tt) refl
        (u.press_keeps p s.world h.fit) h.running h.place
        (ap (exchange_with s.daemon.controller s.held) (u.presses p s.world))
  act-Led (Act.update n) s u ok h =
      led (Event.call n ∷ []) s (record s { daemon = call_update s.daemon n }) _ h (ok, tt) refl
        h.fit h.running h.place refl
  act-Led Act.status s u ok h =
      led [] s (record s { daemon = call_status s.daemon }) _ h tt refl h.fit h.running h.place refl
  act-Led Act.stop s u ok h = absurd ok
  act-Led Act.join s u ok h =
      daemon-Led s (join_loop s.daemon.joining s.daemon.loop s.daemon) h
        (join_loop-controller s.daemon.joining s.daemon.loop s.daemon)
  act-Led (Act.wake n) s u ok h =
      daemon-Led s (wake_call n s.daemon) h (wake_call-controller n s.daemon)
