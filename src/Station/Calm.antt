-- ===== src/Station/Calm.antt =====
-- Acts at a station over the simulated unit without keys and calls of Update: how many steps of DoLoop
-- the acts of the loop thread come to.
use fuji_iot.Base.{
  ℕ, zero, suc, ◌+◌, ◌*◌, ◌≤◌, ◌≡◌, refl, sym, ap, ◌∙◌, Bool, true, false, not, Option, none, some,
  List, [], ◌∷◌, ◌++◌, if◌then◌else◌, arith,
}
use mathlib.Core.Path.{subst}
use fuji_iot.Frame.{MasterFrame, ControllerFrame}
use fuji_iot.Sim.{Sim, get_next_master_frame, push_controller_frame}
use fuji_iot.Serial.{Outcome, done}
use fuji_iot.Server.Remote.{press}
use fuji_iot.Server.Session.{Event}
use fuji_iot.Server.Session.Append.{round_events}
use fuji_iot.Daemon.{Daemon, Loop, test_shutdown, run_round, call_status}
use fuji_iot.Station.{
  join_loop, Station, Act, after_read, write_answer, after_write, body_step, loop_step, act,
  wake_call,
}
use fuji_iot.Station.Session.{done-inj}
use fuji_iot.Station.Unit.{
  AllowedAct, heard_loop, heard_act, heard, wake_call-controller, join_loop-controller,
}
use fuji_iot.Station.Sound.{Place, Sound, act-Led}
use fuji_iot.Station.Simulated.{sim_interface, same_unit, AnyUnit, sim-IsUnit}

-- Neither keys nor calls of Update, and no shutdown.
abbrev pub IsCalm : Act → Type 0
IsCalm (Act.key p) = ⊥
IsCalm (Act.update u) = ⊥
IsCalm Act.stop = ⊥
IsCalm _ = Unit

abbrev pub AllCalm : List Act → Type 0
AllCalm [] = Unit
AllCalm (a ∷ later) = IsCalm a × AllCalm later

abbrev pub loop_count : Act → ℕ
loop_count Act.loop = 1
loop_count _ = 0

-- The steps of the loop thread in a list of acts.
abbrev pub loop_counts : List Act → ℕ
loop_counts [] = 0
loop_counts (a ∷ later) = loop_count a + loop_counts later

-- Three steps of the loop thread are two events. What the place in the loop is ahead of that.
abbrev ahead : Loop → Option MasterFrame → ℕ
ahead Loop.in_round none = 2
ahead Loop.in_round (some mf) = 1
ahead _ held = 0

ahead_le : (l : Loop) (held : Option MasterFrame) → ahead l held ≤ 2
ahead_le Loop.in_round none = omega arith
ahead_le Loop.in_round (some mf) = omega arith
ahead_le Loop.at_test held = omega arith
ahead_le Loop.ended held = omega arith

-- What an act is heard as, and where it leaves the loop.
record Counted (loops : ℕ) (es : List Event) (o : Outcome (Station Sim)) (before : ℕ) : Type 0 where
  station : Station Sim
  returned : o ≡ done station
  count : ℕ
  events : es ≡ round_events count
  balance : 2 * loops + before ≡ 3 * count + ahead station.daemon.loop station.held

ahead_test : (b : Bool) → b ≡ false → ahead (if not b then Loop.in_round else Loop.ended) none ≡ 2
ahead_test false e = refl
ahead_test true e = absurd (cc e)

ahead_held : (l : Loop) (mf : MasterFrame) → l ≡ Loop.in_round → ahead l (some mf) ≡ 1
ahead_held l mf e = ap (λ x. ahead x (some mf)) e

answer-Counted :
    (d : Daemon) (sim : Sim) (mf : MasterFrame) (cf : Option ControllerFrame)
    → Counted 1 (Event.round ∷ []) (write_answer sim_interface (run_round d (some mf)) sim cf) 1
unfolding write_answer after_write run_round
answer-Counted d sim mf none = record {
  station = record { daemon = run_round d (some mf); world = sim; held = none };
  returned = refl;
  count = 1;
  events = refl;
  balance = omega arith;
}
answer-Counted d sim mf (some cf) = record {
  station = record {
    daemon = run_round d (some mf);
    world = push_controller_frame sim cf;
    held = none;
  };
  returned = refl;
  count = 1;
  events = refl;
  balance = omega arith;
}

loop-Counted :
    (l : Loop) (d : Daemon) (sim : Sim) (held : Option MasterFrame)
    → d.loop ≡ l
    → Place l held
    → d.controller.shutdown ≡ false
    → Counted 1
        (heard_loop sim_interface l sim held)
        (loop_step sim_interface l d sim held)
        (ahead l held)
unfolding loop_step body_step after_read test_shutdown
loop-Counted Loop.at_test d sim none e p r = record {
  station = record { daemon = test_shutdown d; world = sim; held = none };
  returned = refl;
  count = 0;
  events = refl;
  balance = omega (arith, ahead_test d.controller.shutdown r);
}
loop-Counted Loop.at_test d sim (some mf) e p r = absurd (cc p)
loop-Counted Loop.in_round d sim none e p r =
    let polled = get_next_master_frame sim in
    record {
      station = record { daemon = d; world = polled.0; held = some polled.1 };
      returned = refl;
      count = 1;
      events = refl;
      balance = omega (arith, ahead_held d.loop polled.1 e);
    }
loop-Counted Loop.in_round d sim (some mf) e p r = answer-Counted d sim mf _
loop-Counted Loop.ended d sim held e p r = absurd p

round_events-append : (k n m : ℕ) → m ≡ k + n → round_events k ++ round_events n ≡ round_events m
round_events-append zero n m e = ap round_events (omega (arith, e))
round_events-append (suc k) n zero e = absurd (omega (arith, e))
round_events-append (suc k) n (suc m) e =
    ap (λ (l : List Event). Event.round ∷ l) (round_events-append k n m (omega (arith, e)))

abbrev ahead_of : Station Sim → ℕ
ahead_of s = ahead s.daemon.loop s.held

act-Counted :
    (a : Act) (s : Station Sim)
    → IsCalm a
    → Sound sim_interface press same_unit AnyUnit s
    → Counted
        (loop_count a)
        (heard_act sim_interface a s)
        (act sim_interface press a s)
        (ahead_of s)
unfolding act call_status
act-Counted Act.loop s c h =
    loop-Counted s.daemon.loop s.daemon s.world s.held refl h.place h.running
act-Counted (Act.key p) s c h = absurd c
act-Counted (Act.update u) s c h = absurd c
act-Counted Act.stop s c h = absurd c
act-Counted Act.join s c h = record {
  station = record s { daemon = join_loop s.daemon.joining s.daemon.loop s.daemon };
  returned = refl;
  count = 0;
  events = refl;
  balance = omega (
    arith,
    ap (λ l. ahead l s.held) (join_loop-controller s.daemon.joining s.daemon.loop s.daemon).1,
  );
}
act-Counted Act.status s c h = record {
  station = record s { daemon = call_status s.daemon };
  returned = refl;
  count = 0;
  events = refl;
  balance = omega arith;
}
act-Counted (Act.wake n) s c h = record {
  station = record s { daemon = wake_call n s.daemon };
  returned = refl;
  count = 0;
  events = refl;
  balance = omega (arith, ap (λ l. ahead l s.held) (wake_call-controller n s.daemon).1);
}

pub IsCalm-AllowedAct : (a : Act) → IsCalm a → AllowedAct a
IsCalm-AllowedAct Act.loop c = tt
IsCalm-AllowedAct (Act.key p) c = absurd c
IsCalm-AllowedAct (Act.update u) c = absurd c
IsCalm-AllowedAct Act.stop c = absurd c
IsCalm-AllowedAct Act.join c = tt
IsCalm-AllowedAct Act.status c = tt
IsCalm-AllowedAct (Act.wake n) c = tt

-- Calm acts are heard as steps of DoLoop, at least two for three steps of the loop thread.
pub calm-heard :
    (list : List Act) (s : Station Sim)
    → AllCalm list
    → Sound sim_interface press same_unit AnyUnit s
    → (n : ℕ) × (heard sim_interface press list s ≡ round_events n)
      × (2 * loop_counts list + ahead_of s ≤ 3 * n + 2)
unfolding heard
calm-heard [] s c h = (0, refl, omega (arith, ahead_le s.daemon.loop s.held))
calm-heard (a ∷ later) s (c, cs) h =
    let one = act-Counted a s c h in
    let step =
      act-Led sim_interface press same_unit AnyUnit a s sim-IsUnit (IsCalm-AllowedAct a c) h in
    let same = done-inj (sym step.returned ∙ one.returned) in
    let (n, events, few) =
      calm-heard later one.station cs
        (subst (Sound sim_interface press same_unit AnyUnit) same step.sound) in
    rw (heard, one.returned, one.events, events)
      (
        one.count + n,
        round_events-append one.count n (one.count + n) refl,
        omega (arith, one.balance, few),
      )
