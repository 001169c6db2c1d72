-- ===== src/Station/Shutdown.antt =====
-- FujiAcController::Shutdown at a station: the end of the loop thread.
use fuji_iot.Base.{
  ℕ, ◌+◌, ◌-◌, ◌≤◌, ◌≡◌, refl, sym, ap, ◌∙◌, Bool, true, false, not, Option, none, some, List, [],
  ◌∷◌, arith, if◌then◌else◌,
}
use mathlib.Core.Path.{subst}
use fuji_iot.Frame.{MasterFrame, ControllerFrame}
use fuji_iot.Serial.{Outcome, done, fatal}
use fuji_iot.Controller.{Controller, begin_update}
use fuji_iot.Server.Remote.{Press}
use fuji_iot.Daemon.{Daemon, Loop, call_update, call_status, test_shutdown, run_round, shut_down}
use fuji_iot.Daemon.Shutdown.{do_loop_round-shutdown, shut_down-fatal, shut_down-sets}
use fuji_iot.Station.{
  SerialInterface, Station, Act, wake_call, join_loop, after_read, after_stop, after_write,
  write_answer, body_step, loop_step, act, acts,
}
use fuji_iot.Station.Unit.{wake_call-controller, join_loop-controller}
use fuji_iot.Station.Calm.{loop_count, loop_counts}

joined :
    (b : Bool) (l : Loop) (d : Daemon)
    → d.joining ≡ b
    → l ≡ Loop.ended
    → (join_loop b l d).joining ≡ false
unfolding join_loop
joined true Loop.ended d j e = refl
joined true Loop.at_test d j e = absurd (cc e)
joined true Loop.in_round d j e = absurd (cc e)
joined false l d j e = j

-- How many steps the loop thread still makes once `shutdown_` is set.
abbrev pub steps_left : Loop → Option MasterFrame → ℕ
steps_left Loop.in_round none = 3
steps_left Loop.in_round (some mf) = 2
steps_left Loop.at_test held = 1
steps_left Loop.ended held = 0

steps_left_le : (l : Loop) (held : Option MasterFrame) → steps_left l held ≤ 3
steps_left_le Loop.in_round none = omega arith
steps_left_le Loop.in_round (some mf) = omega arith
steps_left_le Loop.at_test held = omega arith
steps_left_le Loop.ended held = omega arith

no_steps_left : (l : Loop) (held : Option MasterFrame) → steps_left l held ≡ 0 → l ≡ Loop.ended
no_steps_left Loop.in_round none e = absurd (omega (arith, e))
no_steps_left Loop.in_round (some mf) e = absurd (omega (arith, e))
no_steps_left Loop.at_test held e = absurd (omega (arith, e))
no_steps_left Loop.ended held e = refl

test_ends :
    (b : Bool) (held : Option MasterFrame)
    → b ≡ true
    → steps_left (if not b then Loop.in_round else Loop.ended) held ≡ 0
test_ends true held e = refl
test_ends false held e = absurd (cc e)

module _ {W : Type 0} where
  -- An outcome, unless it ends the process, is closing down, with at most a number of steps to go.
  abbrev Closes : ℕ → Outcome (Station W) → Type 0
  Closes left fatal = Unit
  Closes left (done s) =
      (s.daemon.controller.shutdown ≡ true) × (steps_left s.daemon.loop s.held ≤ left)

  read-Closes :
      (d : Daemon) (o : Outcome (Option MasterFrame × W))
      → d.controller.shutdown ≡ true
      → d.loop ≡ Loop.in_round
      → Closes 2 (after_read d o)
  unfolding after_read run_round
  read-Closes d fatal h e = tt
  read-Closes d (done (none, w)) h e = (do_loop_round-shutdown d.controller none ∙ h, omega arith)
  read-Closes d (done (some mf, w)) h e = (h, omega (arith, ap (λ l. steps_left l (some mf)) e))

  write-Closes :
      (d : Daemon) (o : Outcome W)
      → d.controller.shutdown ≡ true
      → d.loop ≡ Loop.at_test
      → Closes 1 (after_write d o)
  unfolding after_write
  write-Closes d fatal h e = tt
  write-Closes d (done w) h e = (h, omega (arith, ap (λ l. steps_left l none) e))

  stop-Closes :
      (s : Station W) (left : ℕ)
      → s.daemon.controller.shutdown ≡ true
      → Closes left (after_stop s (shut_down s.daemon))
  unfolding after_stop
  stop-Closes s left h =
      subst (λ o. Closes left (after_stop s o)) (sym (shut_down-fatal s.daemon h)) tt

  fewer : (o : Outcome (Station W)) (left more : ℕ) → left ≤ more → Closes left o → Closes more o
  fewer fatal left more l c = tt
  fewer (done s) left more l (h, k) = (h, omega (arith, k, l))

  -- A daemon that differs in its calls and its join only.
  same-Closes :
      (s : Station W) (d : Daemon)
      → s.daemon.controller.shutdown ≡ true
      → (d.controller ≡ s.daemon.controller) × (d.loop ≡ s.daemon.loop)
      → Closes (steps_left s.daemon.loop s.held - 0) (done (record s { daemon = d }))
  same-Closes s d h (same, still) = (
    ap (λ (c : Controller). c.shutdown) same ∙ h,
    omega (arith, ap (λ l. steps_left l s.held) still),
  )

  module _ (i : SerialInterface W) where
    answer-Closes :
        (d : Daemon) (w : W) (cf : Option ControllerFrame)
        → d.controller.shutdown ≡ true
        → d.loop ≡ Loop.at_test
        → Closes 1 (write_answer i d w cf)
    unfolding write_answer
    answer-Closes d w none h e = (h, omega (arith, ap (λ l. steps_left l none) e))
    answer-Closes d w (some cf) h e = write-Closes d (i.write_controller_frame cf w) h e

    loop-Closes :
        (l : Loop) (d : Daemon) (w : W) (held : Option MasterFrame)
        → d.controller.shutdown ≡ true
        → d.loop ≡ l
        → Closes (steps_left l held - 1) (loop_step i l d w held)
    unfolding loop_step body_step test_shutdown run_round
    loop-Closes Loop.at_test d w held h e =
        (h, omega (arith, test_ends d.controller.shutdown held h))
    loop-Closes Loop.in_round d w none h e = read-Closes d (i.read_master_frame w) h e
    loop-Closes Loop.in_round d w (some mf) h e =
        answer-Closes (run_round d (some mf)) w _
          (do_loop_round-shutdown d.controller (some mf) ∙ h) refl
    loop-Closes Loop.ended d w held h e = (h, omega (arith, ap (λ l. steps_left l held) e))

    module _ (press_key : Press → W → W) where
      act-Closes :
          (a : Act) (s : Station W)
          → s.daemon.controller.shutdown ≡ true
          → Closes (steps_left s.daemon.loop s.held - loop_count a) (act i press_key a s)
      unfolding act call_update call_status begin_update
      act-Closes Act.loop s h = loop-Closes s.daemon.loop s.daemon s.world s.held h refl
      act-Closes Act.stop s h = stop-Closes s _ h
      act-Closes Act.join s h =
          same-Closes s (join_loop s.daemon.joining s.daemon.loop s.daemon) h
            (join_loop-controller s.daemon.joining s.daemon.loop s.daemon)
      act-Closes (Act.key p) s h = (h, omega arith)
      act-Closes (Act.update u) s h = (h, omega arith)
      act-Closes Act.status s h = (h, omega arith)
      act-Closes (Act.wake n) s h =
          same-Closes s (wake_call n s.daemon) h (wake_call-controller n s.daemon)

      later-Closes :
          (later : List Act) (o : Outcome (Station W)) (left made : ℕ)
          → ((s : Station W)
              → s.daemon.controller.shutdown ≡ true
              → Closes
                  (steps_left s.daemon.loop s.held - loop_counts later)
                  (acts i press_key later s))
          → Closes (left - made) o
          → Closes
              (left - (made + loop_counts later))
              (elim o [ fatal ↦ fatal | done s ↦ acts i press_key later s ])
      later-Closes later fatal left made rest c = tt
      later-Closes later (done s) left made rest (h, l) =
          fewer (acts i press_key later s) _ _ (omega (arith, l)) (rest s h)

      acts-Closes :
          (list : List Act) (s : Station W)
          → s.daemon.controller.shutdown ≡ true
          → Closes (steps_left s.daemon.loop s.held - loop_counts list) (acts i press_key list s)
      unfolding acts
      acts-Closes [] s h = (h, omega arith)
      acts-Closes (a ∷ later) s h =
          later-Closes later (act i press_key a s) (steps_left s.daemon.loop s.held) (loop_count a)
            (acts-Closes later) (act-Closes a s h)

      acts_end :
          (list : List Act) (s t : Station W)
          → s.daemon.controller.shutdown ≡ true
          → acts i press_key list s ≡ done t
          → 3 ≤ loop_counts list
          → t.daemon.loop ≡ Loop.ended
      acts_end list s t h e enough =
          let left = steps_left s.daemon.loop s.held - loop_counts list in
          let (_, l) = subst (Closes left) e (acts-Closes list s h) in
          no_steps_left t.daemon.loop t.held
            (omega (arith, l, enough, steps_left_le s.daemon.loop s.held))

      -- Behind the outcome of Shutdown up to its join.
      stopped_end :
          (list : List Act) (s t : Station W) (o : Outcome Daemon)
          → shut_down s.daemon ≡ o
          → (elim (after_stop s o) [ fatal ↦ fatal | done s' ↦ acts i press_key list s' ]) ≡ done t
          → 3 ≤ loop_counts list
          → t.daemon.loop ≡ Loop.ended
      unfolding after_stop
      stopped_end list s t fatal f e enough = absurd (cc e)
      stopped_end list s t (done d) f e enough =
          acts_end list (record s { daemon = d }) t (shut_down-sets s.daemon d f) e enough

      -- Shutdown returns: if a call of Shutdown at a station and any acts behind it, with at
      -- least three steps of the loop thread among them, do not end the process, then the
      -- loop has ended behind them, and the join is over as soon as it is looked at, whatever
      -- the serial interface gives and whatever else happens.
      pub shutdown_returns :
          (list : List Act) (s t : Station W)
          → acts i press_key (Act.stop ∷ list) s ≡ done t
          → 3 ≤ loop_counts list
          → (t.daemon.loop ≡ Loop.ended)
            × ((join_loop t.daemon.joining t.daemon.loop t.daemon).joining ≡ false)
      unfolding acts act
      shutdown_returns list s t e enough =
          let end = stopped_end list s t (shut_down s.daemon) refl e enough in
          (end, joined t.daemon.joining t.daemon.loop t.daemon refl end)
