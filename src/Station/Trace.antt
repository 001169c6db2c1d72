-- ===== src/Station/Trace.antt =====
-- The acts at a station as steps of the daemon's threads.
use fuji_iot.Base.{
  ℕ, zero, suc, ◌≡◌, refl, sym, ap, ◌∙◌, true, Option, none, some, List, [], ◌∷◌, ◌++◌, Bool, false,
  if◌then◌else◌,
}
use mathlib.Core.Path.{subst}
use fuji_iot.Frame.{MasterFrame, ControllerFrame}
use fuji_iot.Serial.{Outcome, done, fatal}
use fuji_iot.Server.Remote.{Press}
use fuji_iot.Daemon.{Daemon, Loop, Call, Step, Run, run_round, shut_down}
use fuji_iot.Station.{
  SerialInterface, Station, Act, wake_at, wake_call, join_loop, after_stop, after_read, after_write,
  write_answer, body_step, loop_step, act, acts,
}

-- The calls in a row, the next one moved to the calls behind.
pub move_call :
    (before : List Call) (call : Call) (after : List Call)
    → (before ++ call ∷ []) ++ after ≡ before ++ call ∷ after
move_call [] call after = refl
move_call (c ∷ before) call after = ap (λ (l : List Call). c ∷ l) (move_call before call after)

wake_at-Run :
    (d : Daemon) (before cs : List Call) (n : ℕ)
    → d.calls ≡ before ++ cs
    → d.controller.ready ≡ true
    → Run d (wake_at d before cs n)
unfolding wake_at
wake_at-Run d before [] n e r = Run.here
wake_at-Run d before (call ∷ after) zero e r = Run.next Run.here (Step.wake d before call after e r)
wake_at-Run d before (call ∷ after) (suc n) e r =
    wake_at-Run d (before ++ call ∷ []) after n (e ∙ sym (move_call before call after)) r

chosen-Run : (d e : Daemon) (b : Bool) → ((b ≡ true) → Run d e) → Run d (if b then e else d)
chosen-Run d e true r = r refl
chosen-Run d e false r = Run.here

wake_call-Run : (n : ℕ) (d : Daemon) → Run d (wake_call n d)
unfolding wake_call
wake_call-Run n d =
    chosen-Run d (wake_at d [] d.calls n) d.controller.ready (wake_at-Run d [] d.calls n refl)

Run-append : {d e f : Daemon} → Run d e → Run e f → Run d f
Run-append r Run.here = r
Run-append r (Run.next q s) = Run.next (Run-append r q) s

join_loop-Run :
    (b : Bool) (l : Loop) (d : Daemon) → d.joining ≡ b → d.loop ≡ l → Run d (join_loop b l d)
unfolding join_loop
join_loop-Run true Loop.ended d j e = Run.next Run.here (Step.join d j e)
join_loop-Run true Loop.at_test d j e = Run.here
join_loop-Run true Loop.in_round d j e = Run.here
join_loop-Run false l d j e = Run.here

module _ {W : Type 0} where
  -- The daemon of a station that an outcome gives, if any, is reached by a run.
  abbrev Ran : Daemon → Outcome (Station W) → Type 0
  Ran d fatal = Unit
  Ran d (done s) = Run d s.daemon

  Run-Ran : (d e : Daemon) (o : Outcome (Station W)) → Run d e → Ran e o → Ran d o
  Run-Ran d e fatal r q = tt
  Run-Ran d e (done s) r q = Run-append r q

  after_read-Ran :
      (d : Daemon) (o : Outcome (Option MasterFrame × W))
      → d.loop ≡ Loop.in_round
      → Ran d (after_read d o)
  unfolding after_read
  after_read-Ran d fatal e = tt
  after_read-Ran d (done (none, w)) e = Run.next Run.here (Step.round d none e)
  after_read-Ran d (done (some mf, w)) e = Run.here

  after_write-Ran : (d d' : Daemon) (o : Outcome W) → Run d d' → Ran d (after_write d' o)
  unfolding after_write
  after_write-Ran d d' fatal r = tt
  after_write-Ran d d' (done w) r = r

  after_stop-Ran :
      (s : Station W) (o : Outcome Daemon) → shut_down s.daemon ≡ o → Ran s.daemon (after_stop s o)
  unfolding after_stop
  after_stop-Ran s fatal e = tt
  after_stop-Ran s (done d) e = Run.next Run.here (Step.stop s.daemon d e)

  module _ (i : SerialInterface W) where
    write_answer-Ran :
        (d d' : Daemon) (w : W) (cf : Option ControllerFrame)
        → Run d d'
        → Ran d (write_answer i d' w cf)
    unfolding write_answer
    write_answer-Ran d d' w none r = r
    write_answer-Ran d d' w (some cf) r = after_write-Ran d d' (i.write_controller_frame cf w) r

    body_step-Ran :
        (d : Daemon) (w : W) (held : Option MasterFrame)
        → d.loop ≡ Loop.in_round
        → Ran d (body_step i d w held)
    unfolding body_step
    body_step-Ran d w none e = after_read-Ran d (i.read_master_frame w) e
    body_step-Ran d w (some mf) e =
        write_answer-Ran d (run_round d (some mf)) w _
          (Run.next Run.here (Step.round d (some mf) e))

    loop_step-Ran :
        (l : Loop) (d : Daemon) (w : W) (held : Option MasterFrame)
        → d.loop ≡ l
        → Ran d (loop_step i l d w held)
    unfolding loop_step
    loop_step-Ran Loop.at_test d w held e = Run.next Run.here (Step.test d e)
    loop_step-Ran Loop.in_round d w held e = body_step-Ran d w held e
    loop_step-Ran Loop.ended d w held e = Run.here

    module _ (press_key : Press → W → W) where
      act-Ran : (a : Act) (s : Station W) → Ran s.daemon (act i press_key a s)
      unfolding act
      act-Ran Act.loop s = loop_step-Ran s.daemon.loop s.daemon s.world s.held refl
      act-Ran Act.stop s = after_stop-Ran s (shut_down s.daemon) refl
      act-Ran Act.join s = join_loop-Run s.daemon.joining s.daemon.loop s.daemon refl refl
      act-Ran (Act.key p) s = Run.here
      act-Ran (Act.update u) s = Run.next Run.here (Step.update s.daemon u)
      act-Ran Act.status s = Run.next Run.here (Step.status s.daemon)
      act-Ran (Act.wake n) s = wake_call-Run n s.daemon

      later-Ran :
          (later : List Act) (d : Daemon) (o : Outcome (Station W))
          → ((s : Station W) → Ran s.daemon (acts i press_key later s))
          → Ran d o
          → Ran d (elim o [ fatal ↦ fatal | done s ↦ acts i press_key later s ])
      later-Ran later d fatal rest r = tt
      later-Ran later d (done s) rest r = Run-Ran d s.daemon (acts i press_key later s) r (rest s)

      acts-Ran : (list : List Act) (s : Station W) → Ran s.daemon (acts i press_key list s)
      unfolding acts
      acts-Ran [] s = Run.here
      acts-Ran (a ∷ later) s =
          later-Ran later s.daemon (act i press_key a s) (acts-Ran later) (act-Ran a s)

      -- The daemon at work over any serial interface makes steps of its threads only: if a
      -- list of acts from a station does not end the process, then the daemon behind it is
      -- reached by a run of the relation over threads, so that what holds of every run holds
      -- of it.
      pub acts-Run :
          (list : List Act) (s t : Station W)
          → acts i press_key list s ≡ done t
          → Run s.daemon t.daemon
      acts-Run list s t e = subst (Ran s.daemon) e (acts-Ran list s)
