-- ===== src/Server/Remote.antt =====
-- Changes made at the unit with the remote control, and when the controller reports them.
use fuji_iot.Base.{ℕ, ◌≡◌, refl, ap, ◌∙◌, Bool, true, List, [], ◌∷◌, arith}
use fuji_iot.Types.{Mode, Fan}
use fuji_iot.Register.View.{Status, view}
use fuji_iot.Register.Writes.{Write, Fits, apply_all, assign, view-apply_all, apply_all-IsBytes5}
use fuji_iot.State.{AcState}
use fuji_iot.Sim
use fuji_iot.Sim.{Sim, update}
use fuji_iot.Sim.Laws.{IsValid, status-IsBytes5}
use fuji_iot.Controller.{read_status}
use fuji_iot.Server.{SimService, cycle}
use fuji_iot.Server.Convergence.{At, with_status-IsValid, read_step}
use fuji_iot.Server.Update.{report, read_status-At}

-- A key of the remote control: a setter of FujiAcUnitSim.
pub data Press : Type 0 where
  enabled economy swing swing_step : Bool → Press
  temperature : ℕ → Press
  fan : Fan → Press
  mode : Mode → Press

unfoldable pub press : Press → Sim → Sim
press (Press.enabled v) s = Sim.set_enabled s v
press (Press.economy v) s = Sim.set_economy s v
press (Press.swing v) s = Sim.set_swing s v
press (Press.swing_step v) s = Sim.set_swing_step s v
press (Press.temperature v) s = Sim.set_temperature s v
press (Press.fan v) s = Sim.set_fan s v
press (Press.mode v) s = Sim.set_mode s v

unfoldable pub press_all : List Press → Sim → Sim
press_all [] s = s
press_all (p ∷ ps) s = press_all ps (press p s)

-- The field that a key writes.
abbrev pub key_write : Press → Write
key_write (Press.enabled v) = Write.enabled v
key_write (Press.economy v) = Write.economy v
key_write (Press.swing v) = Write.swing v
key_write (Press.swing_step v) = Write.swing_step v
key_write (Press.temperature v) = Write.temperature v
key_write (Press.fan v) = Write.fan v
key_write (Press.mode v) = Write.mode v

abbrev pub key_writes : Press → List Write
key_writes p = key_write p ∷ Write.update_magic 4 ∷ []

pub press_lem :
    (p : Press) (s : Sim) → press p s ≡ Sim.with_status s (apply_all (key_writes p) (Sim.status s))
unfolding press Sim.set_enabled Sim.set_economy Sim.set_swing Sim.set_swing_step Sim.set_temperature
    Sim.set_fan Sim.set_mode apply_all
press_lem (Press.enabled v) s = refl
press_lem (Press.economy v) s = refl
press_lem (Press.swing v) s = refl
press_lem (Press.swing_step v) s = refl
press_lem (Press.temperature v) s = refl
press_lem (Press.fan v) s = refl
press_lem (Press.mode v) s = refl

-- A status register behind a key: the field, and the mark of a change by the remote control.
abbrev pub pressed : List Press → Status → Status
pressed [] v = v
pressed (p ∷ ps) v = pressed ps (record (assign (key_write p) v) { update_magic = 4 })

abbrev pub AllPressable : List Press → Type 0
AllPressable [] = Unit {0}
AllPressable (p ∷ ps) = Fits (key_write p) × AllPressable ps

pub press-IsValid : (p : Press) (s : Sim) → IsValid s → IsValid (press p s)
press-IsValid p s h =
    rw (press_lem p s)
      (with_status-IsValid s _ h (apply_all-IsBytes5 (key_writes p) _ (status-IsBytes5 s h)))

pub press-next_query_register :
    (p : Press) (s : Sim) → (press p s).next_query_register ≡ s.next_query_register
press-next_query_register p s = ap (λ (x : Sim). x.next_query_register) (press_lem p s)

-- A key writes its field, and marks the change.
pub press-view :
    (p : Press) (s : Sim)
    → IsValid s
    → Fits (key_write p)
    → view (Sim.status (press p s))
      ≡ record (assign (key_write p) (view (Sim.status s))) { update_magic = 4 }
press-view p s h g =
    rw (press_lem p s)
      (view-apply_all (key_writes p) (Sim.status s) (status-IsBytes5 s h) (g, (omega arith, tt)))

pub press-At :
    (s : SimService) (a : AcState) (v : Status) (p : Press)
    → Fits (key_write p)
    → At s a v
    → At (record s { sim = press p s.sim }) a (record (assign (key_write p) v) { update_magic = 4 })
press-At s a v p g h = record {
  settled = record {
    sim_valid = press-IsValid p s.sim h.settled.sim_valid;
    sim_status = press-next_query_register p s.sim ∙ h.settled.sim_status;
    idle = h.settled.idle;
  };
  state = h.state;
  seen =
      press-view p s.sim h.settled.sim_valid g
      ∙ ap (λ (w : Status). record (assign (key_write p) w) { update_magic = 4 }) h.seen;
}

pub press_all-At :
    (s : SimService) (a : AcState) (v : Status) (ps : List Press)
    → AllPressable ps
    → At s a v
    → At (record s { sim = press_all ps s.sim }) a (pressed ps v)
unfolding press_all
press_all-At s a v [] g h = h
press_all-At s a v (p ∷ ps) (g, gs) h =
    press_all-At (record s { sim = press p s.sim }) a _ ps gs (press-At s a v p g h)

-- No key registers the controller or touches the error bit.
pub key_keeps :
    (p : Press) (v : Status)
    → ((assign (key_write p) v).controller_present ≡ v.controller_present)
      × ((assign (key_write p) v).error ≡ v.error)
key_keeps (Press.enabled x) v = (refl, refl)
key_keeps (Press.economy x) v = (refl, refl)
key_keeps (Press.swing x) v = (refl, refl)
key_keeps (Press.swing_step x) v = (refl, refl)
key_keeps (Press.temperature x) v = (refl, refl)
key_keeps (Press.fan x) v = (refl, refl)
key_keeps (Press.mode x) v = (refl, refl)

pub pressed_keeps :
    (ps : List Press) (v : Status)
    → ((pressed ps v).controller_present ≡ v.controller_present) × ((pressed ps v).error ≡ v.error)
pressed_keeps [] v = (refl, refl)
pressed_keeps (p ∷ ps) v =
    let rest = pressed_keeps ps (record (assign (key_write p) v) { update_magic = 4 }) in
    let one = key_keeps p v in (rest.0 ∙ one.0, rest.1 ∙ one.1)

-- What is changed at the unit with the remote control is reported after one round: for every list
-- of setter calls on the simulated unit with temperatures below 128, made while the service is
-- settled, the controller is registered, has nothing to write and has the unit's error bit as its
-- error flag, GetStatus after the next round reports the register with exactly these changes.
pub remote_reported :
    (s : SimService) (a : AcState) (v : Status) (ps : List Press)
    → At s a v
    → AllPressable ps
    → a.merged ≡ true
    → v.controller_present ≡ true
    → v.error ≡ a.error_flag
    → read_status (cycle (record s { sim = press_all ps s.sim })).controller ≡ report (pressed ps v)
remote_reported s a v ps h g m p e =
    read_status-At _ a (pressed ps v) _
      (read_step _ a (pressed ps v) (press_all-At s a v ps g h) m ((pressed_keeps ps v).0 ∙ p)
        ((pressed_keeps ps v).1 ∙ e)).0
