-- ===== src/Server/Thermostat/Steady.antt =====
-- A service whose controller and unit agree on all settings, and what rounds and commands do to it.
use fuji_iot.Base.{
  ℕ, zero, suc, ◌<◌, ◌≡◌, refl, sym, ap, ◌∙◌, Bool, true, false, List, [], ◌∷◌, arith,
  if◌then◌else◌, ◌⊎◌,
}
use mathlib.Core.Path.{subst}
use fuji_iot.Register.View.{Status}
use fuji_iot.State
use fuji_iot.State.{AcState}
use fuji_iot.State.Laws.{with_status, is_fan}
use fuji_iot.Handler.Delivery.{written}
use fuji_iot.Controller.{Controller, AcUnitState, begin_update, read_status}
use fuji_iot.Controller.Update.{Asks, begin_update-merged, begin_update-Keeps}
use fuji_iot.Server.{SimService, cycle, cycles}
use fuji_iot.Server.Rounds.{polled_view}
use fuji_iot.Server.Convergence.{At, exchanged, read_step, two_reads, converges}
use fuji_iot.Server.Update.{request, request-At, read_status-At}
use fuji_iot.Server.Remote.{
  Press, press_all, pressed, pressed_keeps, AllPressable, press_all-At, key_write,
}
use fuji_iot.Register.Writes.{assign}
use fuji_iot.Server.Session.{IsLow}
use fuji_iot.Server.Interleaved.Keys.{pressed_low}
use fuji_iot.Server.Thermostat.{
  Settings, settings_of, asked, asked_enabled, asked_mode, asked_fan, asked_temperature, keyed,
  keyed_all, told,
}

-- Everything that the register says is in the local state, and nothing is to be written or asked.
pub record Steady (s : SimService) (v : Status) : Type 0 where
  pub base : AcState
  pub at : At s (with_status v base) v
  pub no_step : base.swing_step ≡ false
  pub low : v.temperature < 128
  pub present : v.controller_present ≡ true
  pub ready : s.controller.ready ≡ true

pub Steady-told :
    (s : SimService) (v : Status) → Steady s v → read_status s.controller ≡ told (settings_of v)
Steady-told s v h = read_status-At s h.base v v h.at

stays_ready : (b r : Bool) → r ≡ true → (if b then true else r) ≡ true
stays_ready true r e = refl
stays_ready false r e = e

-- A round more.
cycle-Steady : (s : SimService) (v : Status) → Steady s v → Steady (cycle s) (polled_view v)
cycle-Steady s v h =
    let (next, same) = read_step s (with_status v h.base) v h.at refl h.present refl in
    record {
      base = h.base;
      at = next;
      no_step = h.no_step;
      low = h.low;
      present = h.present;
      ready = ap (λ (c : Controller). c.ready) same ∙ stays_ready _ s.controller.ready h.ready;
    }

-- Rounds more leave the settings.
pub cycles-Steady :
    (n : ℕ) (s : SimService) (v : Status)
    → Steady s v
    → (w : Status) × Steady (cycles n s) w × (settings_of w ≡ settings_of v)
unfolding cycles
cycles-Steady zero s v h = (v, h, refl)
cycles-Steady (suc n) s v h =
    let (w, g, e) = cycles-Steady n (cycle s) (polled_view v) (cycle-Steady s v h) in (w, g, e)

-- Three rounds behind keys.
pub keys-Steady :
    (ps : List Press) (s : SimService) (v : Status)
    → AllPressable ps
    → Steady s v
    → let s' = record s { sim = press_all ps s.sim } in
      Steady (cycles 3 s') (polled_view (pressed ps v))
unfolding cycles
keys-Steady ps s v g h =
    let s' : SimService = record s { sim = press_all ps s.sim } in
    let (present, error) = pressed_keeps ps v in
    let (two, ready) =
      two_reads s' (with_status v h.base) (pressed ps v) (press_all-At s _ v ps g h.at) refl
        (present ∙ h.present) error in
    cycle-Steady (cycle (cycle s')) (polled_view (pressed ps v)) (record {
      base = h.base;
      at = two;
      no_step = h.no_step;
      low = pressed_low ps v g h.low;
      present = present ∙ h.present;
      ready = ready;
    })

pressed_once :
    (p : Press) (v : Status)
    → settings_of (record (assign (key_write p) v) { update_magic = 4 }) ≡ keyed p (settings_of v)
pressed_once (Press.enabled b) v = refl
pressed_once (Press.economy b) v = refl
pressed_once (Press.swing b) v = refl
pressed_once (Press.swing_step b) v = refl
pressed_once (Press.temperature t) v = refl
pressed_once (Press.fan f) v = refl
pressed_once (Press.mode m) v = refl

pub pressed-keyed :
    (ps : List Press) (v : Status) → settings_of (pressed ps v) ≡ keyed_all ps (settings_of v)
pressed-keyed [] v = refl
pressed-keyed (p ∷ ps) v =
    pressed-keyed ps (record (assign (key_write p) v) { update_magic = 4 })
    ∙ ap (keyed_all ps) (pressed_once p v)

-- What a request makes of a local state.
record Asked (u : AcUnitState) (s b : AcState) : Type 0 where
  enabled : b.enabled ≡ asked_enabled u.mode s.enabled
  mode : b.mode ≡ asked_mode u.mode s.mode
  fan : b.fan ≡ asked_fan u.fan s.fan
  temperature : b.temperature ≡ asked_temperature u.setpoint_temperature s.temperature
  economy : b.economy ≡ s.economy
  swing : b.swing ≡ s.swing

begin_update-Asked :
    (c : Controller) (u : AcUnitState)
    → Asked u c.client.ac_state (begin_update c u).client.ac_state
unfolding begin_update State.set_enabled State.set_mode State.set_fan State.set_temperature
begin_update-Asked c u = record {
  enabled = ground arith;
  mode = ground arith;
  fan = ground arith;
  temperature = ground arith;
  economy = (begin_update-Keeps c u).economy_kept;
  swing = (begin_update-Keeps c u).swing_kept;
}

request_low :
    (b : Bool) (t old new : ℕ)
    → t ≡ (if b then old else new)
    → (b ≡ true) ⊎ (new < 128)
    → old < 128
    → t < 128
request_low b t old new e low l = ground arith

in_fan_mode : (b : Bool) (t : ℕ) → (if b then 18 else if b then 0 else t) ≡ (if b then 18 else t)
in_fan_mode true t = refl
in_fan_mode false t = refl

-- The settings that an exchange leaves are the ones that the request asks for.
exchanged-asked :
    (u : AcUnitState) (base b : AcState) (v : Status)
    → Asked u (with_status v base) b
    → settings_of (exchanged b v) ≡ asked u (settings_of v)
exchanged-asked u base b v h =
    let t = asked_temperature u.setpoint_temperature v.temperature in
    rw (h.enabled, h.mode, h.fan, h.temperature, h.economy, h.swing)
      (ap (λ (n : ℕ). let s : Settings = record (asked u (settings_of v)) { temperature = n } in s)
        (in_fan_mode (is_fan (asked_mode u.mode v.mode)) t))

exchanged_low : (b : AcState) (v : Status) → b.temperature < 128 → (exchanged b v).temperature < 128
exchanged_low b v l = ground arith

low_request :
    (c : Controller) (u : AcUnitState)
    → IsLow u
    → c.client.ac_state.temperature < 128
    → (begin_update c u).client.ac_state.temperature < 128
low_request c u low l = request_low _ _ _ _ (begin_update-Asked c u).temperature low l

-- Three rounds behind a request.
pub update-Steady :
    (u : AcUnitState) (s : SimService) (v : Status)
    → Asks u
    → IsLow u
    → Steady s v
    → (w : Status) × Steady (cycles 3 (request s u)) w × (settings_of w ≡ asked u (settings_of v))
unfolding cycles
update-Steady u s v asks low h =
    let b = (begin_update s.controller u).client.ac_state in
    let keeps = begin_update-Keeps s.controller u in
    let local =
      low_request s.controller u low
        (subst (λ (x : AcState). x.temperature < 128) (sym h.at.state) h.low) in
    let (done, ready) =
      converges (request s u) b v (request-At s u _ v h.at)
        (begin_update-merged s.controller u asks)
        (keeps.swing_step_kept ∙ ap (λ (x : AcState). x.swing_step) h.at.state ∙ h.no_step) local
        h.present (sym (keeps.error_flag_kept ∙ ap (λ (x : AcState). x.error_flag) h.at.state)) in
    (
      exchanged b v,
      record {
        base = written b;
        at = done;
        no_step = refl;
        low = exchanged_low b v local;
        present = h.present;
        ready = ready;
      },
      exchanged-asked u h.base b v
          (subst (λ (x : AcState). Asked u x b) h.at.state (begin_update-Asked s.controller u)),
    )
