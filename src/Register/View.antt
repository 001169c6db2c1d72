-- ===== src/Register/View.antt =====
-- The STATUS register as a record of its ten fields, and the effect of each setter on it.
use fuji_iot.Base.{every_below, agree_below₂, ◌+◌, ◌-◌, ◌≤◌, ℕ, ◌<◌, ◌≡◌, refl, Bool, true, arith}
use fuji_iot.Base.Bytes.{Bytes5, IsBytes5, to_bool, of_bool}
use fuji_iot.Types.{Mode, Fan, mode_code, fan_code}
use fuji_iot.Register
use fuji_iot.Register.{
  mode_of, fan_of, set_mode, set_fan, set_enabled, set_error, set_economy, set_temperature,
  set_update_magic, set_swing, set_swing_step, set_controller_present,
}
use fuji_iot.Register.Layout.{temperature_field, economy_field, extract_bits, insert_bits}
use fuji_iot.Register.Layout.Laws.{extract-temperature, extract-economy}
use fuji_iot.Register.Layout.Independence.{
  extract-insert_enabled, extract-insert_mode, extract-insert_fan, extract-insert_error,
  extract-insert_temperature, extract-insert_economy, extract-insert_swing_step,
  extract-insert_swing, extract-insert_update_magic, extract-insert_controller_present,
}

pub record Status : Type 0 where
  pub mode : Mode
  pub fan : Fan
  pub enabled : Bool
  pub error : Bool
  pub economy : Bool
  pub temperature : ℕ
  pub update_magic : ℕ
  pub swing : Bool
  pub swing_step : Bool
  pub controller_present : Bool

-- What the getters of FujiStatusRegister say of five bytes.
unfoldable pub view : Bytes5 → Status
unfolding Register.mode Register.fan Register.enabled Register.error Register.economy
    Register.temperature Register.update_magic Register.swing Register.swing_step
    Register.controller_present
view r = record {
  mode = Register.mode r;
  fan = Register.fan r;
  enabled = Register.enabled r;
  error = Register.error r;
  economy = Register.economy r;
  temperature = Register.temperature r;
  update_magic = Register.update_magic r;
  swing = Register.swing r;
  swing_step = Register.swing_step r;
  controller_present = Register.controller_present r;
}

pub mode_of-mode_code : (m : Mode) → mode_of (mode_code m) ≡ m
unfolding mode_of
mode_of-mode_code m = ground arith

pub fan_of-fan_code : (f : Fan) → fan_of (fan_code f) ≡ f
unfolding fan_of
fan_of-fan_code f = ground arith

mode_code-lt : (m : Mode) → mode_code m < 8
mode_code-lt m = ground arith

fan_code-lt : (f : Fan) → fan_code f < 8
fan_code-lt f = ground arith

of_bool-lt : (b : Bool) → of_bool b < 2
of_bool-lt b = ground arith

to_bool-of_bool : (b : Bool) → to_bool (of_bool b) ≡ b
to_bool-of_bool b = ground arith

pub view-set_mode :
    (r : Bytes5) (v : Mode) → IsBytes5 r → view (set_mode r v) ≡ record (view r) { mode = v }
unfolding view set_mode
view-set_mode r v h =
    let (e0, e1, e2, e3) = extract-insert_mode r.b0 (mode_code v) h.b0_lt (mode_code-lt v) in
    rw (e0, e1, e2, e3, mode_of-mode_code v)

pub view-set_fan :
    (r : Bytes5) (v : Fan) → IsBytes5 r → view (set_fan r v) ≡ record (view r) { fan = v }
unfolding view set_fan
view-set_fan r v h =
    let (e0, e1, e2, e3) = extract-insert_fan r.b0 (fan_code v) h.b0_lt (fan_code-lt v) in
    rw (e0, e1, e2, e3, fan_of-fan_code v)

pub view-set_enabled :
    (r : Bytes5) (v : Bool) → IsBytes5 r → view (set_enabled r v) ≡ record (view r) { enabled = v }
unfolding view set_enabled
view-set_enabled r v h =
    let (e0, e1, e2, e3) = extract-insert_enabled r.b0 (of_bool v) h.b0_lt (of_bool-lt v) in
    rw (e0, e1, e2, e3, to_bool-of_bool v)

pub view-set_error :
    (r : Bytes5) (v : Bool) → IsBytes5 r → view (set_error r v) ≡ record (view r) { error = v }
unfolding view set_error
view-set_error r v h =
    let (e0, e1, e2, e3) = extract-insert_error r.b0 (of_bool v) h.b0_lt (of_bool-lt v) in
    rw (e0, e1, e2, e3, to_bool-of_bool v)

pub view-set_economy :
    (r : Bytes5) (v : Bool) → IsBytes5 r → view (set_economy r v) ≡ record (view r) { economy = v }
unfolding view set_economy
view-set_economy r v h =
    let (e0, e1) = extract-insert_economy r.b1 (of_bool v) h.b1_lt (of_bool-lt v) in
    rw (e0, e1, to_bool-of_bool v)

pub view-set_temperature :
    (r : Bytes5) (v : ℕ)
    → IsBytes5 r
    → v < 128
    → view (set_temperature r v) ≡ record (view r) { temperature = v }
unfolding view set_temperature
view-set_temperature r v h g =
    let (e0, e1) = extract-insert_temperature r.b1 v h.b1_lt g in rw (e0, e1)

pub view-set_update_magic :
    (r : Bytes5) (v : ℕ)
    → IsBytes5 r
    → v < 16
    → view (set_update_magic r v) ≡ record (view r) { update_magic = v }
unfolding view set_update_magic
view-set_update_magic r v h g =
    let (e0, e1, e2) = extract-insert_update_magic r.b2 v h.b2_lt g in rw (e0, e1, e2)

pub view-set_swing :
    (r : Bytes5) (v : Bool) → IsBytes5 r → view (set_swing r v) ≡ record (view r) { swing = v }
unfolding view set_swing
view-set_swing r v h =
    let (e0, e1, e2) = extract-insert_swing r.b2 (of_bool v) h.b2_lt (of_bool-lt v) in
    rw (e0, e1, e2, to_bool-of_bool v)

pub view-set_swing_step :
    (r : Bytes5) (v : Bool)
    → IsBytes5 r
    → view (set_swing_step r v) ≡ record (view r) { swing_step = v }
unfolding view set_swing_step
view-set_swing_step r v h =
    let (e0, e1, e2) = extract-insert_swing_step r.b2 (of_bool v) h.b2_lt (of_bool-lt v) in
    rw (e0, e1, e2, to_bool-of_bool v)

pub view-set_controller_present :
    (r : Bytes5) (v : Bool)
    → IsBytes5 r
    → view (set_controller_present r v) ≡ record (view r) { controller_present = v }
unfolding view set_controller_present
view-set_controller_present r v h =
    rw
      (extract-insert_controller_present r.b3 (of_bool v) h.b3_lt (of_bool-lt v), to_bool-of_bool v)

-- A temperature that does not fit its seven bits.
insert-temperature_wide :
    (b v : ℕ) → b < 256 → v < 128 → insert_bits temperature_field b (v + 128) ≡ v + 128
unfolding insert_bits every_below
insert-temperature_wide b v h g =
    agree_below₂ 256 128 (λ x y. insert_bits temperature_field x (y + 128)) (λ x y. y + 128) b v
      refl h g

-- A temperature from 128 to 255 does not fit its field: SetTemperature then stores it less 128 and
-- sets the economy bit, and every other field keeps its value.
pub set_temperature_wide :
    (r : Bytes5) (v : ℕ)
    → IsBytes5 r
    → 128 ≤ v
    → v < 256
    → view (set_temperature r v) ≡ record (view r) { temperature = v - 128; economy = true }
unfolding view set_temperature
set_temperature_wide r v h lo hi =
    let wide : insert_bits temperature_field r.b1 v ≡ v =
      (let back : v - 128 + 128 ≡ v = omega arith in
        rw back at (insert-temperature_wide r.b1 (v - 128) h.b1_lt (omega arith))) in
    let low : extract_bits temperature_field v ≡ v - 128 =
      omega (arith, extract-temperature v hi) in
    let high : extract_bits economy_field v ≡ 1 = omega (arith, extract-economy v hi) in
    rw (wide, low, high)

pub temperature-lt : (p : Bytes5) → IsBytes5 p → Register.temperature p < 128
unfolding Register.temperature
temperature-lt p h = omega (arith, extract-temperature p.b1 h.b1_lt)
