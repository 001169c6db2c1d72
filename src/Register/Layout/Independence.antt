-- ===== src/Register/Layout/Independence.antt =====
-- protocol/fuji_register.cc: an insertion into one field, and the fields of the same byte.
use fuji_iot.Base.{ℕ, ◌<◌, ◌≡◌, arith}
use fuji_iot.Register.Layout.{
  enabled_field, mode_field, fan_field, error_field, temperature_field, economy_field,
  swing_step_field, swing_field, update_magic_field, controller_present_field, extract_bits,
  insert_bits,
}
use fuji_iot.Register.Layout.Laws.{
  insert_bits-lt, extract-enabled, insert-enabled, extract-mode, insert-mode, extract-fan,
  insert-fan, extract-error, insert-error, extract-temperature, insert-temperature, extract-economy,
  insert-economy, extract-swing_step, insert-swing_step, extract-swing, insert-swing,
  extract-update_magic, insert-update_magic, extract-controller_present, insert-controller_present,
}

pub extract-insert_enabled :
    (b v : ℕ)
    → b < 256
    → v < 2
    → (extract_bits enabled_field (insert_bits enabled_field b v) ≡ v)
      × (extract_bits mode_field (insert_bits enabled_field b v) ≡ extract_bits mode_field b)
      × (extract_bits fan_field (insert_bits enabled_field b v) ≡ extract_bits fan_field b)
      × (extract_bits error_field (insert_bits enabled_field b v) ≡ extract_bits error_field b)
extract-insert_enabled b v hb hv =
    let x = insert_bits enabled_field b v in
    let e = insert-enabled b v hb hv in
    let lt = insert_bits-lt enabled_field b v in
    (
      omega (arith, e, lt, extract-enabled x lt),
      omega (arith, e, lt, extract-mode x lt, extract-mode b hb),
      omega (arith, e, lt, extract-fan x lt, extract-fan b hb),
      omega (arith, e, lt, extract-error x lt, extract-error b hb),
    )

pub extract-insert_mode :
    (b v : ℕ)
    → b < 256
    → v < 8
    → (extract_bits mode_field (insert_bits mode_field b v) ≡ v)
      × (extract_bits enabled_field (insert_bits mode_field b v) ≡ extract_bits enabled_field b)
      × (extract_bits fan_field (insert_bits mode_field b v) ≡ extract_bits fan_field b)
      × (extract_bits error_field (insert_bits mode_field b v) ≡ extract_bits error_field b)
extract-insert_mode b v hb hv =
    let x = insert_bits mode_field b v in
    let e = insert-mode b v hb hv in
    let lt = insert_bits-lt mode_field b v in
    (
      omega (arith, e, lt, extract-mode x lt),
      omega (arith, e, lt, extract-enabled x lt, extract-enabled b hb),
      omega (arith, e, lt, extract-fan x lt, extract-fan b hb),
      omega (arith, e, lt, extract-error x lt, extract-error b hb),
    )

pub extract-insert_fan :
    (b v : ℕ)
    → b < 256
    → v < 8
    → (extract_bits fan_field (insert_bits fan_field b v) ≡ v)
      × (extract_bits enabled_field (insert_bits fan_field b v) ≡ extract_bits enabled_field b)
      × (extract_bits mode_field (insert_bits fan_field b v) ≡ extract_bits mode_field b)
      × (extract_bits error_field (insert_bits fan_field b v) ≡ extract_bits error_field b)
extract-insert_fan b v hb hv =
    let x = insert_bits fan_field b v in
    let e = insert-fan b v hb hv in
    let lt = insert_bits-lt fan_field b v in
    (
      omega (arith, e, lt, extract-fan x lt),
      omega (arith, e, lt, extract-enabled x lt, extract-enabled b hb),
      omega (arith, e, lt, extract-mode x lt, extract-mode b hb),
      omega (arith, e, lt, extract-error x lt, extract-error b hb),
    )

pub extract-insert_error :
    (b v : ℕ)
    → b < 256
    → v < 2
    → (extract_bits error_field (insert_bits error_field b v) ≡ v)
      × (extract_bits enabled_field (insert_bits error_field b v) ≡ extract_bits enabled_field b)
      × (extract_bits mode_field (insert_bits error_field b v) ≡ extract_bits mode_field b)
      × (extract_bits fan_field (insert_bits error_field b v) ≡ extract_bits fan_field b)
extract-insert_error b v hb hv =
    let x = insert_bits error_field b v in
    let e = insert-error b v hb hv in
    let lt = insert_bits-lt error_field b v in
    (
      omega (arith, e, lt, extract-error x lt),
      omega (arith, e, lt, extract-enabled x lt, extract-enabled b hb),
      omega (arith, e, lt, extract-mode x lt, extract-mode b hb),
      omega (arith, e, lt, extract-fan x lt, extract-fan b hb),
    )

pub extract-insert_temperature :
    (b v : ℕ)
    → b < 256
    → v < 128
    → (extract_bits temperature_field (insert_bits temperature_field b v) ≡ v)
      × (extract_bits economy_field (insert_bits temperature_field b v)
          ≡ extract_bits economy_field b)
extract-insert_temperature b v hb hv =
    let x = insert_bits temperature_field b v in
    let e = insert-temperature b v hb hv in
    let lt = insert_bits-lt temperature_field b v in
    (
      omega (arith, e, lt, extract-temperature x lt),
      omega (arith, e, lt, extract-economy x lt, extract-economy b hb),
    )

pub extract-insert_economy :
    (b v : ℕ)
    → b < 256
    → v < 2
    → (extract_bits economy_field (insert_bits economy_field b v) ≡ v)
      × (extract_bits temperature_field (insert_bits economy_field b v)
          ≡ extract_bits temperature_field b)
extract-insert_economy b v hb hv =
    let x = insert_bits economy_field b v in
    let e = insert-economy b v hb hv in
    let lt = insert_bits-lt economy_field b v in
    (
      omega (arith, e, lt, extract-economy x lt),
      omega (arith, e, lt, extract-temperature x lt, extract-temperature b hb),
    )

pub extract-insert_swing_step :
    (b v : ℕ)
    → b < 256
    → v < 2
    → (extract_bits swing_step_field (insert_bits swing_step_field b v) ≡ v)
      × (extract_bits swing_field (insert_bits swing_step_field b v) ≡ extract_bits swing_field b)
      × (extract_bits update_magic_field (insert_bits swing_step_field b v)
          ≡ extract_bits update_magic_field b)
extract-insert_swing_step b v hb hv =
    let x = insert_bits swing_step_field b v in
    let e = insert-swing_step b v hb hv in
    let lt = insert_bits-lt swing_step_field b v in
    (
      omega (arith, e, lt, extract-swing_step x lt),
      omega (arith, e, lt, extract-swing x lt, extract-swing b hb),
      omega (arith, e, lt, extract-update_magic x lt, extract-update_magic b hb),
    )

pub extract-insert_swing :
    (b v : ℕ)
    → b < 256
    → v < 2
    → (extract_bits swing_field (insert_bits swing_field b v) ≡ v)
      × (extract_bits swing_step_field (insert_bits swing_field b v)
          ≡ extract_bits swing_step_field b)
      × (extract_bits update_magic_field (insert_bits swing_field b v)
          ≡ extract_bits update_magic_field b)
extract-insert_swing b v hb hv =
    let x = insert_bits swing_field b v in
    let e = insert-swing b v hb hv in
    let lt = insert_bits-lt swing_field b v in
    (
      omega (arith, e, lt, extract-swing x lt),
      omega (arith, e, lt, extract-swing_step x lt, extract-swing_step b hb),
      omega (arith, e, lt, extract-update_magic x lt, extract-update_magic b hb),
    )

pub extract-insert_update_magic :
    (b v : ℕ)
    → b < 256
    → v < 16
    → (extract_bits update_magic_field (insert_bits update_magic_field b v) ≡ v)
      × (extract_bits swing_step_field (insert_bits update_magic_field b v)
          ≡ extract_bits swing_step_field b)
      × (extract_bits swing_field (insert_bits update_magic_field b v) ≡ extract_bits swing_field b)
extract-insert_update_magic b v hb hv =
    let x = insert_bits update_magic_field b v in
    let e = insert-update_magic b v hb hv in
    let lt = insert_bits-lt update_magic_field b v in
    (
      omega (arith, e, lt, extract-update_magic x lt),
      omega (arith, e, lt, extract-swing_step x lt, extract-swing_step b hb),
      omega (arith, e, lt, extract-swing x lt, extract-swing b hb),
    )

pub extract-insert_controller_present :
    (b v : ℕ)
    → b < 256
    → v < 2
    → extract_bits controller_present_field (insert_bits controller_present_field b v) ≡ v
extract-insert_controller_present b v hb hv =
    let x = insert_bits controller_present_field b v in
    let e = insert-controller_present b v hb hv in
    let lt = insert_bits-lt controller_present_field b v in
    omega (arith, e, lt, extract-controller_present x lt)
