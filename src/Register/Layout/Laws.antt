-- ===== src/Register/Layout/Laws.antt =====
-- The two bit operations of protocol/fuji_register.cc in plain arithmetic, field by field, by
-- evaluation at every byte and value.
use fuji_iot.Base.{
  ℕ, ◌+◌, ◌-◌, ◌*◌, ◌/◌, ◌%◌, ◌<◌, ◌≡◌, refl, arith, every_below, agree_below, agree_below₂,
}
use fuji_iot.Register.Layout.{
  enabled_field, mode_field, fan_field, error_field, temperature_field, economy_field,
  swing_step_field, swing_field, update_magic_field, controller_present_field, extract_bits,
  insert_bits, Layout,
}

pub extract-enabled : (b : ℕ) → b < 256 → extract_bits enabled_field b ≡ b % 2
unfolding extract_bits every_below
extract-enabled b h = agree_below 256 (extract_bits enabled_field) (λ k. k % 2) b refl h

pub insert-enabled :
    (b v : ℕ) → b < 256 → v < 2 → insert_bits enabled_field b v ≡ b - b % 2 * 1 + v * 1
unfolding insert_bits every_below
insert-enabled b v h g =
    agree_below₂ 256 2 (insert_bits enabled_field) (λ k j. k - k % 2 * 1 + j * 1) b v refl h g

pub extract-mode : (b : ℕ) → b < 256 → extract_bits mode_field b ≡ b / 2 % 8
unfolding extract_bits every_below
extract-mode b h = agree_below 256 (extract_bits mode_field) (λ k. k / 2 % 8) b refl h

pub insert-mode :
    (b v : ℕ) → b < 256 → v < 8 → insert_bits mode_field b v ≡ b - b / 2 % 8 * 2 + v * 2
unfolding insert_bits every_below
insert-mode b v h g =
    agree_below₂ 256 8 (insert_bits mode_field) (λ k j. k - k / 2 % 8 * 2 + j * 2) b v refl h g

pub extract-fan : (b : ℕ) → b < 256 → extract_bits fan_field b ≡ b / 16 % 8
unfolding extract_bits every_below
extract-fan b h = agree_below 256 (extract_bits fan_field) (λ k. k / 16 % 8) b refl h

pub insert-fan :
    (b v : ℕ) → b < 256 → v < 8 → insert_bits fan_field b v ≡ b - b / 16 % 8 * 16 + v * 16
unfolding insert_bits every_below
insert-fan b v h g =
    agree_below₂ 256 8 (insert_bits fan_field) (λ k j. k - k / 16 % 8 * 16 + j * 16) b v refl h g

pub extract-error : (b : ℕ) → b < 256 → extract_bits error_field b ≡ b / 128
unfolding extract_bits every_below
extract-error b h = agree_below 256 (extract_bits error_field) (λ k. k / 128) b refl h

pub insert-error :
    (b v : ℕ) → b < 256 → v < 2 → insert_bits error_field b v ≡ b - b / 128 * 128 + v * 128
unfolding insert_bits every_below
insert-error b v h g =
    agree_below₂ 256 2 (insert_bits error_field) (λ k j. k - k / 128 * 128 + j * 128) b v refl h g

pub extract-temperature : (b : ℕ) → b < 256 → extract_bits temperature_field b ≡ b % 128
unfolding extract_bits every_below
extract-temperature b h = agree_below 256 (extract_bits temperature_field) (λ k. k % 128) b refl h

pub insert-temperature :
    (b v : ℕ) → b < 256 → v < 128 → insert_bits temperature_field b v ≡ b - b % 128 * 1 + v * 1
unfolding insert_bits every_below
insert-temperature b v h g =
    agree_below₂ 256 128 (insert_bits temperature_field) (λ k j. k - k % 128 * 1 + j * 1) b v refl h
      g

pub extract-economy : (b : ℕ) → b < 256 → extract_bits economy_field b ≡ b / 128
unfolding extract_bits every_below
extract-economy b h = agree_below 256 (extract_bits economy_field) (λ k. k / 128) b refl h

pub insert-economy :
    (b v : ℕ) → b < 256 → v < 2 → insert_bits economy_field b v ≡ b - b / 128 * 128 + v * 128
unfolding insert_bits every_below
insert-economy b v h g =
    agree_below₂ 256 2 (insert_bits economy_field) (λ k j. k - k / 128 * 128 + j * 128) b v refl h g

pub extract-swing_step : (b : ℕ) → b < 256 → extract_bits swing_step_field b ≡ b / 2 % 2
unfolding extract_bits every_below
extract-swing_step b h = agree_below 256 (extract_bits swing_step_field) (λ k. k / 2 % 2) b refl h

pub insert-swing_step :
    (b v : ℕ) → b < 256 → v < 2 → insert_bits swing_step_field b v ≡ b - b / 2 % 2 * 2 + v * 2
unfolding insert_bits every_below
insert-swing_step b v h g =
    agree_below₂ 256 2 (insert_bits swing_step_field) (λ k j. k - k / 2 % 2 * 2 + j * 2) b v refl h
      g

pub extract-swing : (b : ℕ) → b < 256 → extract_bits swing_field b ≡ b / 4 % 2
unfolding extract_bits every_below
extract-swing b h = agree_below 256 (extract_bits swing_field) (λ k. k / 4 % 2) b refl h

pub insert-swing :
    (b v : ℕ) → b < 256 → v < 2 → insert_bits swing_field b v ≡ b - b / 4 % 2 * 4 + v * 4
unfolding insert_bits every_below
insert-swing b v h g =
    agree_below₂ 256 2 (insert_bits swing_field) (λ k j. k - k / 4 % 2 * 4 + j * 4) b v refl h g

pub extract-update_magic : (b : ℕ) → b < 256 → extract_bits update_magic_field b ≡ b / 16
unfolding extract_bits every_below
extract-update_magic b h = agree_below 256 (extract_bits update_magic_field) (λ k. k / 16) b refl h

pub insert-update_magic :
    (b v : ℕ) → b < 256 → v < 16 → insert_bits update_magic_field b v ≡ b - b / 16 * 16 + v * 16
unfolding insert_bits every_below
insert-update_magic b v h g =
    agree_below₂ 256 16 (insert_bits update_magic_field) (λ k j. k - k / 16 * 16 + j * 16) b v refl
      h g

pub extract-controller_present : (b : ℕ) → b < 256 → extract_bits controller_present_field b ≡ b % 2
unfolding extract_bits every_below
extract-controller_present b h =
    agree_below 256 (extract_bits controller_present_field) (λ k. k % 2) b refl h

pub insert-controller_present :
    (b v : ℕ) → b < 256 → v < 2 → insert_bits controller_present_field b v ≡ b - b % 2 * 1 + v * 1
unfolding insert_bits every_below
insert-controller_present b v h g =
    agree_below₂ 256 2 (insert_bits controller_present_field) (λ k j. k - k % 2 * 1 + j * 1) b v
      refl h g

-- Whatever the value, the result is stored into a byte.
pub insert_bits-lt : (f : Layout) (b v : ℕ) → insert_bits f b v < 256
unfolding insert_bits
insert_bits-lt f b v = omega arith
