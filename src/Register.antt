-- ===== src/Register.antt =====
-- protocol/fuji_register.h and .cc: the payload of a STATUS register. A FujiStatusRegister is a
-- pointer to five bytes; a setter returns the bytes that it leaves behind the pointer.
pub mod Layout
pub mod View
pub mod Writes
use fuji_iot.Base.{ℕ, zero, suc, Bool, if◌then◌else◌, ◌==◌}
use fuji_iot.Base.Bytes.{Bytes5, to_bool, of_bool}
use fuji_iot.Types.{Mode, Fan, mode_code, fan_code}
use Layout.{
  mode_field, fan_field, enabled_field, error_field, economy_field, temperature_field,
  update_magic_field, swing_field, swing_step_field, controller_present_field, extract_bits,
  insert_bits,
}

-- bytes_[i], for the indices 0 to 4 that the class uses.
abbrev pub get_at : Bytes5 → ℕ → ℕ
get_at r zero = r.b0
get_at r (suc zero) = r.b1
get_at r (suc (suc zero)) = r.b2
get_at r (suc (suc (suc zero))) = r.b3
get_at r (suc (suc (suc (suc i)))) = r.b4

-- bytes_[i] = b.
abbrev pub set_at : Bytes5 → ℕ → ℕ → Bytes5
set_at r zero b = record r { b0 = b }
set_at r (suc zero) b = record r { b1 = b }
set_at r (suc (suc zero)) b = record r { b2 = b }
set_at r (suc (suc (suc zero))) b = record r { b3 = b }
set_at r (suc (suc (suc (suc i)))) b = record r { b4 = b }

-- The switch of `Mode`.
unfoldable pub mode_of : ℕ → Mode
mode_of n =
    if n == mode_code Mode.auto
    then Mode.auto
    else if n == mode_code Mode.cool
    then Mode.cool
    else if n == mode_code Mode.dry
    then Mode.dry
    else if n == mode_code Mode.fan
    then Mode.fan
    else if n == mode_code Mode.heat
    then Mode.heat
    else Mode.unknown

-- The switch of `Fan`.
unfoldable pub fan_of : ℕ → Fan
fan_of n =
    if n == fan_code Fan.auto
    then Fan.auto
    else if n == fan_code Fan.max
    then Fan.max
    else if n == fan_code Fan.high
    then Fan.high
    else if n == fan_code Fan.medium
    then Fan.medium
    else if n == fan_code Fan.low
    then Fan.low
    else Fan.unknown

unfoldable pub set_mode : Bytes5 → Mode → Bytes5
set_mode r m =
    set_at r mode_field.index (insert_bits mode_field (get_at r mode_field.index) (mode_code m))

unfoldable pub mode : Bytes5 → Mode
mode r = mode_of (extract_bits mode_field (get_at r mode_field.index))

-- The source writes at kModeIndex, which is kEnabledIndex too.
unfoldable pub set_enabled : Bytes5 → Bool → Bytes5
set_enabled r e =
    set_at r mode_field.index (insert_bits enabled_field (get_at r enabled_field.index) (of_bool e))

unfoldable pub enabled : Bytes5 → Bool
enabled r = to_bool (extract_bits enabled_field (get_at r enabled_field.index))

unfoldable pub set_fan : Bytes5 → Fan → Bytes5
set_fan r f =
    set_at r fan_field.index (insert_bits fan_field (get_at r fan_field.index) (fan_code f))

unfoldable pub fan : Bytes5 → Fan
fan r = fan_of (extract_bits fan_field (get_at r fan_field.index))

unfoldable pub set_error : Bytes5 → Bool → Bytes5
set_error r v =
    set_at r error_field.index (insert_bits error_field (get_at r error_field.index) (of_bool v))

unfoldable pub error : Bytes5 → Bool
error r = to_bool (extract_bits error_field (get_at r error_field.index))

unfoldable pub set_economy : Bytes5 → Bool → Bytes5
set_economy r v =
    set_at r economy_field.index
      (insert_bits economy_field (get_at r economy_field.index) (of_bool v))

unfoldable pub economy : Bytes5 → Bool
economy r = to_bool (extract_bits economy_field (get_at r economy_field.index))

unfoldable pub set_temperature : Bytes5 → ℕ → Bytes5
set_temperature r v =
    set_at r temperature_field.index
      (insert_bits temperature_field (get_at r temperature_field.index) v)

unfoldable pub temperature : Bytes5 → ℕ
temperature r = extract_bits temperature_field (get_at r temperature_field.index)

unfoldable pub set_swing : Bytes5 → Bool → Bytes5
set_swing r v =
    set_at r swing_field.index (insert_bits swing_field (get_at r swing_field.index) (of_bool v))

unfoldable pub swing : Bytes5 → Bool
swing r = to_bool (extract_bits swing_field (get_at r swing_field.index))

unfoldable pub set_swing_step : Bytes5 → Bool → Bytes5
set_swing_step r v =
    set_at r swing_step_field.index
      (insert_bits swing_step_field (get_at r swing_step_field.index) (of_bool v))

unfoldable pub swing_step : Bytes5 → Bool
swing_step r = to_bool (extract_bits swing_step_field (get_at r swing_step_field.index))

unfoldable pub set_controller_present : Bytes5 → Bool → Bytes5
set_controller_present r v =
    set_at r controller_present_field.index
      (insert_bits controller_present_field (get_at r controller_present_field.index) (of_bool v))

unfoldable pub controller_present : Bytes5 → Bool
controller_present r =
    to_bool (extract_bits controller_present_field (get_at r controller_present_field.index))

unfoldable pub set_update_magic : Bytes5 → ℕ → Bytes5
set_update_magic r v =
    set_at r update_magic_field.index
      (insert_bits update_magic_field (get_at r update_magic_field.index) v)

unfoldable pub update_magic : Bytes5 → ℕ
update_magic r = extract_bits update_magic_field (get_at r update_magic_field.index)
