-- ===== src/Register/Layout.antt =====
-- protocol/fuji_register.cc, lines 21 to 63: where each field of the STATUS register stands.
pub mod Laws
pub mod Independence
use fuji_iot.Base.{ℕ, bit_and, bit_or}
use fuji_iot.Base.Bytes.{u8, complement, shl, shr}

-- kXIndex, kXMask and kXOffset of a field X.
pub record Layout : Type 0 where
  pub index : ℕ
  pub mask : ℕ
  pub offset : ℕ

abbrev pub mode_field : Layout
mode_field = record { index = 0; mask = 0b00001110; offset = 1 }

abbrev pub fan_field : Layout
fan_field = record { index = 0; mask = 0b01110000; offset = 4 }

abbrev pub enabled_field : Layout
enabled_field = record { index = 0; mask = 0b00000001; offset = 0 }

abbrev pub error_field : Layout
error_field = record { index = 0; mask = 0b10000000; offset = 7 }

abbrev pub economy_field : Layout
economy_field = record { index = 1; mask = 0b10000000; offset = 7 }

abbrev pub temperature_field : Layout
temperature_field = record { index = 1; mask = 0b01111111; offset = 0 }

abbrev pub update_magic_field : Layout
update_magic_field = record { index = 2; mask = 0b11110000; offset = 4 }

abbrev pub swing_field : Layout
swing_field = record { index = 2; mask = 0b00000100; offset = 2 }

abbrev pub swing_step_field : Layout
swing_step_field = record { index = 2; mask = 0b00000010; offset = 1 }

abbrev pub controller_present_field : Layout
controller_present_field = record { index = 3; mask = 0b00000001; offset = 0 }

-- (byte & mask) >> offset.
unfoldable pub extract_bits : Layout → ℕ → ℕ
extract_bits f b = shr (bit_and b f.mask) f.offset

-- (byte & ~mask) | (value << offset), stored into a byte.
unfoldable pub insert_bits : Layout → ℕ → ℕ → ℕ
insert_bits f b v = u8 (bit_or (bit_and b (complement f.mask)) (shl v f.offset))
