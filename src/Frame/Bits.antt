-- ===== src/Frame/Bits.antt =====
-- The bit operations on the second and third byte of a frame, checked at every byte.
use fuji_iot.Base.{
  ℕ, ◌*◌, ◌<◌, ◌≡◌, refl, Bool, true, false, bit_and, bit_or, if◌then◌else◌, every_below,
  agree_below, agree_below₂,
}
use fuji_iot.Base.Bytes.{u8, shl, shr, of_bool}

-- Byte 1 of a master frame under WithDestination and WithUnknownBit.
abbrev pub put_destination : ℕ → ℕ → ℕ
put_destination b c = u8 (bit_or (u8 (bit_and b 0b10000000)) (bit_and c 0b01111111))

abbrev pub put_unknown : ℕ → Bool → ℕ
put_unknown b bit =
    let cleared = u8 (bit_and b 0b01111111) in
    if bit then u8 (bit_or cleared 0b10000000) else cleared

-- Byte 2 of a frame under WithType and WithQueryRegister.
abbrev pub put_type : ℕ → ℕ → ℕ
put_type b c = u8 (bit_or (u8 (bit_and b 0b11001111)) (shl c 4))

abbrev pub put_write : ℕ → Bool → ℕ
put_write b bit = if bit then u8 (bit_or b 0b00001000) else u8 (bit_and b 0b11110111)

-- Byte 1 of a controller frame under WithLoginBit.
abbrev pub put_login : ℕ → Bool → ℕ
put_login b bit = if bit then u8 (bit_or b 0b00100000) else u8 (bit_and b 0b11011111)

pub put_destination_bits :
    (b c : ℕ)
    → b < 256
    → c < 128
    → (bit_and (put_destination b c) 0b01111111 ≡ c)
      × (bit_and (put_destination b c) 0b10000000 ≡ bit_and b 0b10000000)
unfolding every_below
put_destination_bits b c hb hc = (
  agree_below₂ 256 128 (λ x y. bit_and (put_destination x y) 0b01111111) (λ x y. y) b c refl hb hc,
  agree_below₂ 256 128 (λ x y. bit_and (put_destination x y) 0b10000000)
      (λ x y. bit_and x 0b10000000) b c refl hb hc,
)

pub put_unknown_bits :
    (b : ℕ) (bit : Bool)
    → b < 256
    → (bit_and (put_unknown b bit) 0b10000000 ≡ of_bool bit * 128)
      × (bit_and (put_unknown b bit) 0b01111111 ≡ bit_and b 0b01111111)
unfolding every_below
put_unknown_bits b true h = (
  agree_below 256 (λ x. bit_and (put_unknown x true) 0b10000000) (λ x. 128) b refl h,
  agree_below 256 (λ x. bit_and (put_unknown x true) 0b01111111) (λ x. bit_and x 0b01111111) b refl
      h,
)
put_unknown_bits b false h = (
  agree_below 256 (λ x. bit_and (put_unknown x false) 0b10000000) (λ x. 0) b refl h,
  agree_below 256 (λ x. bit_and (put_unknown x false) 0b01111111) (λ x. bit_and x 0b01111111) b refl
      h,
)

-- The two frame classes read the register type in two ways.
pub put_type_bits :
    (b c : ℕ)
    → b < 256
    → c < 4
    → (bit_and (shr (put_type b c) 4) 0b11 ≡ c)
      × (shr (bit_and (put_type b c) 0b00110000) 4 ≡ c)
      × (bit_and (put_type b c) 0b00001000 ≡ bit_and b 0b00001000)
unfolding every_below
put_type_bits b c hb hc = (
  agree_below₂ 256 4 (λ x y. bit_and (shr (put_type x y) 4) 0b11) (λ x y. y) b c refl hb hc,
  agree_below₂ 256 4 (λ x y. shr (bit_and (put_type x y) 0b00110000) 4) (λ x y. y) b c refl hb hc,
  agree_below₂ 256 4 (λ x y. bit_and (put_type x y) 0b00001000) (λ x y. bit_and x 0b00001000) b c
      refl hb hc,
)

pub put_write_bits :
    (b : ℕ) (bit : Bool)
    → b < 256
    → (bit_and (put_write b bit) 0b00001000 ≡ of_bool bit * 8)
      × (bit_and (put_write b bit) 0b00110000 ≡ bit_and b 0b00110000)
unfolding every_below
put_write_bits b true h = (
  agree_below 256 (λ x. bit_and (put_write x true) 0b00001000) (λ x. 8) b refl h,
  agree_below 256 (λ x. bit_and (put_write x true) 0b00110000) (λ x. bit_and x 0b00110000) b refl h,
)
put_write_bits b false h = (
  agree_below 256 (λ x. bit_and (put_write x false) 0b00001000) (λ x. 0) b refl h,
  agree_below 256 (λ x. bit_and (put_write x false) 0b00110000) (λ x. bit_and x 0b00110000) b refl
      h,
)

pub put_login_bits :
    (b : ℕ) (bit : Bool) → b < 256 → bit_and (put_login b bit) 0b00100000 ≡ of_bool bit * 32
unfolding every_below
put_login_bits b true h =
    agree_below 256 (λ x. bit_and (put_login x true) 0b00100000) (λ x. 32) b refl h
put_login_bits b false h =
    agree_below 256 (λ x. bit_and (put_login x false) 0b00100000) (λ x. 0) b refl h
