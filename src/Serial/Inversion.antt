-- ===== src/Serial/Inversion.antt =====
-- controller/fuji_ac_serial_reader.cc: the frames and bytes that go through write(2) and read(2).
use fuji_iot.Base.{
  ℕ, ◌<◌, ◌≤◌, ◌-◌, ◌≡◌, ◌≢◌, refl, ap, true, false, Option, none, some, bit_xor, ◌⊎◌, inl, inr,
  if◌then◌else◌, every_below, agree_below, ltb, ◌==◌, Bool-cases, arith,
}
use fuji_iot.Base.Bytes.{Bytes8, IsBytes8}
use fuji_iot.Frame.{MasterFrame, ControllerFrame}
use fuji_iot.Controller.{ℤ, pos, negsuc}
use fuji_iot.Serial.{
  Outcome, done, fatal, invert, write_controller_frame, read_master_frame, is_negative, is_eight,
  below_eight,
}

-- The other level of the line in every bit: what is left of a byte from 255.
abbrev pub complement : Bytes8 → Bytes8
complement d = record {
  d0 = 255 - d.d0;
  d1 = 255 - d.d1;
  d2 = 255 - d.d2;
  d3 = 255 - d.d3;
  d4 = 255 - d.d4;
  d5 = 255 - d.d5;
  d6 = 255 - d.d6;
  d7 = 255 - d.d7;
}

xor_complement : (b : ℕ) → b < 256 → bit_xor b 0xff ≡ 255 - b
unfolding every_below
xor_complement b h = agree_below 256 (λ x. bit_xor x 0xff) (λ x. 255 - x) b refl h

invert-complement : (d : Bytes8) → IsBytes8 d → invert d ≡ complement d
unfolding invert
invert-complement d h = rw (
  xor_complement d.d0 h.d0_lt,
  xor_complement d.d1 h.d1_lt,
  xor_complement d.d2 h.d2_lt,
  xor_complement d.d3 h.d3_lt,
  xor_complement d.d4 h.d4_lt,
  xor_complement d.d5 h.d5_lt,
  xor_complement d.d6 h.d6_lt,
  xor_complement d.d7 h.d7_lt,
)

-- What WriteControllerFrame makes of a call of write(2).
abbrev pub WriteEnds : {W : Type 0} → ℤ × W → Outcome W → Type 0
WriteEnds called o = ((called.0 ≡ pos 8) × (o ≡ done called.1)) ⊎ ((called.0 ≢ pos 8) × (o ≡ fatal))

number_of : {n m : ℕ} → pos n ≡ pos m → n ≡ m
number_of e = cc e

eight_or_not : (z : ℤ) → ((z ≡ pos 8) × (is_eight z ≡ true)) ⊎ ((z ≢ pos 8) × (is_eight z ≡ false))
eight_or_not (negsuc n) = inr ((λ e. cc), refl)
eight_or_not (pos n) = elim (Bool-cases (n == 8)) [
  | inl e ↦ inl (ap pos (ground (arith, e)), e)
  | inr e ↦ inr ((λ q. ground (arith, e, number_of q)), e)
]

module _ {W : Type 0} where
  -- WriteControllerFrame puts every byte of a frame of eight bytes on the line as what is left of
  -- it from 255; it returns if write(2) says that it took eight bytes, and ends the process if it
  -- says anything else, an error or another number.
  pub write_controller_frame-complement :
      (write : Bytes8 → W → ℤ × W) (f : ControllerFrame) (w : W)
      → IsBytes8 f.bytes
      → WriteEnds (write (complement f.bytes) w) (write_controller_frame write f w)
  unfolding write_controller_frame
  write_controller_frame-complement write f w h =
      rw (invert-complement f.bytes h) (elim (eight_or_not (write (complement f.bytes) w).0) [
        | inl (e, t) ↦ inl (e, rw t refl)
        | inr (n, t) ↦ inr (n, rw t refl)
      ])

-- What ReadMasterFrame makes of the result, the buffer and the device behind a call of read(2).
abbrev pub ReadEnds : {W : Type 0} → ℤ → Bytes8 → W → Outcome (Option MasterFrame × W) → Type 0
ReadEnds (negsuc k) d w o = o ≡ fatal
ReadEnds (pos k) d w o =
    ((k < 8) × (o ≡ done (none, w)))
    ⊎ ((8 ≤ k) × (o ≡ done (some (record { bytes = complement d }), w)))

short_or_whole : (k : ℕ) → ((k < 8) × (ltb k 8 ≡ true)) ⊎ ((8 ≤ k) × (ltb k 8 ≡ false))
short_or_whole k = ground arith

module _ {W : Type 0} where
  read_ends :
      (z : ℤ) (d : Bytes8) (w : W)
      → ReadEnds z d w (
          if is_negative z
          then fatal
          else if below_eight z
          then done (none, w)
          else done (some (record { bytes = complement d }), w))
  read_ends (negsuc k) d w = refl
  read_ends (pos k) d w = elim (short_or_whole k) [
    | inl (l, t) ↦ inl (l, rw t refl)
    | inr (l, t) ↦ inr (l, rw t refl)
  ]

  -- ReadMasterFrame ends the process if read(2) gives a negative number; it gives no frame if
  -- read(2) gives a number below eight, and drops those bytes; otherwise it gives the frame in
  -- which each of the eight bytes is what is left of the byte read from 255.
  pub read_master_frame-complement :
      (read : W → ℤ × Bytes8 × W) (w : W)
      → IsBytes8 (read w).1
      → ReadEnds (read w).0 (read w).1 (read w).2 (read_master_frame read w)
  unfolding read_master_frame
  read_master_frame-complement read w h =
      rw (invert-complement (read w).1 h) (read_ends (read w).0 (read w).1 (read w).2)
