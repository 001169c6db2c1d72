-- ===== src/Serial.antt =====
-- controller/fuji_ac_serial_reader.h and .cc, WriteControllerFrame and ReadMasterFrame. The calls of
-- write(2) and read(2) are parameters over a state `W` of the device; LOG(FATAL) ends the process.
pub mod Inversion
pub mod Setup
use fuji_iot.Base.{ℕ, Bool, true, false, not, Option, none, some, bit_xor, if◌then◌else◌, ◌==◌, ltb}
use fuji_iot.Base.Bytes.{Bytes8}
use fuji_iot.Frame.{MasterFrame, ControllerFrame}
use fuji_iot.Controller.{ℤ, pos, negsuc}

-- The end of a call: its result, or the process has been aborted.
pub data Outcome {ℓ} (A : Type ℓ) : Type ℓ where
  done : A → Outcome A
  fatal : Outcome A

-- The loop `data[i] ^= 0xFF`.
unfoldable pub invert : Bytes8 → Bytes8
invert d = record {
  d0 = bit_xor d.d0 0xff;
  d1 = bit_xor d.d1 0xff;
  d2 = bit_xor d.d2 0xff;
  d3 = bit_xor d.d3 0xff;
  d4 = bit_xor d.d4 0xff;
  d5 = bit_xor d.d5 0xff;
  d6 = bit_xor d.d6 0xff;
  d7 = bit_xor d.d7 0xff;
}

abbrev pub is_eight : ℤ → Bool
is_eight (pos n) = n == 8
is_eight (negsuc n) = false

abbrev pub is_negative : ℤ → Bool
is_negative (pos n) = false
is_negative (negsuc n) = true

abbrev pub below_eight : ℤ → Bool
below_eight (pos n) = ltb n 8
below_eight (negsuc n) = true

module _ {W : Type 0} where
  -- `write` stands for write(fd_, data, 8): what it returns, and the device behind it.
  unfoldable pub write_controller_frame : (Bytes8 → W → ℤ × W) → ControllerFrame → W → Outcome W
  write_controller_frame write frame w =
      let called = write (invert frame.bytes) w in
      if not (is_eight called.0) then fatal else done called.1

  -- `read` stands for read(fd_, data, 8): what it returns, the eight bytes of the buffer, and the
  -- device behind it.
  unfoldable pub read_master_frame : (W → ℤ × Bytes8 × W) → W → Outcome (Option MasterFrame × W)
  read_master_frame read w =
      let called = read w in
      if is_negative called.0
      then fatal
      else if below_eight called.0
      then done (none, called.2)
      else done (some (record { bytes = invert called.1 }), called.2)
