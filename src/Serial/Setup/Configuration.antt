-- ===== src/Serial/Setup/Configuration.antt =====
-- What FujiAcSerialReader::Build leaves of each bit of the device's attributes.
use fuji_iot.Base.{
  ℕ, ◌≡◌, ◌≢◌, refl, Bool, true, false, not, ◌&&◌, ◌||◌, ◌==◌, if◌then◌else◌, arith,
}
use fuji_iot.Serial.Setup.{Bits, ◌or◌, TtyFlags, Termios, Termios2, configure, set_baud}

-- The bits of c_cflag as POSIX and Linux describe them: every position belongs to one flag or field
-- at most, and CS8 is a value of the field CSIZE. The number of the owner of a position stands for the
-- flag.
pub record IsFlags (f : TtyFlags) (owner : ℕ → ℕ) : Type 0 where
  pub clocal_owner : (k : ℕ) → f.clocal k ≡ (owner k == 1)
  pub cread_owner : (k : ℕ) → f.cread k ≡ (owner k == 2)
  pub csize_owner : (k : ℕ) → f.csize k ≡ (owner k == 3)
  pub cstopb_owner : (k : ℕ) → f.cstopb k ≡ (owner k == 4)
  pub parodd_owner : (k : ℕ) → f.parodd k ≡ (owner k == 5)
  pub cmspar_owner : (k : ℕ) → f.cmspar k ≡ (owner k == 6)
  pub parenb_owner : (k : ℕ) → f.parenb k ≡ (owner k == 7)
  pub crtscts_owner : (k : ℕ) → f.crtscts k ≡ (owner k == 8)
  pub cs8_owner : (k : ℕ) → f.cs8 k ≡ true → owner k ≡ 3
  pub two_entries : f.vmin ≢ f.vtime

-- The bits that Build sets in c_cflag, and those that it leaves cleared, but for the speed.
abbrev pub raised : TtyFlags → Bits
raised f = f.clocal or f.cread or f.cs8 or f.parenb

abbrev pub cleared : TtyFlags → Bits
cleared f = f.csize or f.cstopb or f.parodd or f.cmspar or f.crtscts

abbrev pub local_cleared : TtyFlags → Bits
local_cleared f = f.icanon or f.echo or f.echoe or f.echok or f.echonl or f.isig or f.iexten

abbrev pub output_cleared : TtyFlags → Bits
output_cleared f = f.opost or f.onlcr or f.ocrnl

abbrev pub input_cleared : TtyFlags → Bits
input_cleared f =
    f.inlcr or f.igncr or f.icrnl or f.ignbrk or f.iuclc or f.parmrk or f.inpck or f.istrip
    or f.ixon or f.ixoff or f.ixany

-- Raw, eight bits with an even parity and one stop bit, no flow control, and a read that waits 0.3 s
-- at most; all else as it was.
pub record RawModes (f : TtyFlags) (old new : Termios) : Type 0 where
  pub control :
      (k : ℕ)
      → new.c_cflag k ≡ (if raised f k then true else if cleared f k then false else old.c_cflag k)
  pub local : (k : ℕ) → new.c_lflag k ≡ (old.c_lflag k && not (local_cleared f k))
  pub output : (k : ℕ) → new.c_oflag k ≡ (old.c_oflag k && not (output_cleared f k))
  pub input : (k : ℕ) → new.c_iflag k ≡ (old.c_iflag k && not (input_cleared f k))
  pub least_bytes : new.c_cc f.vmin ≡ 0
  pub timeout : new.c_cc f.vtime ≡ 3
  pub other_entries : (j : ℕ) → j ≢ f.vmin → j ≢ f.vtime → new.c_cc j ≡ old.c_cc j

-- 500 baud in both directions; all else as it was.
pub record BaudRate (f : TtyFlags) (old new : Termios2) : Type 0 where
  pub control :
      (k : ℕ)
      → new.modes.c_cflag k
        ≡ (if f.bother k then true else if f.cbaud k then false else old.modes.c_cflag k)
  pub other_modes : new.modes ≡ record (old.modes) { c_cflag = new.modes.c_cflag }
  pub input_speed : new.c_ispeed ≡ 500
  pub output_speed : new.c_ospeed ≡ 500

-- One position of c_cflag, through all assignments.
control_bit :
    (owner : ℕ) (x clocal cread csize cs8 cstopb parodd cmspar parenb crtscts : Bool)
    → clocal ≡ (owner == 1)
    → cread ≡ (owner == 2)
    → csize ≡ (owner == 3)
    → cstopb ≡ (owner == 4)
    → parodd ≡ (owner == 5)
    → cmspar ≡ (owner == 6)
    → parenb ≡ (owner == 7)
    → crtscts ≡ (owner == 8)
    → (cs8 ≡ true → owner ≡ 3)
    → ((((((((x || (clocal || cread)) && not csize) || cs8) && not cstopb)
              && not (parodd || cmspar))
            || parenb)
          && not crtscts)
        ≡ (if clocal || cread || cs8 || parenb
            then true
            else if csize || cstopb || parodd || cmspar || crtscts
            then false
            else x))
control_bit owner x _ _ _ cs8 _ _ _ _ _ h1 h2 h3 h4 h5 h6 h7 h8 e8 = ground arith

-- The assignments to `tty`.
pub configure-RawModes :
    (f : TtyFlags) (owner : ℕ → ℕ) (old : Termios)
    → IsFlags f owner
    → RawModes f old (configure f old)
unfolding configure
configure-RawModes f owner old h = record {
  control = λ k.
      control_bit (owner k) (old.c_cflag k) _ _ _ _ _ _ _ _ _ (h.clocal_owner k) (h.cread_owner k)
        (h.csize_owner k) (h.cstopb_owner k) (h.parodd_owner k) (h.cmspar_owner k)
        (h.parenb_owner k) (h.crtscts_owner k) (h.cs8_owner k);
  local = λ k. refl;
  output = λ k. refl;
  input = λ k. ground arith;
  least_bytes = let d = h.two_entries in ground arith;
  timeout = ground arith;
  other_entries = λ j p q. ground arith;
}

speed_bit :
    (x cbaud bother : Bool)
    → ((x && not cbaud) || bother) ≡ (if bother then true else if cbaud then false else x)
speed_bit x cbaud bother = ground arith

-- The assignments to `tio`.
pub set_baud-BaudRate : (f : TtyFlags) (old : Termios2) → BaudRate f old (set_baud f old)
unfolding set_baud
set_baud-BaudRate f old = record {
  control = λ k. speed_bit (old.modes.c_cflag k) (f.cbaud k) (f.bother k);
  other_modes = refl;
  input_speed = refl;
  output_speed = refl;
}
