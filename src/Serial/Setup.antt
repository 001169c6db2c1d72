-- ===== src/Serial/Setup.antt =====
-- FujiAcSerialReader::Build of controller/fuji_ac_serial_reader.cc: the set-up of the serial device.
-- The constants of <termios.h> and the system calls are parameters; PLOG(FATAL) ends the process. A
-- tcflag_t is a function from the positions of its bits.
pub mod Calls
pub mod Configuration
use Prim.Native.String.{String}
use fuji_iot.Base.{ℕ, Bool, not, ◌&&◌, ◌||◌, ◌==◌, if◌then◌else◌}
use fuji_iot.Controller.{ℤ}
use fuji_iot.Serial.{Outcome, done, fatal, is_negative}

abbrev pub Bits : Type 0
Bits = ℕ → Bool

infixl 30 ◌or◌
-- `x | y`.
abbrev pub ◌or◌ : Bits → Bits → Bits
◌or◌ x y k = x k || y k

-- `x &= ~y`.
abbrev pub clear : Bits → Bits → Bits
clear y x k = x k && not (y k)

-- `x |= y`.
abbrev pub raise : Bits → Bits → Bits
raise y x k = x k || y k

-- The constants of <termios.h>.
pub record TtyFlags : Type 0 where
  pub clocal : Bits
  pub cread : Bits
  pub csize : Bits
  pub cs8 : Bits
  pub cstopb : Bits
  pub parodd : Bits
  pub cmspar : Bits
  pub parenb : Bits
  pub crtscts : Bits
  pub cbaud : Bits
  pub bother : Bits
  pub icanon : Bits
  pub echo : Bits
  pub echoe : Bits
  pub echok : Bits
  pub echonl : Bits
  pub isig : Bits
  pub iexten : Bits
  pub opost : Bits
  pub onlcr : Bits
  pub ocrnl : Bits
  pub inlcr : Bits
  pub igncr : Bits
  pub icrnl : Bits
  pub ignbrk : Bits
  pub iuclc : Bits
  pub parmrk : Bits
  pub inpck : Bits
  pub istrip : Bits
  pub ixon : Bits
  pub ixoff : Bits
  pub ixany : Bits
  pub vmin : ℕ
  pub vtime : ℕ

-- struct termios.
pub record Termios : Type 0 where
  pub c_iflag : Bits
  pub c_oflag : Bits
  pub c_cflag : Bits
  pub c_lflag : Bits
  pub c_cc : ℕ → ℕ

-- struct termios2: the same, and the two speeds.
pub record Termios2 : Type 0 where
  pub modes : Termios
  pub c_ispeed : ℕ
  pub c_ospeed : ℕ

abbrev pub set_cc : ℕ → ℕ → (ℕ → ℕ) → ℕ → ℕ
set_cc i v cc j = if j == i then v else cc j

-- The assignments to `tty`, word by word.
unfoldable pub configure : TtyFlags → Termios → Termios
configure f tty =
    let c1 = raise (f.clocal or f.cread) tty.c_cflag in
    let l =
      clear (f.icanon or f.echo or f.echoe or f.echok or f.echonl or f.isig or f.iexten)
        tty.c_lflag in
    let o = clear (f.opost or f.onlcr or f.ocrnl) tty.c_oflag in
    let i1 = clear (f.inlcr or f.igncr or f.icrnl or f.ignbrk) tty.c_iflag in
    let i2 = clear f.iuclc i1 in
    let i3 = clear f.parmrk i2 in
    let c2 = clear f.csize c1 in
    let c3 = raise f.cs8 c2 in
    let c4 = clear f.cstopb c3 in
    let i4 = clear (f.inpck or f.istrip) i3 in
    let c5 = clear (f.parodd or f.cmspar) c4 in
    let c6 = raise f.parenb c5 in
    let i5 = clear (f.ixon or f.ixoff or f.ixany) i4 in
    let c7 = clear f.crtscts c6 in
    record {
      c_iflag = i5;
      c_oflag = o;
      c_cflag = c7;
      c_lflag = l;
      c_cc = set_cc f.vtime 3 (set_cc f.vmin 0 tty.c_cc);
    }

-- The assignments to `tio`.
unfoldable pub set_baud : TtyFlags → Termios2 → Termios2
set_baud f tio = record tio {
  modes = record (tio.modes) { c_cflag = raise f.bother (clear f.cbaud tio.modes.c_cflag) };
  c_ispeed = 500;
  c_ospeed = 500;
}

-- The system calls on a state `W` of the machine: what each returns, and what it leaves behind.
pub record Tty (W : Type 0) : Type 0 where
  -- open(name, O_RDWR | O_NOCTTY | O_NONBLOCK).
  pub open_device : String → W → ℤ × W
  -- flock(fd, LOCK_EX | LOCK_NB).
  pub lock_device : ℤ → W → ℤ × W
  -- tcgetattr(fd, &tty), and the struct behind it.
  pub get_attributes : ℤ → W → ℤ × Termios × W
  -- tcsetattr(fd, TCSANOW, &tty).
  pub set_attributes : ℤ → Termios → W → ℤ × W
  -- ioctl(fd, TCGETS2, &tio), and the struct behind it.
  pub get_speed : ℤ → W → ℤ × Termios2 × W
  -- ioctl(fd, TCSETS2, &tio).
  pub set_speed : ℤ → Termios2 → W → ℤ × W
  -- fcntl(fd, F_SETFL, 0).
  pub set_blocking : ℤ → W → ℤ × W

-- A part of Build ends the process, or leaves a value and the machine.
infixl 5 ◌>>=◌
abbrev pub ◌>>=◌ :
    {W A B : Type 0} → (W → Outcome (A × W)) → (A → W → Outcome (B × W)) → W → Outcome (B × W)
◌>>=◌ m f w = elim (m w) [ fatal ↦ fatal | done (a, w') ↦ f a w' ]

module _ {W : Type 0} where
  -- `if (call < 0) PLOG(FATAL)`, for a call without a struct to read.
  unfoldable pub checked : (W → ℤ × W) → W → Outcome (ℤ × W)
  checked call w = let (n, w') = call w in if is_negative n then fatal else done (n, w')

  -- The same for a call that fills a struct.
  unfoldable pub fetched : {A : Type 0} → (W → ℤ × A × W) → W → Outcome (A × W)
  fetched call w = let (n, a, w') = call w in if is_negative n then fatal else done (a, w')

  abbrev give : {A : Type 0} → A → W → Outcome (A × W)
  give a w = done (a, w)

  -- The reader that Build gives is its file descriptor.
  unfoldable pub build : Tty W → TtyFlags → String → W → Outcome (ℤ × W)
  unfolding checked fetched configure set_baud
  build t f device_name = do
    fd ← checked (t.open_device device_name)
    locked ← checked (t.lock_device fd)
    tty ← fetched (t.get_attributes fd)
    set ← checked (t.set_attributes fd (configure f tty))
    tio ← fetched (t.get_speed fd)
    speed ← checked (t.set_speed fd (set_baud f tio))
    now ← fetched (t.get_speed fd)
    blocking ← checked (t.set_blocking fd)
    give fd
