-- ===== src/Tests/Setup.antt =====
-- The set-up of controller/fuji_ac_serial_reader.cc on a machine with the constants of Linux.
use fuji_iot.Controller.{pos}
use fuji_iot.Base.{ℕ, ◌≡◌, refl, true, false, ◌==◌, if◌then◌else◌, arith}
use fuji_iot.Serial.{done}
use fuji_iot.Serial.Setup.{TtyFlags, Termios2, Tty, configure, set_baud, build}
use fuji_iot.Serial.Setup.Configuration.{IsFlags}
use fuji_iot.Serial.Setup.Calls.{Asks, build-Asks}

-- The flag of c_cflag at each position.
unfoldable pub owner : ℕ → ℕ
owner k =
    if k == 11
    then 1
    else if k == 7
    then 2
    else if k == 4
    then 3
    else if k == 5
    then 3
    else if k == 6
    then 4
    else if k == 9
    then 5
    else if k == 30
    then 6
    else if k == 8
    then 7
    else if k == 31
    then 8
    else if k == 12
    then 9
    else if k == 0
    then 9
    else if k == 1
    then 9
    else if k == 2
    then 9
    else if k == 3
    then 9
    else 0

abbrev pub linux : TtyFlags
linux = record {
  clocal = λ k. owner k == 1;
  cread = λ k. owner k == 2;
  csize = λ k. owner k == 3;
  cs8 = λ k. owner k == 3;
  cstopb = λ k. owner k == 4;
  parodd = λ k. owner k == 5;
  cmspar = λ k. owner k == 6;
  parenb = λ k. owner k == 7;
  crtscts = λ k. owner k == 8;
  cbaud = λ k. owner k == 9;
  bother = λ k. k == 12;
  icanon = λ k. k == 1;
  echo = λ k. k == 3;
  echoe = λ k. k == 4;
  echok = λ k. k == 5;
  echonl = λ k. k == 6;
  isig = λ k. k == 0;
  iexten = λ k. k == 15;
  opost = λ k. k == 0;
  onlcr = λ k. k == 2;
  ocrnl = λ k. k == 3;
  inlcr = λ k. k == 6;
  igncr = λ k. k == 7;
  icrnl = λ k. k == 8;
  ignbrk = λ k. k == 0;
  iuclc = λ k. k == 9;
  parmrk = λ k. k == 3;
  inpck = λ k. k == 4;
  istrip = λ k. k == 5;
  ixon = λ k. k == 10;
  ixoff = λ k. k == 12;
  ixany = λ k. k == 11;
  vmin = 6;
  vtime = 5;
}

pub linux-IsFlags : IsFlags linux owner
unfolding owner
linux-IsFlags = record {
  clocal_owner = λ k. refl;
  cread_owner = λ k. refl;
  csize_owner = λ k. refl;
  cstopb_owner = λ k. refl;
  parodd_owner = λ k. refl;
  cmspar_owner = λ k. refl;
  parenb_owner = λ k. refl;
  crtscts_owner = λ k. refl;
  cs8_owner = λ k e. ground arith;
  two_entries = λ e. omega arith;
}

-- A machine with one device, which keeps what it is given.
abbrev machine : Tty Termios2
machine = record {
  open_device = λ name w. (pos 3, w);
  lock_device = λ n w. (pos 0, w);
  get_attributes = λ n w. (pos 0, w.modes, w);
  set_attributes = λ n tty w. (pos 0, record w { modes = tty });
  get_speed = λ n w. (pos 0, w, w);
  set_speed = λ n tio w. (pos 0, tio);
  set_blocking = λ n w. (pos 0, w);
}

-- A device at 9600 baud whose flags are all set.
abbrev pub fresh : Termios2
fresh = record {
  modes = record {
    c_iflag = λ k. true;
    c_oflag = λ k. true;
    c_cflag = λ k. true;
    c_lflag = λ k. true;
    c_cc = λ k. 1;
  };
  c_ispeed = 9600;
  c_ospeed = 9600;
}

-- The same device behind the set-up.
abbrev pub ready : Termios2
ready = set_baud linux (record fresh { modes = configure linux fresh.modes })

build_ready : build machine linux "/dev/ttyAMA1" fresh ≡ done (pos 3, ready)
unfolding build
build_ready = refl

build-Asks_example : (false ≡ false) × (pos 3 ≡ pos 3) × Asks machine linux (pos 3) fresh ready
build-Asks_example =
    build-Asks machine linux owner "/dev/ttyAMA1" fresh ready (pos 3) linux-IsFlags build_ready
