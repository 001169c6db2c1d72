-- ===== src/Serial/Setup/Calls.antt =====
-- The system calls of FujiAcSerialReader::Build, and what they ask the device for.
use Prim.Native.String.{String}
use mathlib.Core.Path.{subst}
use fuji_iot.Base.{ℕ, ◌≡◌, refl, sym, ap, Bool, true, false, if◌then◌else◌}
use fuji_iot.Controller.{ℤ}
use fuji_iot.Serial.{Outcome, done, fatal, is_negative}
use fuji_iot.Serial.Setup.{
  TtyFlags, Termios, Termios2, Tty, configure, set_baud, ◌>>=◌, checked, fetched, build,
}
use fuji_iot.Serial.Setup.Configuration.{
  IsFlags, RawModes, BaudRate, configure-RawModes, set_baud-BaudRate,
}

done_injective : {A : Type 0} (a b : A) → done a ≡ done b → a ≡ b
done_injective a b e = cc

module _ {W B : Type 0} where
  -- A test that ends the process, when the rest returns.
  test_bind :
      {A : Type 0} (failed : Bool) (a : A) (w : W) (rest : A → W → Outcome (B × W)) (r : B × W)
      → ((λ v. if failed then fatal else done (a, v)) >>= rest) w ≡ done r
      → (failed ≡ false) × (rest a w ≡ done r)
  test_bind true a w rest r e = cc
  test_bind false a w rest r e = (refl, e)

  -- A call with its check, when the rest of Build returns.
  checked_bind :
      (call : W → ℤ × W) (rest : ℤ → W → Outcome (B × W)) (w : W) (r : B × W)
      → (checked call >>= rest) w ≡ done r
      → (is_negative (call w).0 ≡ false) × (rest (call w).0 (call w).1 ≡ done r)
  unfolding checked
  checked_bind call rest w r e = test_bind (is_negative (call w).0) (call w).0 (call w).1 rest r e

  fetched_bind :
      {A : Type 0} (call : W → ℤ × A × W) (rest : A → W → Outcome (B × W)) (w : W) (r : B × W)
      → (fetched call >>= rest) w ≡ done r
      → (is_negative (call w).0 ≡ false) × (rest (call w).1 (call w).2 ≡ done r)
  unfolding fetched
  fetched_bind call rest w r e = test_bind (is_negative (call w).0) (call w).1 (call w).2 rest r e

module _ {W : Type 0} (t : Tty W) (f : TtyFlags) where
  -- The calls behind tcsetattr.
  pub record AsksSpeed (fd : ℤ) (speed : Termios2) (w w' : W) : Type 0 where
    pub read : is_negative (t.get_speed fd w).0 ≡ false
    pub speed_asked : BaudRate f (t.get_speed fd w).1 speed
    pub set : is_negative (t.set_speed fd speed (t.get_speed fd w).2).0 ≡ false
    pub read_again :
        is_negative (t.get_speed fd (t.set_speed fd speed (t.get_speed fd w).2).1).0 ≡ false
    pub blocking :
        let now = t.get_speed fd (t.set_speed fd speed (t.get_speed fd w).2).1 in
        is_negative (t.set_blocking fd now.2).0 ≡ false
    pub ended :
        let now = t.get_speed fd (t.set_speed fd speed (t.get_speed fd w).2).1 in
        w' ≡ (t.set_blocking fd now.2).1

  -- The calls of Build on a descriptor, none of which reports an error, and what they ask for.
  pub record Asks (fd : ℤ) (w w' : W) : Type 0 where
    pub modes : Termios
    pub speed : Termios2
    pub locked : is_negative (t.lock_device fd w).0 ≡ false
    pub read : is_negative (t.get_attributes fd (t.lock_device fd w).1).0 ≡ false
    pub modes_asked : RawModes f (t.get_attributes fd (t.lock_device fd w).1).1 modes
    pub set :
        let got = t.get_attributes fd (t.lock_device fd w).1 in
        is_negative (t.set_attributes fd modes got.2).0 ≡ false
    pub rest :
        let got = t.get_attributes fd (t.lock_device fd w).1 in
        AsksSpeed fd speed (t.set_attributes fd modes got.2).1 w'

  -- What Build asks of the system when it succeeds. Let every bit of c_cflag belong to one flag
  -- or field at most, with CS8 a value of CSIZE, and let VMIN and VTIME be different entries.
  -- Then, if Build returns a descriptor, it is the one that open gave, and no error; and on it,
  -- one after the other and without an error, came flock, tcgetattr, tcsetattr, the reading and
  -- the setting of the speed, its reading again, and fcntl, behind which the machine is as Build
  -- leaves it. The attributes that tcsetattr was asked to write are those that tcgetattr gave,
  -- but in c_cflag every bit of CLOCAL, CREAD, CS8 and PARENB is set and every other bit of
  -- CSIZE, CSTOPB, PARODD, CMSPAR and CRTSCTS is cleared, in the other words the listed flags are
  -- cleared, VMIN is 0 and VTIME 3. The speed that was asked for is 500 in both directions with
  -- BOTHER in place of CBAUD, and all else as it was read.
  pub build-Asks :
      (owner : ℕ → ℕ) (device_name : String) (w w' : W) (fd : ℤ)
      → IsFlags f owner
      → build t f device_name w ≡ done (fd, w')
      → (is_negative fd ≡ false)
        × ((t.open_device device_name w).0 ≡ fd)
        × Asks fd (t.open_device device_name w).1 w'
  unfolding build
  build-Asks owner device_name w w' fd flags e =
      let w1 = (t.open_device device_name w).1 in
      let n = (t.open_device device_name w).0 in
      let w2 = (t.lock_device n w1).1 in
      let got = t.get_attributes n w2 in
      let w4 = (t.set_attributes n (configure f got.1) got.2).1 in
      let speed = t.get_speed n w4 in
      let w6 = (t.set_speed n (set_baud f speed.1) speed.2).1 in
      let w7 = (t.get_speed n w6).2 in
      let (p1, e1) = checked_bind (t.open_device device_name) _ w (fd, w') e in
      let (p2, e2) = checked_bind (t.lock_device n) _ w1 (fd, w') e1 in
      let (p3, e3) = fetched_bind (t.get_attributes n) _ w2 (fd, w') e2 in
      let (p4, e4) = checked_bind (t.set_attributes n (configure f got.1)) _ got.2 (fd, w') e3 in
      let (p5, e5) = fetched_bind (t.get_speed n) _ w4 (fd, w') e4 in
      let (p6, e6) = checked_bind (t.set_speed n (set_baud f speed.1)) _ speed.2 (fd, w') e5 in
      let (p7, e7) = fetched_bind (t.get_speed n) _ w6 (fd, w') e6 in
      let (p8, e8) = checked_bind (t.set_blocking n) _ w7 (fd, w') e7 in
      let ended = done_injective _ _ e8 in
      let same = ap (λ (r : ℤ × W). r.0) ended in
      let calls : Asks n w1 w' = record {
        modes = configure f got.1;
        speed = set_baud f speed.1;
        locked = p2;
        read = p3;
        modes_asked = configure-RawModes f owner got.1 flags;
        set = p4;
        rest = record {
          read = p5;
          speed_asked = set_baud-BaudRate f speed.1;
          set = p6;
          read_again = p7;
          blocking = p8;
          ended = sym (ap (λ (r : ℤ × W). r.1) ended);
        };
      } in
      (subst (λ m. is_negative m ≡ false) same p1, same, subst (λ m. Asks m w1 w') same calls)
