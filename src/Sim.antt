-- ===== src/Sim.antt =====
-- sim/fuji_ac_unit_sim.h and .cc: the simulated main unit. `status_` of the source points to the last
-- five bytes of `status_register_`; here these bytes are read and written in place.
pub mod Laws
pub mod Push
use fuji_iot.Base.{ℕ, Bool, true, false, not, ◌&&◌, if◌then◌else◌, ◌==◌}
use fuji_iot.Base.Bytes.{Bytes5, Bytes8}
use fuji_iot.Types.{Mode, Fan, mode_code}
use fuji_iot.Register
use fuji_iot.Frame.{
  MasterFrame, ControllerFrame, DestinationAddr, RegisterType, type_code, tail_of, with_tail,
  with_type, with_unknown_bit, with_destination, query_register, login_bit, write_bit,
  controller_payload,
}

pub record Sim : Type 0 where
  pub status_register : Bytes8
  pub error_register : Bytes8
  pub login_register : Bytes8
  pub next_query_register : RegisterType

-- The constructor.
abbrev pub new_sim : Sim
new_sim = record {
  status_register = record {
    d0 = 0x00;
    d1 = 0x00;
    d2 = 0x00;
    d3 = 0x46;
    d4 = 0x12;
    d5 = 0xa0;
    d6 = 0x00;
    d7 = 0x20;
  };
  error_register = record {
    d0 = 0x00;
    d1 = 0x00;
    d2 = 0x10;
    d3 = 0x00;
    d4 = 0x00;
    d5 = 0x00;
    d6 = 0x00;
    d7 = 0x00;
  };
  login_register = record {
    d0 = 0x00;
    d1 = 0x00;
    d2 = 0x20;
    d3 = 0x1f;
    d4 = 0x1f;
    d5 = 0x05;
    d6 = 0x01;
    d7 = 0x00;
  };
  next_query_register = RegisterType.status;
}

-- The bytes behind `status_`.
abbrev pub status : Sim → Bytes5
status s = tail_of s.status_register

-- A setter called through `status_`.
abbrev pub with_status : Sim → Bytes5 → Sim
with_status s r = record s { status_register = with_tail s.status_register r }

-- The switch of GetNextMasterFrame: the sim and the copy of the register that it answers with.
unfoldable pub answer : RegisterType → Sim → Sim × MasterFrame
answer RegisterType.error s =
    (s, with_type (record { bytes = s.error_register }) RegisterType.error)
answer RegisterType.login s =
    (s, with_type (record { bytes = s.login_register }) RegisterType.login)
answer _ s =
    let s' =
      if Register.swing_step (status s)
      then with_status s (Register.set_swing_step (status s) false)
      else s in
    (s', with_type (record { bytes = s'.status_register }) RegisterType.status)

unfoldable pub get_next_master_frame : Sim → Sim × MasterFrame
get_next_master_frame s =
    let (s', resp) = answer s.next_query_register s in
    let resp' =
      with_destination (with_unknown_bit resp true) DestinationAddr.wired_controller_addr in
    (with_status s' (Register.set_update_magic (status s') 10), resp')

-- What a write does to the bytes behind `status_`.
unfoldable pub take_settings : Bytes5 → Bytes5 → Bytes5
take_settings r0 payload =
    let r1 = Register.set_enabled r0 (Register.enabled payload) in
    let r2 = Register.set_mode r1 (Register.mode payload) in
    let r3 = Register.set_fan r2 (Register.fan payload) in
    let r4 = Register.set_economy r3 (Register.economy payload) in
    let r5 = Register.set_swing r4 (Register.swing payload) in
    let r6 = Register.set_swing_step r5 (Register.swing_step payload) in
    if not (mode_code (Register.mode payload) == mode_code Mode.fan)
    then Register.set_update_magic (Register.set_temperature r6 (Register.temperature payload)) 0
    else Register.set_update_magic (Register.set_temperature r6 18) 4

unfoldable pub push_controller_frame : Sim → ControllerFrame → Sim
push_controller_frame s frame =
    let s1 =
      if not (type_code (query_register frame) == type_code RegisterType.unknown)
      then record s { next_query_register = query_register frame }
      else s in
    let s2 =
      if login_bit frame
      then with_status s1 (Register.set_controller_present (status s1) true)
      else s1 in
    if (type_code (query_register frame) == type_code RegisterType.status) && write_bit frame
    then with_status s2 (take_settings (status s2) (controller_payload frame))
    else s2

-- Update(): the mark of a change by the remote control.
unfoldable pub update : Sim → Sim
update s = with_status s (Register.set_update_magic (status s) 4)

unfoldable pub set_enabled : Sim → Bool → Sim
unfolding update
set_enabled s v = update (with_status s (Register.set_enabled (status s) v))

unfoldable pub set_temperature : Sim → ℕ → Sim
unfolding update
set_temperature s v = update (with_status s (Register.set_temperature (status s) v))

unfoldable pub set_fan : Sim → Fan → Sim
unfolding update
set_fan s v = update (with_status s (Register.set_fan (status s) v))

unfoldable pub set_mode : Sim → Mode → Sim
unfolding update
set_mode s v = update (with_status s (Register.set_mode (status s) v))

unfoldable pub set_economy : Sim → Bool → Sim
unfolding update
set_economy s v = update (with_status s (Register.set_economy (status s) v))

unfoldable pub set_swing : Sim → Bool → Sim
unfolding update
set_swing s v = update (with_status s (Register.set_swing (status s) v))

unfoldable pub set_swing_step : Sim → Bool → Sim
unfolding update
set_swing_step s v = update (with_status s (Register.set_swing_step (status s) v))

-- The getters, which read through `status_`.
unfoldable pub enabled : Sim → Bool
enabled s = Register.enabled (status s)

unfoldable pub temperature : Sim → ℕ
temperature s = Register.temperature (status s)

unfoldable pub fan : Sim → Fan
fan s = Register.fan (status s)

unfoldable pub mode : Sim → Mode
mode s = Register.mode (status s)

unfoldable pub economy : Sim → Bool
economy s = Register.economy (status s)

unfoldable pub swing : Sim → Bool
swing s = Register.swing (status s)

unfoldable pub swing_step : Sim → Bool
swing_step s = Register.swing_step (status s)

unfoldable pub controller_present : Sim → Bool
controller_present s = Register.controller_present (status s)
