-- ===== src/State.antt =====
-- protocol/fuji_ac_state.h and .cc: the local state of the AC unit. A method that changes the object
-- returns the new one; the getters are the fields.
pub mod Laws
use fuji_iot.Base.{ℕ, Bool, true, false, not, if◌then◌else◌, ◌==◌}
use fuji_iot.Base.Bytes.{Bytes5}
use fuji_iot.Types.{Mode, Fan, mode_code}
use fuji_iot.Register

pub record AcState : Type 0 where
  pub mode : Mode
  pub enabled : Bool
  pub fan : Fan
  pub error_flag : Bool
  pub controller_present : Bool
  pub economy : Bool
  pub temperature : ℕ
  pub swing : Bool
  pub swing_step : Bool
  pub merged : Bool

-- The initial values of the members.
abbrev pub initial_state : AcState
initial_state = record {
  mode = Mode.auto;
  enabled = false;
  fan = Fan.auto;
  error_flag = false;
  controller_present = false;
  economy = false;
  temperature = 20;
  swing = false;
  swing_step = false;
  merged = true;
}

unfoldable pub set_mode : AcState → Mode → AcState
set_mode s v = record s { mode = v; merged = false }

unfoldable pub set_enabled : AcState → Bool → AcState
set_enabled s v = record s { enabled = v; merged = false }

unfoldable pub set_fan : AcState → Fan → AcState
set_fan s v = record s { fan = v; merged = false }

unfoldable pub set_error_flag : AcState → Bool → AcState
set_error_flag s v = record s { error_flag = v; merged = false }

unfoldable pub set_economy : AcState → Bool → AcState
set_economy s v = record s { economy = v; merged = false }

unfoldable pub set_temperature : AcState → ℕ → AcState
set_temperature s v = record s { temperature = v; merged = false }

unfoldable pub set_swing : AcState → Bool → AcState
set_swing s v = record s { swing = v; merged = false }

unfoldable pub set_swing_step : AcState → Bool → AcState
set_swing_step s v = record s { swing_step = v; merged = false }

unfoldable pub set_controller_present : AcState → Bool → AcState
set_controller_present s v = record s { controller_present = v; merged = false }

unfoldable pub set_merged : AcState → Bool → AcState
set_merged s v = record s { merged = v }

-- Fills the five bytes of a register from the state.
unfoldable pub build_status_register_response : AcState → Bytes5 → Bytes5
build_status_register_response s status0 =
    let status1 = Register.set_enabled status0 s.enabled in
    let status2 = Register.set_mode status1 s.mode in
    let status3 = Register.set_fan status2 s.fan in
    let status4 =
      if not (mode_code s.mode == mode_code Mode.fan)
      then Register.set_temperature (Register.set_economy status3 s.economy) s.temperature
      else status3 in
    let status5 = Register.set_swing status4 s.swing in Register.set_swing_step status5 s.swing_step

-- Takes the main unit's register over into the state.
unfoldable pub merge_from_master_status_register : AcState → Bytes5 → AcState
unfolding set_enabled set_mode set_fan set_economy set_temperature set_swing set_error_flag
    set_controller_present
merge_from_master_status_register s0 status =
    let s1 = set_enabled s0 (Register.enabled status) in
    let s2 = set_mode s1 (Register.mode status) in
    let s3 = set_fan s2 (Register.fan status) in
    let s4 = set_economy s3 (Register.economy status) in
    let s5 = set_temperature s4 (Register.temperature status) in
    let s6 = set_swing s5 (Register.swing status) in
    let s7 = set_error_flag s6 (Register.error status) in
    let s8 = set_controller_present s7 (Register.controller_present status) in
    record s8 { merged = true }
