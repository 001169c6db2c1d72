-- ===== src/Controller/Update.antt =====
-- What Update asks of the local state.
use fuji_iot.Base.{◌≡◌, ◌≢◌, refl, Bool, true, false, arith, ◌⊎◌, if◌then◌else◌}
use fuji_iot.Types.{Mode, Fan}
use fuji_iot.State.{AcState, set_enabled, set_mode, set_fan, set_temperature}
use fuji_iot.Controller.{
  Controller, AcUnitState, ProtoMode, ProtoFan, is_zero, u8_of_ℤ, begin_update,
}

-- The request sets at least one of its fields.
abbrev pub Asks : AcUnitState → Type 0
Asks u =
    (u.mode ≢ ProtoMode.mode_unknown)
    ⊎ (u.fan ≢ ProtoFan.fan_unknown)
    ⊎ (is_zero u.setpoint_temperature ≡ false)

-- A mode and a switch of the unit are as a requested mode says.
abbrev pub ModeGranted : ProtoMode → Bool → Mode → Type 0
ModeGranted ProtoMode.mode_unknown on m = Unit {0}
ModeGranted ProtoMode.mode_off on m = on ≡ false
ModeGranted ProtoMode.mode_auto on m = (on ≡ true) × (m ≡ Mode.auto)
ModeGranted ProtoMode.mode_cool on m = (on ≡ true) × (m ≡ Mode.cool)
ModeGranted ProtoMode.mode_heat on m = (on ≡ true) × (m ≡ Mode.heat)
ModeGranted ProtoMode.mode_dry on m = (on ≡ true) × (m ≡ Mode.dry)
ModeGranted ProtoMode.mode_fan on m = (on ≡ true) × (m ≡ Mode.fan)

abbrev pub FanGranted : ProtoFan → Fan → Type 0
FanGranted ProtoFan.fan_unknown f = Unit {0}
FanGranted ProtoFan.fan_auto f = f ≡ Fan.auto
FanGranted ProtoFan.fan_max f = f ≡ Fan.max
FanGranted ProtoFan.fan_high f = f ≡ Fan.high
FanGranted ProtoFan.fan_medium f = f ≡ Fan.medium
FanGranted ProtoFan.fan_low f = f ≡ Fan.low

pub record Granted (u : AcUnitState) (s : AcState) : Type 0 where
  pub mode_granted : ModeGranted u.mode s.enabled s.mode
  pub fan_granted : FanGranted u.fan s.fan
  pub temperature_granted :
      s.temperature
      ≡ (if is_zero u.setpoint_temperature then s.temperature else u8_of_ℤ u.setpoint_temperature)

-- What a request leaves alone.
pub record Keeps (u : AcUnitState) (s t : AcState) : Type 0 where
  pub mode_kept : u.mode ≡ ProtoMode.mode_unknown → (t.enabled ≡ s.enabled) × (t.mode ≡ s.mode)
  pub fan_kept : u.fan ≡ ProtoFan.fan_unknown → t.fan ≡ s.fan
  pub temperature_kept : is_zero u.setpoint_temperature ≡ true → t.temperature ≡ s.temperature
  pub economy_kept : t.economy ≡ s.economy
  pub swing_kept : t.swing ≡ s.swing
  pub swing_step_kept : t.swing_step ≡ s.swing_step
  pub error_flag_kept : t.error_flag ≡ s.error_flag
  pub present_kept : t.controller_present ≡ s.controller_present

pub begin_update-merged :
    (c : Controller) (u : AcUnitState) → Asks u → (begin_update c u).client.ac_state.merged ≡ false
unfolding begin_update set_enabled set_mode set_fan set_temperature
begin_update-merged c u h = ground arith

begin_update-ModeGranted :
    (c : Controller) (u : AcUnitState) (m : ProtoMode)
    → u.mode ≡ m
    → ModeGranted m
        (begin_update c u).client.ac_state.enabled
        (begin_update c u).client.ac_state.mode
unfolding begin_update set_enabled set_mode set_fan set_temperature
begin_update-ModeGranted c u ProtoMode.mode_unknown e = tt
begin_update-ModeGranted c u ProtoMode.mode_off e = ground arith
begin_update-ModeGranted c u _ e = ground arith

begin_update-FanGranted :
    (c : Controller) (u : AcUnitState) (m : ProtoFan)
    → u.fan ≡ m
    → FanGranted m (begin_update c u).client.ac_state.fan
unfolding begin_update set_enabled set_mode set_fan set_temperature
begin_update-FanGranted c u ProtoFan.fan_unknown e = tt
begin_update-FanGranted c u _ e = ground arith

pub begin_update-Granted :
    (c : Controller) (u : AcUnitState) → Granted u (begin_update c u).client.ac_state
unfolding begin_update set_enabled set_mode set_fan set_temperature
begin_update-Granted c u = record {
  mode_granted = begin_update-ModeGranted c u u.mode refl;
  fan_granted = begin_update-FanGranted c u u.fan refl;
  temperature_granted = ground arith;
}

pub begin_update-Keeps :
    (c : Controller) (u : AcUnitState)
    → Keeps u c.client.ac_state (begin_update c u).client.ac_state
unfolding begin_update set_enabled set_mode set_fan set_temperature
begin_update-Keeps c u = record {
  mode_kept = λ e. (ground arith, ground arith);
  fan_kept = λ e. ground arith;
  temperature_kept = λ e. ground arith;
  economy_kept = ground arith;
  swing_kept = ground arith;
  swing_step_kept = ground arith;
  error_flag_kept = ground arith;
  present_kept = ground arith;
}
