-- ===== src/Client/Requests.antt =====
-- What a request of the command line client can ask of the controller.
use Prim.Native.String.{String}
use fuji_iot.Base.{◌≢◌, ℕ, ◌≤◌, ◌≡◌, refl, Bool, true, false, ◌⊎◌, inl, arith, if◌then◌else◌}
use fuji_iot.Types.{Mode, Fan}
use fuji_iot.Controller.{
  AcUnitState, ProtoMode, ProtoFan, Controller, ℤ, pos, begin_update, is_zero, u8_of_ℤ, negsuc,
}
use fuji_iot.State.{set_enabled, set_mode, set_fan, set_temperature}
use fuji_iot.Client.{request_mode, request_fan, Flags, run_client, request_setpoint}
use fuji_iot.Controller.Update.{begin_update-Granted, begin_update-Keeps}

pub setpoint_cases :
    (z : ℤ)
    → (is_zero (request_setpoint z) ≡ true)
      ⊎ ((is_zero (request_setpoint z) ≡ false)
          × (18 ≤ u8_of_ℤ (request_setpoint z))
          × (u8_of_ℤ (request_setpoint z) ≤ 28))
unfolding request_setpoint
setpoint_cases (pos n) = ground arith
setpoint_cases (negsuc n) = inl refl

granted_within :
    (zero? : Bool) (t old asked : ℕ)
    → t ≡ (if zero? then t else asked)
    → (zero? ≡ true → t ≡ old)
    → (zero? ≡ true) ⊎ ((zero? ≡ false) × (18 ≤ asked) × (asked ≤ 28))
    → (t ≡ old) ⊎ ((18 ≤ t) × (t ≤ 28))
granted_within zero? t old asked g k c = ground arith

-- Whatever the flags, a request of the command line client leaves the controller's local
-- temperature as it was or puts it between 18 and 28.
pub run_client_temperature :
    (c : Controller) (flags : Flags)
    → let t = (begin_update c (run_client flags)).client.ac_state.temperature in
      (t ≡ c.client.ac_state.temperature) ⊎ ((18 ≤ t) × (t ≤ 28))
unfolding run_client
run_client_temperature c flags =
    let u = run_client flags in
    granted_within (is_zero (request_setpoint flags.setpoint)) _ c.client.ac_state.temperature _
      (begin_update-Granted c u).temperature_granted (begin_update-Keeps c u).temperature_kept
      (setpoint_cases flags.setpoint)

request_mode-ne-auto : (flag : String) → request_mode flag ≢ ProtoMode.mode_auto
unfolding request_mode
request_mode-ne-auto flag = ground arith

request_fan-ne-auto : (flag : String) → request_fan flag ≢ ProtoFan.fan_auto
unfolding request_fan
request_fan-ne-auto flag = ground arith

-- A request that does not ask for AUTO does not lead to it.
begin_update-limited :
    (c : Controller) (u : AcUnitState)
    → u.mode ≢ ProtoMode.mode_auto
    → u.fan ≢ ProtoFan.fan_auto
    → let s = c.client.ac_state in
      let a = (begin_update c u).client.ac_state in
      ((a.mode ≡ s.mode) ⊎ (a.mode ≢ Mode.auto)) × ((a.fan ≡ s.fan) ⊎ (a.fan ≢ Fan.auto))
unfolding begin_update set_enabled set_mode set_fan set_temperature
begin_update-limited c u m f = (ground arith, ground arith)

-- What the command line client can do to the controller, whatever its flags: its request leaves the
-- local temperature as it was or puts it between 18 and 28, leaves the mode as it was or puts it to
-- another than AUTO, and leaves the fan as it was or puts it to another than AUTO.
pub run_client_limits :
    (c : Controller) (flags : Flags)
    → let s = c.client.ac_state in
      let a = (begin_update c (run_client flags)).client.ac_state in
      ((a.temperature ≡ s.temperature) ⊎ ((18 ≤ a.temperature) × (a.temperature ≤ 28)))
      × ((a.mode ≡ s.mode) ⊎ (a.mode ≢ Mode.auto))
      × ((a.fan ≡ s.fan) ⊎ (a.fan ≢ Fan.auto))
unfolding run_client
run_client_limits c flags =
    let (mode, fan) =
      begin_update-limited c (run_client flags) (request_mode-ne-auto flags.mode)
        (request_fan-ne-auto flags.fan) in
    (run_client_temperature c flags, mode, fan)
