-- ===== src/Client.antt =====
-- controller/fuji_ac_controller_client.cc: the command line client.
pub mod Requests
pub mod Wanted
pub mod Delivery
use text.Mathlib.Text.{◌==◌ as str_eq}
use Prim.Native.String.{String}
use fuji_iot.Base.{ℕ, Option, none, some, Bool, true, false, ◌&&◌, if◌then◌else◌, leb}
use fuji_iot.Controller.{ℤ, pos, negsuc, AcUnitState, ProtoMode, ProtoFan}

-- The flags --mode, --fan and --setpoint.
pub record Flags : Type 0 where
  pub mode : String
  pub fan : String
  pub setpoint : ℤ

unfoldable pub request_mode : String → ProtoMode
request_mode flag =
    if str_eq flag "off"
    then ProtoMode.mode_off
    else if str_eq flag "cool"
    then ProtoMode.mode_cool
    else if str_eq flag "dry"
    then ProtoMode.mode_dry
    else if str_eq flag "fan"
    then ProtoMode.mode_fan
    else if str_eq flag "heat"
    then ProtoMode.mode_heat
    else ProtoMode.mode_unknown

unfoldable pub request_fan : String → ProtoFan
request_fan flag =
    if str_eq flag "low"
    then ProtoFan.fan_low
    else if str_eq flag "medium"
    then ProtoFan.fan_medium
    else if str_eq flag "high"
    then ProtoFan.fan_high
    else if str_eq flag "max"
    then ProtoFan.fan_max
    else ProtoFan.fan_unknown

abbrev pub in_range : ℤ → Bool
in_range (pos n) = leb 18 n && leb n 28
in_range (negsuc n) = false

unfoldable pub request_setpoint : ℤ → ℤ
request_setpoint flag = if in_range flag then flag else pos 0

-- The request of RunClient; a field that is not set has the default of its type.
unfoldable pub run_client : Flags → AcUnitState
unfolding request_mode request_fan request_setpoint
run_client flags = record {
  mode = request_mode flags.mode;
  fan = request_fan flags.fan;
  setpoint_temperature = request_setpoint flags.setpoint;
}

-- What RunClient logs: the response, or that there is none.
pub data ClientLog : Type 0 where
  response_status : AcUnitState → ClientLog
  failed_to_send : ClientLog

-- RunClient, for the end of the call: `status.ok()` with the response, or no response.
unfoldable pub log_response : Option AcUnitState → ClientLog
log_response (some response) = ClientLog.response_status response
log_response none = ClientLog.failed_to_send

-- The whole of RunClient; stub->Update is a parameter on a state of the world.
unfoldable pub run_client_call :
    {W : Type 0} → (AcUnitState → W → Option AcUnitState × W) → Flags → W → ClientLog × W
unfolding run_client log_response
run_client_call update flags w =
    let (answer, w') = update (run_client flags) w in (log_response answer, w')
