-- ===== src/Controller.antt =====
-- controller/fuji_ac_controller.h, .cc and .proto: the daemon's controller object. `state_` points to
-- the state that the handler owns, so it is `client.ac_state` here.
pub mod Update
pub mod Ready
pub mod Written
use fuji_iot.Base.{
  ℕ, Bool, true, false, not, Option, none, some, if◌then◌else◌, ◌==◌, ◌-◌, ◌%◌, suc, ◌||◌,
}
use fuji_iot.Types.{Mode, Fan}
use fuji_iot.Frame.{MasterFrame, ControllerFrame, empty_frame, frame_eq}
use fuji_iot.State.{AcState, initial_state, set_enabled, set_mode, set_fan, set_temperature}
use fuji_iot.Handler.{Handler, new_handler, handle_master_frame}

-- proto::Mode. A number that the enumeration does not name, which proto3 lets a request carry, takes the
-- default branch of every switch, as mode_unknown does.
pub data ProtoMode : Type 0 where
  mode_unknown mode_fan mode_dry mode_cool mode_heat mode_auto mode_off : ProtoMode

-- proto::Fan, of which the same holds for fan_unknown.
pub data ProtoFan : Type 0 where
  fan_unknown fan_auto fan_low fan_medium fan_high fan_max : ProtoFan

-- An int32.
pub data ℤ : Type 0 where
  pos : ℕ → ℤ
  negsuc : ℕ → ℤ

-- The conversion of an int32 to uint8_t.
abbrev pub u8_of_ℤ : ℤ → ℕ
u8_of_ℤ (pos n) = n % 256
u8_of_ℤ (negsuc n) = 255 - n % 256

abbrev pub is_zero : ℤ → Bool
is_zero (pos n) = n == 0
is_zero (negsuc n) = false

-- proto::ACUnitState.
pub record AcUnitState : Type 0 where
  pub mode : ProtoMode
  pub fan : ProtoFan
  pub setpoint_temperature : ℤ

pub record Controller : Type 0 where
  pub client : Handler
  pub last_frame : ControllerFrame
  pub shutdown : Bool
  pub ready : Bool

-- MakeFujiAcController.
unfoldable pub make_controller : Controller
make_controller = record {
  client = new_handler initial_state;
  last_frame = empty_frame;
  shutdown = false;
  ready = false;
}

-- The two switches of Update, and the test on the temperature.
unfoldable pub update_mode : ProtoMode → AcState → AcState
update_mode ProtoMode.mode_off s = set_enabled s false
update_mode ProtoMode.mode_auto s = set_mode (set_enabled s true) Mode.auto
update_mode ProtoMode.mode_cool s = set_mode (set_enabled s true) Mode.cool
update_mode ProtoMode.mode_heat s = set_mode (set_enabled s true) Mode.heat
update_mode ProtoMode.mode_dry s = set_mode (set_enabled s true) Mode.dry
update_mode ProtoMode.mode_fan s = set_mode (set_enabled s true) Mode.fan
update_mode ProtoMode.mode_unknown s = s

unfoldable pub update_fan : ProtoFan → AcState → AcState
update_fan ProtoFan.fan_auto s = set_fan s Fan.auto
update_fan ProtoFan.fan_max s = set_fan s Fan.max
update_fan ProtoFan.fan_high s = set_fan s Fan.high
update_fan ProtoFan.fan_medium s = set_fan s Fan.medium
update_fan ProtoFan.fan_low s = set_fan s Fan.low
update_fan ProtoFan.fan_unknown s = s

unfoldable pub update_temperature : ℤ → AcState → AcState
update_temperature t s = if not (is_zero t) then set_temperature s (u8_of_ℤ t) else s

-- Update up to its wait for `ready_`.
unfoldable pub begin_update : Controller → AcUnitState → Controller
unfolding update_mode update_fan update_temperature
begin_update c new_state =
    let s = c.client.ac_state in
    let s1 = update_mode new_state.mode s in
    let s2 = update_fan new_state.fan s1 in
    let s3 = update_temperature new_state.setpoint_temperature s2 in
    record c { client = record (c.client) { ac_state = s3 }; ready = false }

unfoldable pub proto_mode : Mode → ProtoMode
proto_mode Mode.auto = ProtoMode.mode_auto
proto_mode Mode.cool = ProtoMode.mode_cool
proto_mode Mode.dry = ProtoMode.mode_dry
proto_mode Mode.fan = ProtoMode.mode_fan
proto_mode Mode.heat = ProtoMode.mode_heat
proto_mode Mode.unknown = ProtoMode.mode_unknown

unfoldable pub proto_fan : Fan → ProtoFan
proto_fan Fan.auto = ProtoFan.fan_auto
proto_fan Fan.max = ProtoFan.fan_max
proto_fan Fan.high = ProtoFan.fan_high
proto_fan Fan.medium = ProtoFan.fan_medium
proto_fan Fan.low = ProtoFan.fan_low
proto_fan Fan.unknown = ProtoFan.fan_unknown

-- GetStatus behind its wait for `ready_`.
unfoldable pub read_status : Controller → AcUnitState
unfolding proto_mode proto_fan
read_status c =
    let s = c.client.ac_state in
    record {
      mode = if s.enabled then proto_mode s.mode else ProtoMode.mode_off;
      fan = proto_fan s.fan;
      setpoint_temperature = pos s.temperature;
    }

-- What DoLoop does with the handler's answer: the frame that it writes to the serial interface, if
-- any, becomes the last one.
unfoldable pub settle :
    Controller → Handler × Option ControllerFrame → Controller × Option ControllerFrame
settle c (h, none) = (record c { client = h }, none)
settle c (h, some cf) = (
  record c {
    client = h;
    ready = if frame_eq cf c.last_frame then true else c.ready;
    last_frame = cf;
  },
  some cf,
)

-- The part of DoLoop under the lock, for a frame that was read.
unfoldable pub process_frame : Controller → MasterFrame → Controller × Option ControllerFrame
unfolding settle
process_frame c mf = settle c (handle_master_frame c.client mf)

-- One round of DoLoop.
unfoldable pub do_loop_round : Controller → Option MasterFrame → Controller × Option ControllerFrame
unfolding process_frame
do_loop_round c none = (c, none)
do_loop_round c (some mf) = process_frame c mf
