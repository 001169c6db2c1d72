-- ===== src/Debug.antt =====
-- The texts for the log: ToString of protocol/fuji_types.cc and protocol/fuji_frame.cc, and DebugInfo
-- of protocol/fuji_register.cc and protocol/fuji_frame.cc. std::to_string is a parameter.
pub mod Names
use Prim.Native.String.{String, ◌++◌}
use fuji_iot.Base.{ℕ, Bool, true, false, if◌then◌else◌}
use fuji_iot.Base.Bytes.{Bytes5, of_bool}
use fuji_iot.Types.{Mode, Fan}
use fuji_iot.Register
use fuji_iot.Frame.{
  MasterFrame, ControllerFrame, DestinationAddr, RegisterType, unknown_bit, destination,
  register_type, master_payload, query_register, login_bit, write_bit, controller_payload,
}

unfoldable pub mode_text : Mode → String
mode_text Mode.unknown = "UNKNOWN"
mode_text Mode.fan = "FAN"
mode_text Mode.dry = "DRY"
mode_text Mode.cool = "COOL"
mode_text Mode.heat = "HEAT"
mode_text Mode.auto = "AUTO"

unfoldable pub fan_text : Fan → String
fan_text Fan.auto = "AUTO"
fan_text Fan.low = "LOW"
fan_text Fan.medium = "MEDIUM"
fan_text Fan.high = "HIGH"
fan_text Fan.max = "MAX"
fan_text Fan.unknown = "UNKNOWN"

unfoldable pub destination_text : DestinationAddr → String
destination_text DestinationAddr.other = "OTHER"
destination_text DestinationAddr.wired_controller_addr = "WIRED_CONTROLLER_ADDR"
destination_text DestinationAddr.unknown = "UNKNOWN"

unfoldable pub type_text : RegisterType → String
type_text RegisterType.status = "STATUS"
type_text RegisterType.error = "ERROR"
type_text RegisterType.login = "LOGIN"
type_text RegisterType.unknown = "UNKNOWN"

unfoldable pub flag_text : Bool → String
flag_text b = if b then "true" else "false"

module _ (to_string : ℕ → String) where
  unfoldable pub payload_text : Bytes5 → String
  payload_text p =
      " Payload: "
      ++ to_string p.b0
      ++ " "
      ++ to_string p.b1
      ++ " "
      ++ to_string p.b2
      ++ " "
      ++ to_string p.b3
      ++ " "
      ++ to_string p.b4

  -- FujiStatusRegister::DebugInfo.
  unfoldable pub register_info : Bytes5 → String
  unfolding mode_text fan_text
  register_info r =
      " Mode: "
      ++ mode_text (Register.mode r)
      ++ " Fan: "
      ++ fan_text (Register.fan r)
      ++ " Enabled: "
      ++ to_string (of_bool (Register.enabled r))
      ++ " Error: "
      ++ to_string (of_bool (Register.error r))
      ++ " Economy: "
      ++ to_string (of_bool (Register.economy r))
      ++ " Temperature: "
      ++ to_string (Register.temperature r)
      ++ " Swing: "
      ++ to_string (of_bool (Register.swing r))
      ++ " Swing step: "
      ++ to_string (of_bool (Register.swing_step r))
      ++ " Controller present: "
      ++ to_string (of_bool (Register.controller_present r))
      ++ " Update magic: "
      ++ to_string (Register.update_magic r)

  -- The switch of FujiMasterFrame::DebugInfo; its first case falls through.
  unfoldable pub master_details : RegisterType → Bytes5 → String
  unfolding register_info payload_text
  master_details RegisterType.status p = " Status register: " ++ register_info p ++ payload_text p
  master_details _ p = payload_text p

  unfoldable pub master_info : MasterFrame → String
  unfolding master_details type_text destination_text flag_text
  master_info f =
      "Register type: "
      ++ type_text (register_type f)
      ++ " Unknown bit: "
      ++ flag_text (unknown_bit f)
      ++ " Destination: "
      ++ destination_text (destination f)
      ++ master_details (register_type f) (master_payload f)

  unfoldable pub controller_info : ControllerFrame → String
  unfolding payload_text type_text flag_text
  controller_info f =
      "Query register: "
      ++ type_text (query_register f)
      ++ " Login bit: "
      ++ flag_text (login_bit f)
      ++ " Write bit: "
      ++ flag_text (write_bit f)
      ++ payload_text (controller_payload f)
