-- ===== src/Handler.antt =====
-- protocol/fuji_ac_protocol_handler.h and .cc: the wired controller's side of the protocol. The
-- handler owns its FujiAcState; a method returns the new handler.
use fuji_iot.Base.{ℕ, Bool, true, false, not, Option, none, some, if◌then◌else◌, ◌==◌}
pub mod Replies
pub mod Protocol
pub mod Delivery
pub mod Swing
pub mod Shape
pub mod Rules
use fuji_iot.Base.Bytes.{Bytes5}
use fuji_iot.Register
use fuji_iot.Frame.{
  MasterFrame, ControllerFrame, DestinationAddr, RegisterType, destination_code, destination,
  register_type, master_payload, empty_frame, with_payload, with_query_register, with_write_bit,
  with_login_bit,
}
use fuji_iot.State.{
  AcState, set_swing_step, set_merged, build_status_register_response,
  merge_from_master_status_register,
}

pub record Handler : Type 0 where
  pub ac_state : AcState
  pub error_read : Bool
  pub login_read : Bool

-- The constructor.
abbrev pub new_handler : AcState → Handler
new_handler s = record { ac_state = s; error_read = false; login_read = true }

-- `a != b` on bool.
abbrev pub differ : Bool → Bool → Bool
differ true b = not b
differ false b = b

unfoldable pub send_login_frame : ControllerFrame
send_login_frame = with_query_register empty_frame RegisterType.login

unfoldable pub send_error_query_frame : ControllerFrame
send_error_query_frame = with_query_register empty_frame RegisterType.error

-- payload.fill(0); payload[3] = 47.
abbrev pub blank_payload : Bytes5
blank_payload = record { b0 = 0; b1 = 0; b2 = 0; b3 = 47; b4 = 0 }

unfoldable pub status_frame : AcState → ControllerFrame
status_frame s =
    let f = with_payload empty_frame (build_status_register_response s blank_payload) in
    with_query_register f RegisterType.status

unfoldable pub send_status_frame : Handler → Handler × ControllerFrame
send_status_frame h =
    let s = h.ac_state in
    let f = status_frame s in
    if not s.merged
    then (if s.swing_step
        then (
          record h { ac_state = set_merged (set_swing_step s false) false },
          with_write_bit f true,
        )
        else (record h { ac_state = set_merged s true }, with_write_bit f true))
    else (h, f)

unfoldable pub send_logged_in_frame : Handler → ControllerFrame
send_logged_in_frame h =
    let f = with_login_bit empty_frame true in
    let f' = with_payload f (build_status_register_response h.ac_state blank_payload) in
    with_query_register f' RegisterType.status

unfoldable pub update_from_master_status_register : Handler → MasterFrame → Handler
update_from_master_status_register h master_frame =
    let payload = master_payload master_frame in
    let h1 =
      if differ h.ac_state.error_flag (Register.error payload)
      then record h { error_read = true }
      else h in
    let s = merge_from_master_status_register h1.ac_state payload in
    let h2 = record h1 { ac_state = s } in
    if not s.controller_present then record h2 { login_read = true } else h2

-- It does nothing yet.
unfoldable pub update_from_master_error_register : Handler → MasterFrame → Handler
update_from_master_error_register h master_frame = h

-- The part of HandleMasterFrame behind the switch.
unfoldable pub respond : Handler → Handler × Option ControllerFrame
respond h =
    if h.login_read
    then (record h { login_read = false }, some send_login_frame)
    else if h.error_read
    then (record h { error_read = false }, some send_error_query_frame)
    else let (h', f) = send_status_frame h in (h', some f)

-- The switch on the register type; the error case falls through to the default.
unfoldable pub dispatch : RegisterType → Handler → MasterFrame → Handler × Option ControllerFrame
dispatch RegisterType.status h f =
    respond (if h.ac_state.merged then update_from_master_status_register h f else h)
dispatch RegisterType.login h f = (h, some (send_logged_in_frame h))
dispatch RegisterType.error h f = (update_from_master_error_register h f, none)
dispatch RegisterType.unknown h f = (h, none)

unfoldable pub handle_master_frame : Handler → MasterFrame → Handler × Option ControllerFrame
handle_master_frame h master_frame =
    if not (
      destination_code (destination master_frame)
      == destination_code DestinationAddr.wired_controller_addr)
    then (h, none)
    else dispatch (register_type master_frame) h master_frame
