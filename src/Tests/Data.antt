-- ===== src/Tests/Data.antt =====
-- Frames and objects for the theorems' instances.
use fuji_iot.Base.{true, false, refl, arith}
use fuji_iot.Base.Bytes.{Bytes5, IsBytes5, IsBytes8}
use fuji_iot.Frame
use fuji_iot.Frame.{MasterFrame, ControllerFrame, empty_frame}
use fuji_iot.State.{AcState, initial_state}
use fuji_iot.Handler.{Handler, new_handler}
use fuji_iot.Handler.Protocol.{IsStatus}
use fuji_iot.Controller.{Controller}
use fuji_iot.Controller.Written.{IsLogin}
use fuji_iot.Tests.Golden.Replay.{frame8}

abbrev pub some_bytes : Bytes5
some_bytes = record { b0 = 0x46; b1 = 0x12; b2 = 0xa0; b3 = 0x01; b4 = 0x20 }

pub some_bytes-IsBytes5 : IsBytes5 some_bytes
some_bytes-IsBytes5 = omega arith

abbrev pub status_mf : MasterFrame
status_mf = record { bytes = frame8 0x00 0xa0 0x00 0x46 0x12 0xa0 0x01 0x20 }

abbrev pub login_mf : MasterFrame
login_mf = record { bytes = frame8 0x00 0xa0 0x20 0x1f 0x1f 0x05 0x01 0x00 }

abbrev pub error_mf : MasterFrame
error_mf = record { bytes = frame8 0x00 0xa0 0x10 0x00 0x00 0x00 0x00 0x00 }

pub status_mf-IsBytes8 : IsBytes8 status_mf.bytes
status_mf-IsBytes8 = omega arith

pub status_mf-IsStatus : IsStatus status_mf
unfolding Frame.destination Frame.destination_of Frame.register_type Frame.type_of
status_mf-IsStatus = record { for_us = refl; holds_status = refl }

pub login_mf-IsLogin : IsLogin login_mf
unfolding Frame.destination Frame.destination_of Frame.register_type Frame.type_of
login_mf-IsLogin = record { for_us = refl; holds_login = refl }

-- A registered handler, with nothing to write.
abbrev pub quiet : Handler
quiet = record (new_handler initial_state) { login_read = false }

-- A handler with a change to write.
abbrev pub changed_state : AcState
changed_state = record (initial_state) { temperature = 22; enabled = true; merged = false }

abbrev pub changed : Handler
changed = record { ac_state = changed_state; error_read = false; login_read = false }

-- The same with a login still to be sent, and with a step of the flap to ask for.
abbrev pub changed_early : Handler
changed_early = record { ac_state = changed_state; error_read = false; login_read = true }

abbrev pub stepping : Handler
stepping = record {
  ac_state = record (changed_state) { swing_step = true };
  error_read = false;
  login_read = false;
}

abbrev pub updating : Controller
updating = record { client = changed; last_frame = empty_frame; shutdown = false; ready = false }
