-- ===== src/Handler/Replies.antt =====
-- The frames that the handler sends, as the main unit reads them.
use fuji_iot.Base.{◌<◌, ◌≡◌, refl, ap, ◌∙◌, Bool, true, false, arith}
use fuji_iot.Base.Bytes.{Bytes5, IsBytes5}
use fuji_iot.Register
use fuji_iot.Register.View.{Status, view}
use fuji_iot.Frame.{
  login_bit, write_bit, query_of, RegisterType, empty_frame, with_payload, with_query_register,
  with_login_bit, with_write_bit,
}
use fuji_iot.Types.{Mode, Fan}
use fuji_iot.Register.Layout.{extract_bits}
use fuji_iot.Frame.Laws.{ControllerView, controller_view}
use fuji_iot.State.{AcState, build_status_register_response}
use fuji_iot.State.Laws.{with_settings, view-build}
use fuji_iot.Handler.{
  Handler, blank_payload, send_login_frame, send_error_query_frame, status_frame,
  send_logged_in_frame,
}

abbrev pub zero_payload : Bytes5
zero_payload = record { b0 = 0; b1 = 0; b2 = 0; b3 = 0; b4 = 0 }

-- The query for a register, with nothing in it.
abbrev pub query_for : RegisterType → ControllerView
query_for t = record {
  login_bit = false;
  write_bit = false;
  query_register = t;
  payload = zero_payload;
}

-- The answer to a status frame: whether it is to be taken over, and the settings.
abbrev pub settings_reply : Bool → Bool → AcState → ControllerView
settings_reply login write s = record {
  login_bit = login;
  write_bit = write;
  query_register = RegisterType.status;
  payload = build_status_register_response s blank_payload;
}

pub view-send_login_frame : controller_view send_login_frame ≡ query_for RegisterType.login
unfolding controller_view send_login_frame with_query_register empty_frame query_of
view-send_login_frame = refl

pub view-send_error_query_frame :
    controller_view send_error_query_frame ≡ query_for RegisterType.error
unfolding controller_view send_error_query_frame with_query_register empty_frame query_of
view-send_error_query_frame = refl

pub view-status_frame :
    (s : AcState) → controller_view (status_frame s) ≡ settings_reply false false s
unfolding controller_view status_frame with_query_register with_payload empty_frame query_of
view-status_frame s = refl

pub view-status_frame_write :
    (s : AcState)
    → controller_view (with_write_bit (status_frame s) true) ≡ settings_reply false true s
unfolding controller_view status_frame with_query_register with_payload empty_frame query_of
    with_write_bit
view-status_frame_write s = refl

pub view-send_logged_in_frame :
    (h : Handler) → controller_view (send_logged_in_frame h) ≡ settings_reply true false h.ac_state
unfolding controller_view send_logged_in_frame with_query_register with_payload with_login_bit
    empty_frame query_of
view-send_logged_in_frame h = refl

pub blank_payload-IsBytes5 : IsBytes5 blank_payload
blank_payload-IsBytes5 = omega arith

-- The settings of the state, in a register that is else empty and says that the controller is present.
abbrev pub blank_status : Status
blank_status = record {
  mode = Mode.unknown;
  fan = Fan.auto;
  enabled = false;
  error = false;
  economy = false;
  temperature = 0;
  update_magic = 0;
  swing = false;
  swing_step = false;
  controller_present = true;
}

view-blank_payload : view blank_payload ≡ blank_status
unfolding view Register.mode_of Register.fan_of extract_bits
view-blank_payload = refl

pub view-settings :
    (s : AcState)
    → s.temperature < 128
    → view (build_status_register_response s blank_payload) ≡ with_settings s blank_status
view-settings s t =
    view-build s blank_payload blank_payload-IsBytes5 t
    ∙ ap (λ v. with_settings s v) view-blank_payload

pub write_bit-login : write_bit send_login_frame ≡ false
unfolding write_bit send_login_frame with_query_register empty_frame
write_bit-login = refl

pub write_bit-error_query : write_bit send_error_query_frame ≡ false
unfolding write_bit send_error_query_frame with_query_register empty_frame
write_bit-error_query = refl

pub write_bit-logged_in : (h : Handler) → write_bit (send_logged_in_frame h) ≡ false
unfolding write_bit send_logged_in_frame with_query_register with_payload with_login_bit empty_frame
write_bit-logged_in h = refl

pub login_bit-logged_in : (h : Handler) → login_bit (send_logged_in_frame h) ≡ true
unfolding login_bit send_logged_in_frame with_query_register with_payload with_login_bit empty_frame
login_bit-logged_in h = refl

pub write_bit-status : (s : AcState) → write_bit (status_frame s) ≡ false
unfolding write_bit status_frame with_query_register with_payload empty_frame
write_bit-status s = refl

pub write_bit-write : (s : AcState) → write_bit (with_write_bit (status_frame s) true) ≡ true
unfolding write_bit status_frame with_query_register with_payload empty_frame with_write_bit
write_bit-write s = refl
