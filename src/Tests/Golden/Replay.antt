-- ===== src/Tests/Golden/Replay.antt =====
-- How a test of the protocol handler runs: ExpectResponse, ExpectNull, and the calls between them.
use fuji_iot.Base.{ℕ, Bool, true, false, Option, none, some, List, [], ◌∷◌, ◌&&◌}
use fuji_iot.Base.Bytes.{Bytes8, bytes_eq}
use fuji_iot.Register
use fuji_iot.Register.Layout.{extract_bits, insert_bits}
use fuji_iot.Frame
use fuji_iot.Frame.{MasterFrame, ControllerFrame}
use fuji_iot.State
use fuji_iot.State.{AcState}
use fuji_iot.Handler.{
  Handler, handle_master_frame, dispatch, respond, send_status_frame, status_frame,
  send_login_frame, send_error_query_frame, send_logged_in_frame,
  update_from_master_status_register, update_from_master_error_register,
}

abbrev pub frame8 : ℕ → ℕ → ℕ → ℕ → ℕ → ℕ → ℕ → ℕ → Bytes8
frame8 a b c d e f g h = record { d0 = a; d1 = b; d2 = c; d3 = d; d4 = e; d5 = f; d6 = g; d7 = h }

pub data Event : Type 0 where
  answers : Bytes8 → Bytes8 → Event
  silent : Bytes8 → Event
  change : (AcState → AcState) → Event
  check : (AcState → Bool) → Event
  no_login : Event

abbrev is_frame : Bytes8 → Option ControllerFrame → Bool
is_frame b none = false
is_frame b (some f) = bytes_eq f.bytes b

abbrev is_nothing : Option ControllerFrame → Bool
is_nothing none = true
is_nothing (some f) = false

-- The handler behind an event, and whether the test's expectation is met.
abbrev run_event : Handler → Event → Handler × Bool
run_event h (answers mf resp) =
    let r = handle_master_frame h (record { bytes = mf }) in (r.0, is_frame resp r.1)
run_event h (silent mf) =
    let r = handle_master_frame h (record { bytes = mf }) in (r.0, is_nothing r.1)
run_event h (change f) = (record h { ac_state = f h.ac_state }, true)
run_event h (check p) = (h, p h.ac_state)
run_event h no_login = (record h { login_read = false }, true)

unfoldable pub replay : Handler → List Event → Bool
replay h [] = true
replay h (e ∷ es) = let r = run_event h e in r.1 && replay r.0 es

-- All that a replay computes with.
unfoldable pub replay_all : Handler → List Event → Bool
unfolding replay handle_master_frame dispatch respond send_status_frame status_frame
    send_login_frame send_error_query_frame send_logged_in_frame update_from_master_status_register
    update_from_master_error_register bytes_eq extract_bits insert_bits Frame.destination
    Frame.destination_of Frame.register_type Frame.type_of Frame.master_payload Frame.empty_frame
    Frame.with_payload Frame.with_query_register Frame.with_write_bit Frame.with_login_bit
    State.build_status_register_response State.merge_from_master_status_register State.set_merged
    State.set_mode State.set_enabled State.set_fan State.set_economy State.set_temperature
    State.set_swing State.set_swing_step Register.mode_of Register.fan_of Register.set_mode
    Register.mode Register.set_enabled Register.enabled Register.set_fan Register.fan Register.error
    Register.set_economy Register.economy Register.set_temperature Register.temperature
    Register.set_swing Register.swing Register.set_swing_step Register.controller_present
replay_all = replay
