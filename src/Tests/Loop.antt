-- ===== src/Tests/Loop.antt =====
-- The theorems about the controller, the unit, the service, the serial reader and the client, at
-- concrete inputs.
use fuji_iot.Types.{Mode, Fan}
use fuji_iot.Base.{◌≢◌, ℕ, ◌<◌, ◌≤◌, ◌≡◌, ◌⊎◌, refl, true, false, [], ◌∷◌, arith, suc}
use fuji_iot.Base.Bytes.{Bytes8}
use fuji_iot.Register.Layout.{extract_bits}
use fuji_iot.Register.View.{Status, view}
use fuji_iot.Frame
use fuji_iot.Frame.{ControllerFrame, RegisterType, DestinationAddr, master_payload}
use fuji_iot.Frame.Laws.{master_view}
use fuji_iot.State
use fuji_iot.State.{initial_state}
use fuji_iot.State.Laws.{with_status}
use fuji_iot.Handler.{send_logged_in_frame}
use fuji_iot.Handler.Delivery.{write_frame}
use fuji_iot.Sim
use fuji_iot.Sim.{Sim, new_sim, get_next_master_frame, take_settings}
use fuji_iot.Sim.Laws.{new_sim-IsValid, get_next_master_frame-view}
use fuji_iot.Sim.Push.{adopt, view-take_settings}
use fuji_iot.Controller.{
  ℤ, pos, negsuc, AcUnitState, ProtoMode, ProtoFan, make_controller, begin_update, read_status,
}
use fuji_iot.Controller.Ready.{Inv, here, next, request, Reach-Inv}
use fuji_iot.Controller.Written.{run_frames, Sent, ready_after_write, login_twice_ready}
use fuji_iot.Server.{SimService, new_sim_service, cycle}
use fuji_iot.Server.Convergence.{At}
use fuji_iot.Server.Login.{AtLogin}
use fuji_iot.Server.Registration.{with_controller, registers}
use fuji_iot.Serial.{write_controller_frame, read_master_frame}
use fuji_iot.Serial.Inversion.{
  complement, WriteEnds, ReadEnds, write_controller_frame-complement, read_master_frame-complement,
}
use fuji_iot.Client.{Flags, run_client}
use fuji_iot.Client.Requests.{run_client_limits}
use fuji_iot.Tests.Golden.Replay.{frame8, replay_all}
use fuji_iot.Tests.Data.{
  some_bytes, some_bytes-IsBytes5, status_mf, login_mf, login_mf-IsLogin, changed, changed_state,
  updating,
}

abbrev first_status : Status
first_status = view (Sim.status new_sim)

new-AtLogin : AtLogin new_sim_service initial_state first_status
unfolding make_controller
new-AtLogin = record {
  sim_valid = new_sim-IsValid;
  sim_status = refl;
  login_due = refl;
  no_error = refl;
  state = refl;
  seen = refl;
}

first_status_error : first_status.error ≡ false
unfolding view extract_bits
first_status_error = refl

abbrev booted : SimService
booted = cycle (cycle new_sim_service)

booted-At : At booted (with_status first_status initial_state) (with_controller first_status)
booted-At = registers new_sim_service initial_state first_status new-AtLogin refl first_status_error

abbrev cool_request : AcUnitState
cool_request = record {
  mode = ProtoMode.mode_cool;
  fan = ProtoFan.fan_unknown;
  setpoint_temperature = pos 22;
}

cool_temperature : (begin_update booted.controller cool_request).client.ac_state.temperature < 128
unfolding begin_update State.set_temperature
cool_temperature = omega arith

get_next_master_frame-view_example : master_view (get_next_master_frame new_sim).1 ≡ record {
  unknown_bit = true;
  destination = DestinationAddr.wired_controller_addr;
  register_type = RegisterType.status;
  payload = record { b0 = 0x46; b1 = 0x12; b2 = 0xa0; b3 = 0x00; b4 = 0x20 };
}
unfolding replay_all Sim.answer fuji_iot.Register.swing_step
get_next_master_frame-view_example = get_next_master_frame-view new_sim new_sim-IsValid

view-take_settings_example :
    view (take_settings some_bytes some_bytes) ≡ adopt (view some_bytes) (view some_bytes)
view-take_settings_example =
    view-take_settings some_bytes some_bytes some_bytes-IsBytes5 some_bytes-IsBytes5

Reach-Inv_example : Inv (begin_update make_controller cool_request)
Reach-Inv_example = Reach-Inv (next here (request make_controller cool_request))

updating-Inv : Inv updating
updating-Inv = record { login_next = λ e. cc; error_next = λ e. cc }

ready_after_write_example :
    Sent
      (write_frame changed_state)
      (run_frames updating (status_mf ∷ status_mf ∷ status_mf ∷ [])).1
unfolding replay_all run_frames fuji_iot.Controller.process_frame Frame.frame_eq
ready_after_write_example =
    ready_after_write (status_mf ∷ status_mf ∷ status_mf ∷ []) updating updating-Inv refl refl
      ((λ e. cc), ((λ e. cc), ((λ e. cc), tt))) refl

login_twice_ready_example :
    let (c', sent) = run_frames updating (login_mf ∷ login_mf ∷ []) in
    (c'.ready ≡ true)
    × (c'.client ≡ changed)
    × (sent ≡ send_logged_in_frame changed ∷ send_logged_in_frame changed ∷ [])
    × (Frame.write_bit (send_logged_in_frame changed) ≡ false)
login_twice_ready_example =
    login_twice_ready updating login_mf login_mf login_mf-IsLogin login_mf-IsLogin

-- A device that takes seven bytes of a frame.
abbrev short_write : Bytes8 → ℕ → ℤ × ℕ
short_write d w = (pos 7, suc w)

abbrev sent_frame : ControllerFrame
sent_frame = record { bytes = frame8 0x20 0x81 0x20 0x00 0x00 0x00 0x00 0x00 }

write_controller_frame-complement_example :
    WriteEnds
      (short_write (complement sent_frame.bytes) 0)
      (write_controller_frame short_write sent_frame 0)
write_controller_frame-complement_example =
    write_controller_frame-complement short_write sent_frame 0 (omega arith)

-- A device that gives the bytes of a frame at once.
abbrev whole_read : ℕ → ℤ × Bytes8 × ℕ
whole_read w = (pos 8, status_mf.bytes, w)

read_master_frame-complement_example :
    ReadEnds (pos 8) status_mf.bytes 0 (read_master_frame whole_read 0)
read_master_frame-complement_example = read_master_frame-complement whole_read 0 (omega arith)

abbrev flags : Flags
flags = record { mode = "cool"; fan = ""; setpoint = pos 25 }

run_client_limits_example :
    let a = (begin_update make_controller (run_client flags)).client.ac_state in
    ((a.temperature ≡ 20) ⊎ ((18 ≤ a.temperature) × (a.temperature ≤ 28)))
    × ((a.mode ≡ Mode.auto) ⊎ (a.mode ≢ Mode.auto))
    × ((a.fan ≡ Fan.auto) ⊎ (a.fan ≢ Fan.auto))
unfolding make_controller
run_client_limits_example = run_client_limits make_controller flags
