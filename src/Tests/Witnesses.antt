-- ===== src/Tests/Witnesses.antt =====
-- The theorems about registers, frames, states and the handler, at concrete inputs.
use fuji_iot.Base.{◌≡◌, refl, true, false, some, List, [], ◌∷◌, arith}
use fuji_iot.Types.{Mode}
use fuji_iot.Register
use fuji_iot.Register.View.{view, set_temperature_wide}
use fuji_iot.Register.Writes.{Write, apply_all, view-apply_all}
use fuji_iot.Frame
use fuji_iot.Frame.{MasterFrame, ControllerFrame, DestinationAddr, RegisterType, empty_frame}
use fuji_iot.Frame.Laws.{master_view, controller_view, master_setters, controller_setters}
use fuji_iot.State.{build_status_register_response}
use fuji_iot.State.Laws.{with_settings, view-build}
use fuji_iot.Handler.{handle_master_frame, send_logged_in_frame}
use fuji_iot.Handler.Replies.{blank_status}
use fuji_iot.Handler.Protocol.{IsStatus, handle_local_precedence}
use fuji_iot.Handler.Delivery.{write_frame, handle_all, write_after_pending, pending}
use fuji_iot.Handler.Swing.{settings, swing_step_once}
use fuji_iot.Handler.Shape.{IsReply, handle-IsReply, handle_write_only}
use fuji_iot.Tests.Golden.Replay.{frame8, replay_all}
use fuji_iot.Tests.Data.{
  some_bytes, some_bytes-IsBytes5, status_mf, login_mf, status_mf-IsBytes8, status_mf-IsStatus,
  quiet, changed, changed_early, changed_state, stepping,
}

abbrev two_writes : List Write
two_writes = Write.mode Mode.heat ∷ Write.temperature 25 ∷ []

view-apply_all_example :
    view (apply_all two_writes some_bytes)
    ≡ record (view some_bytes) { mode = Mode.heat; temperature = 25 }
view-apply_all_example =
    view-apply_all two_writes some_bytes some_bytes-IsBytes5 (tt, (omega arith, tt))

set_temperature_wide_example :
    view (Register.set_temperature some_bytes 200)
    ≡ record (view some_bytes) { temperature = 72; economy = true }
set_temperature_wide_example =
    set_temperature_wide some_bytes 200 some_bytes-IsBytes5 (omega arith) (omega arith)

master_setters_example :
    (master_view (Frame.with_unknown_bit status_mf false)
      ≡ record (master_view status_mf) { unknown_bit = false })
    × (master_view (Frame.with_destination status_mf DestinationAddr.other)
        ≡ record (master_view status_mf) { destination = DestinationAddr.other })
    × (master_view (Frame.with_type status_mf RegisterType.error)
        ≡ record (master_view status_mf) { register_type = RegisterType.error })
master_setters_example =
    master_setters status_mf false DestinationAddr.other RegisterType.error status_mf-IsBytes8

controller_setters_example :
    let f : ControllerFrame = record { bytes = status_mf.bytes } in
    (controller_view (Frame.with_query_register f RegisterType.login)
      ≡ record (controller_view f) { query_register = RegisterType.login })
    × (controller_view (Frame.with_login_bit f true)
        ≡ record (controller_view f) { login_bit = true })
    × (controller_view (Frame.with_write_bit f true)
        ≡ record (controller_view f) { write_bit = true })
    × (controller_view (Frame.with_payload f some_bytes)
        ≡ record (controller_view f) { payload = some_bytes })
controller_setters_example =
    controller_setters (record { bytes = status_mf.bytes }) RegisterType.login true true some_bytes
      status_mf-IsBytes8

view-build_example :
    view (build_status_register_response changed_state some_bytes)
    ≡ with_settings changed_state (view some_bytes)
view-build_example = view-build changed_state some_bytes some_bytes-IsBytes5 (omega arith)

handle_local_precedence_example :
    handle_master_frame changed status_mf
    ≡ handle_master_frame changed
        (record { bytes = frame8 0x00 0xa0 0x00 0x47 0x16 0xa0 0x01 0x20 })
unfolding replay_all
handle_local_precedence_example =
    handle_local_precedence changed status_mf
      (record { bytes = frame8 0x00 0xa0 0x00 0x47 0x16 0xa0 0x01 0x20 }) refl status_mf-IsStatus
      (record { for_us = refl; holds_status = refl })

write_after_pending_example :
    (handle_master_frame (handle_all changed_early (status_mf ∷ [])) status_mf).1
    ≡ some (write_frame changed_state)
write_after_pending_example =
    write_after_pending (status_mf ∷ []) changed_early status_mf refl refl (status_mf-IsStatus, tt)
      status_mf-IsStatus

swing_step_once_example :
    (cf₁ : ControllerFrame) × (cf₂ : ControllerFrame) × ((handle_master_frame stepping status_mf).1
      ≡ some cf₁)
    × ((handle_master_frame (handle_master_frame stepping status_mf).0 status_mf).1 ≡ some cf₂)
    × (settings cf₁ ≡ with_settings stepping.ac_state blank_status)
    × (settings cf₂ ≡ record (with_settings stepping.ac_state blank_status) { swing_step = false })
    × ((handle_master_frame (handle_master_frame stepping status_mf).0 status_mf).0
        ≡ record stepping {
          ac_state = record (stepping.ac_state) { swing_step = false; merged = true };
        })
swing_step_once_example =
    swing_step_once stepping status_mf status_mf refl refl (omega arith) refl status_mf-IsStatus
      status_mf-IsStatus

handle-IsReply_example : IsReply (send_logged_in_frame quiet)
unfolding replay_all
handle-IsReply_example = handle-IsReply quiet login_mf (send_logged_in_frame quiet) refl

handle_write_only_example :
    IsStatus status_mf
    × (changed_state.merged ≡ false)
    × (pending changed ≡ 0)
    × (write_frame changed_state ≡ write_frame changed_state)
unfolding replay_all Frame.write_bit
handle_write_only_example =
    handle_write_only changed status_mf (write_frame changed_state) refl refl
