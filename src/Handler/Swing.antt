-- ===== src/Handler/Swing.antt =====
-- FujiAcProtocolHandler::SendStatusFrame and the single step of the swing flap.
use fuji_iot.Base.{◌<◌, ◌≡◌, ap, ◌∙◌, true, false, not, Option, some}
use fuji_iot.Register.View.{Status, view}
use fuji_iot.Frame
use fuji_iot.Frame.{MasterFrame, ControllerFrame}
use fuji_iot.Frame.Laws.{controller_view}
use fuji_iot.State.{AcState}
use fuji_iot.State.Laws.{with_settings}
use fuji_iot.Handler.{Handler, handle_master_frame}
use fuji_iot.Handler.Replies.{view-status_frame_write, view-settings, blank_status}
use fuji_iot.Handler.Protocol.{IsStatus}
use fuji_iot.Handler.Delivery.{pending, write_frame, written, handle_unmerged_idle}

-- The settings that a write asks for.
abbrev pub settings : ControllerFrame → Status
settings f = view (Frame.controller_payload f)

pub settings-write_frame :
    (a : AcState) → a.temperature < 128 → settings (write_frame a) ≡ with_settings a blank_status
unfolding controller_view
settings-write_frame a t = ap (λ v. view v.payload) (view-status_frame_write a) ∙ view-settings a t

-- A swing step is asked for once: with a local change that asks for a swing step, a temperature
-- below 128 and no query pending, two STATUS frames for the wired controller are answered by two
-- frames, of which the first holds the settings with the swing step and the second the same
-- settings without it, and afterwards the state is merged and asks for no swing step.
pub swing_step_once :
    (h : Handler) (f g : MasterFrame)
    → h.ac_state.merged ≡ false
    → h.ac_state.swing_step ≡ true
    → h.ac_state.temperature < 128
    → pending h ≡ 0
    → IsStatus f
    → IsStatus g
    → let (h₁, first) = handle_master_frame h f in
      let (h₂, second) = handle_master_frame h₁ g in
      (cf₁ : ControllerFrame) × (cf₂ : ControllerFrame) × (first ≡ some cf₁)
      × (second ≡ some cf₂)
      × (settings cf₁ ≡ with_settings h.ac_state blank_status)
      × (settings cf₂ ≡ record (with_settings h.ac_state blank_status) { swing_step = false })
      × (h₂ ≡ record h { ac_state = record (h.ac_state) { swing_step = false; merged = true } })
swing_step_once h f g m w t z p q =
    let a = h.ac_state in
    let h₁ : Handler = record h { ac_state = written a } in
    let e₁ = handle_unmerged_idle h f m z p in
    let e₂ =
      ap (λ (r : Handler × Option ControllerFrame). handle_master_frame r.0 g) e₁
      ∙ handle_unmerged_idle h₁ g (ap not w) z q in
    (
      write_frame a,
      write_frame (written a),
      ap (λ (r : Handler × Option ControllerFrame). r.1) e₁,
      ap (λ (r : Handler × Option ControllerFrame). r.1) e₂,
      settings-write_frame a t,
      settings-write_frame (written a) t,
      ap (λ (r : Handler × Option ControllerFrame). r.0) e₂,
    )
