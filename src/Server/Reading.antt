-- ===== src/Server/Reading.antt =====
-- One round of the controller and the simulated unit that reads the unit's settings.
use fuji_iot.Base.{◌≡◌, ap, ◌∙◌, true, false, Option, some, arith}
use fuji_iot.Register.View.{Status, view}
use fuji_iot.Frame.{MasterFrame, ControllerFrame, master_payload}
use fuji_iot.State.Laws.{with_status}
use fuji_iot.Handler.{Handler, handle_master_frame, status_frame}
use fuji_iot.Handler.Replies.{view-status_frame}
use fuji_iot.Handler.Protocol.{IsStatus, handle_read}
use fuji_iot.Handler.Delivery.{pending}
use fuji_iot.Sim
use fuji_iot.Sim.{take_settings, Sim, get_next_master_frame, push_controller_frame}
use fuji_iot.Sim.Laws.{status-IsBytes5, view-clear_step}
use fuji_iot.Server.{SimService, cycle}
use fuji_iot.Server.Rounds.{
  IsSettled, next_IsStatus, next_payload, after_reply, cycle_settings, answered_with,
}

-- The handler's answer to a status register `v`, whose swing step is cleared on the way.
pub handle_polled :
    (h : Handler) (f : MasterFrame) (v : Status)
    → h.ac_state.merged ≡ true
    → pending h ≡ 0
    → IsStatus f
    → view (master_payload f) ≡ record v { swing_step = false }
    → v.controller_present ≡ true
    → v.error ≡ h.ac_state.error_flag
    → handle_master_frame h f ≡ (
      record h { ac_state = with_status v h.ac_state },
      some (status_frame (with_status v h.ac_state)),
    )
handle_polled h f v m z p q c e =
    handle_read h f m (ground arith) (ground arith) p (ap (λ w. w.controller_present) q ∙ c)
      (ap (λ w. w.error) q ∙ e)
    ∙ ap
        (λ (w : Status).
          let r : Handler × Option ControllerFrame = (
            record h { ac_state = with_status w h.ac_state },
            some (status_frame (with_status w h.ac_state)),
          ) in
          r)
        q

-- The answer to the unit's settings, when they are taken over.
pub read_reply :
    (s : SimService)
    → IsSettled s
    → s.controller.client.ac_state.merged ≡ true
    → (view (Sim.status s.sim)).controller_present ≡ true
    → (view (Sim.status s.sim)).error ≡ s.controller.client.ac_state.error_flag
    → let h = s.controller.client in
      let a = with_status (view (Sim.status s.sim)) h.ac_state in
      handle_master_frame h (get_next_master_frame s.sim).1
      ≡ (record h { ac_state = a }, some (status_frame a))
read_reply s h m p e =
    handle_polled s.controller.client (get_next_master_frame s.sim).1 (view (Sim.status s.sim)) m
      h.idle (next_IsStatus s.sim h.sim_valid h.sim_status)
      (ap view (next_payload s.sim h.sim_valid h.sim_status)
        ∙ view-clear_step _ (status-IsBytes5 s.sim h.sim_valid))
      p e

-- One round in which the controller takes the unit's settings over.
pub cycle_read :
    (s : SimService)
    → IsSettled s
    → s.controller.client.ac_state.merged ≡ true
    → (view (Sim.status s.sim)).controller_present ≡ true
    → (view (Sim.status s.sim)).error ≡ s.controller.client.ac_state.error_flag
    → let h = s.controller.client in
      let a = with_status (view (Sim.status s.sim)) h.ac_state in
      cycle s ≡ record {
        controller = answered_with (s.controller) (record h { ac_state = a }) (status_frame a);
        sim = Sim.with_status (s.sim) (after_reply false a (Sim.status s.sim));
      }
cycle_read s h m p e =
    let a = with_status (view (Sim.status s.sim)) s.controller.client.ac_state in
    cycle_settings s _ _ false a h.sim_status (view-status_frame a) (read_reply s h m p e)
