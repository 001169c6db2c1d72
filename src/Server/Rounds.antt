-- ===== src/Server/Rounds.antt =====
-- One round of the controller and the simulated unit that writes the local settings, and what a round
-- with an answer leads to.
use fuji_iot.Base.{◌≡◌, sym, ap, ◌∙◌, Bool, true, false, Option, some, arith, if◌then◌else◌}
use fuji_iot.Base.Bytes.{Bytes5, IsBytes5}
use fuji_iot.Register.View.{Status, view, view-set_update_magic}
use fuji_iot.Frame
use fuji_iot.Frame.{
  MasterFrame, ControllerFrame, RegisterType, DestinationAddr, master_payload, frame_eq,
}
use fuji_iot.Frame.Laws.{master_view, controller_view}
use fuji_iot.State.{AcState, build_status_register_response}
use fuji_iot.Handler.{blank_payload, Handler, handle_master_frame}
use fuji_iot.Handler.Replies.{settings_reply, view-status_frame_write}
use fuji_iot.Handler.Protocol.{IsStatus}
use fuji_iot.Handler.Delivery.{pending, write_frame, written, handle_unmerged_idle}
use fuji_iot.Sim
use fuji_iot.Sim.{take_settings, Sim, get_next_master_frame, push_controller_frame}
use fuji_iot.Sim.Laws.{
  answered, queried, IsValid, clear_step, polled, get_next_master_frame-view,
  get_next_master_frame-polled, view-clear_step, clear_step-IsBytes5,
}
use fuji_iot.Sim.Push.{push-settings}
use fuji_iot.Controller.{Controller, settle, do_loop_round}
use fuji_iot.Server.{SimService, cycle, write_controller_frame}

-- The unit answers with its status, to a controller that it has registered.
pub record IsSettled (s : SimService) : Type 0 where
  pub sim_valid : IsValid s.sim
  pub sim_status : s.sim.next_query_register ≡ RegisterType.status
  pub idle : pending s.controller.client ≡ 0

pub next_IsStatus :
    (s : Sim)
    → IsValid s
    → s.next_query_register ≡ RegisterType.status
    → IsStatus (get_next_master_frame s).1
unfolding master_view
next_IsStatus s h q = record {
  for_us = ap (λ v. v.destination) (get_next_master_frame-view s h);
  holds_status = ap (λ v. v.register_type) (get_next_master_frame-view s h) ∙ ap answered q;
}

pub next_payload :
    (s : Sim)
    → IsValid s
    → s.next_query_register ≡ RegisterType.status
    → master_payload (get_next_master_frame s).1 ≡ clear_step (Sim.status s)
unfolding master_view
next_payload s h q =
    ap (λ v. v.payload) (get_next_master_frame-view s h) ∙ ap (λ t. Frame.tail_of (queried t s)) q

-- A round in which the handler answers.
pub cycle_reply :
    (s : SimService) (h : Handler) (cf : ControllerFrame)
    → handle_master_frame s.controller.client (get_next_master_frame s.sim).1 ≡ (h, some cf)
    → cycle s ≡ record {
      controller = record (s.controller) {
        client = h;
        ready = if frame_eq cf s.controller.last_frame then true else s.controller.ready;
        last_frame = cf;
      };
      sim = push_controller_frame (get_next_master_frame s.sim).0 cf;
    }
unfolding cycle do_loop_round settle
cycle_reply s h cf e =
    ap
      (λ (r : Handler × Option ControllerFrame).
        let round = settle s.controller r in
        let service : SimService = record {
          controller = round.0;
          sim = write_controller_frame (get_next_master_frame s.sim).0 round.1;
        } in
        service)
      e

-- The status register behind a poll.
abbrev pub polled_view : Status → Status
polled_view v = record v { swing_step = false; update_magic = 10 }

pub view-polled :
    (r : Bytes5) → IsBytes5 r → view (polled RegisterType.status r) ≡ polled_view (view r)
view-polled r h =
    view-set_update_magic (clear_step r) 10 (clear_step-IsBytes5 r h) (omega arith)
    ∙ ap (λ (v : Status). record v { update_magic = 10 }) (view-clear_step r h)

-- The status register of the unit behind a round that sends a state's settings.
abbrev pub after_reply : Bool → AcState → Bytes5 → Bytes5
after_reply write a r =
    let p = polled RegisterType.status r in
    if write then take_settings p (build_status_register_response a blank_payload) else p

pub sim_after :
    (s : Sim) (cf : ControllerFrame) (write : Bool) (a : AcState)
    → s.next_query_register ≡ RegisterType.status
    → controller_view cf ≡ settings_reply false write a
    → push_controller_frame (get_next_master_frame s).0 cf
      ≡ Sim.with_status s (after_reply write a (Sim.status s))
sim_after s cf write a q e =
    let r = after_reply write a (Sim.status s) in
    ap (λ (x : Sim). push_controller_frame x cf)
      (get_next_master_frame-polled s
        ∙ ap (λ (t : RegisterType). Sim.with_status s (polled t (Sim.status s))) q)
    ∙ push-settings (Sim.with_status s (polled RegisterType.status (Sim.status s))) cf write a e
    ∙ ap (λ (t : RegisterType). Sim.with_status (record s { next_query_register = t }) r) (sym q)

-- A round whose answer holds a state's settings.
pub cycle_settings :
    (s : SimService) (h : Handler) (cf : ControllerFrame) (write : Bool) (a : AcState)
    → s.sim.next_query_register ≡ RegisterType.status
    → controller_view cf ≡ settings_reply false write a
    → handle_master_frame s.controller.client (get_next_master_frame s.sim).1 ≡ (h, some cf)
    → cycle s ≡ record {
      controller = record (s.controller) {
        client = h;
        ready = if frame_eq cf s.controller.last_frame then true else s.controller.ready;
        last_frame = cf;
      };
      sim = Sim.with_status (s.sim) (after_reply write a (Sim.status s.sim));
    }
cycle_settings s h cf write a q v e =
    cycle_reply s h cf e
    ∙ ap
        (λ (x : Sim).
          let service : SimService = record {
            controller = record (s.controller) {
              client = h;
              ready = if frame_eq cf s.controller.last_frame then true else s.controller.ready;
              last_frame = cf;
            };
            sim = x;
          } in
          service)
        (sim_after s.sim cf write a q v)

-- The controller behind an answer.
abbrev pub answered_with : Controller → Handler → ControllerFrame → Controller
answered_with c h cf = record c {
  client = h;
  ready = if frame_eq cf c.last_frame then true else c.ready;
  last_frame = cf;
}

-- The answer that writes the settings.
pub write_reply :
    (s : SimService)
    → IsSettled s
    → s.controller.client.ac_state.merged ≡ false
    → let h = s.controller.client in
      handle_master_frame h (get_next_master_frame s.sim).1
      ≡ (record h { ac_state = written h.ac_state }, some (write_frame h.ac_state))
write_reply s h m =
    handle_unmerged_idle s.controller.client _ m h.idle
      (next_IsStatus s.sim h.sim_valid h.sim_status)

-- One round in which the controller writes its settings.
pub cycle_write :
    (s : SimService)
    → IsSettled s
    → s.controller.client.ac_state.merged ≡ false
    → let h = s.controller.client in
      cycle s ≡ record {
        controller =
            answered_with
              (s.controller)
              (record h { ac_state = written h.ac_state })
              (write_frame h.ac_state);
        sim = Sim.with_status (s.sim) (after_reply true h.ac_state (Sim.status s.sim));
      }
cycle_write s h m =
    cycle_settings s _ _ true s.controller.client.ac_state h.sim_status
      (view-status_frame_write s.controller.client.ac_state) (write_reply s h m)
