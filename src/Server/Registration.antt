-- ===== src/Server/Registration.antt =====
-- The unit's login poll, and the answer that registers the controller.
use fuji_iot.Base.{[], ◌∷◌, ◌≡◌, refl, ap, ◌∙◌, true, false, arith}
use fuji_iot.Base.Bytes.{Bytes5, IsBytes5}
use fuji_iot.Register
use fuji_iot.Register.View.{Status, view, view-set_controller_present, view-set_update_magic}
use fuji_iot.Register.Writes.{Write, apply_all-IsBytes5, apply_all}
use fuji_iot.Frame.{RegisterType}
use fuji_iot.Frame.Laws.{master_view}
use fuji_iot.State.{AcState}
use fuji_iot.State.Laws.{with_status}
use fuji_iot.Handler.{send_login_frame, send_logged_in_frame}
use fuji_iot.Handler.Replies.{view-send_logged_in_frame}
use fuji_iot.Sim
use fuji_iot.Sim.{Sim, get_next_master_frame, push_controller_frame}
use fuji_iot.Sim.Laws.{
  IsValid, answered, polled, status-IsBytes5, polled-IsBytes5, get_next_master_frame-view,
  get_next_master_frame-polled,
}
use fuji_iot.Sim.Push.{push-logged_in}
use fuji_iot.Controller.Written.{IsLogin, handle_login}
use fuji_iot.Server.{SimService, cycle}
use fuji_iot.Server.Rounds.{cycle_reply, answered_with, view-polled}
use fuji_iot.Server.Convergence.{At, with_status-IsValid}
use fuji_iot.Server.Login.{AtLogin, queried_login, login_sent, login_round}

pub next_IsLogin :
    (s : Sim)
    → IsValid s
    → s.next_query_register ≡ RegisterType.login
    → IsLogin (get_next_master_frame s).1
unfolding master_view
next_IsLogin s h q = record {
  for_us = ap (λ v. v.destination) (get_next_master_frame-view s h);
  holds_login = ap (λ v. v.register_type) (get_next_master_frame-view s h) ∙ ap answered q;
}

-- The unit behind a login poll and the answer to it.
abbrev pub registered : Sim → Sim
registered s =
    Sim.with_status (record s { next_query_register = RegisterType.status })
      (Register.set_controller_present (polled RegisterType.login (Sim.status s)) true)

pub logged_in_round :
    (s : SimService)
    → IsValid s.sim
    → s.sim.next_query_register ≡ RegisterType.login
    → cycle s ≡ record {
      controller =
          answered_with
            (s.controller)
            s.controller.client
            (send_logged_in_frame s.controller.client);
      sim = registered s.sim;
    }
logged_in_round s h q =
    cycle_reply s _ (send_logged_in_frame s.controller.client)
      (handle_login s.controller.client _ (next_IsLogin s.sim h q))
    ∙ ap
        (λ (y : Sim).
          let r : SimService = record {
            controller =
                answered_with (s.controller) s.controller.client
                  (send_logged_in_frame s.controller.client);
            sim = y;
          } in
          r)
        (ap (λ (x : Sim). push_controller_frame x (send_logged_in_frame s.controller.client))
            (get_next_master_frame-polled s.sim
              ∙ ap (λ (t : RegisterType). Sim.with_status (s.sim) (polled t (Sim.status s.sim))) q)
          ∙ push-logged_in _ _ s.controller.client.ac_state
              (view-send_logged_in_frame s.controller.client))

pub set_controller_present-IsBytes5 :
    (r : Bytes5) → IsBytes5 r → IsBytes5 (Register.set_controller_present r true)
unfolding Register.set_controller_present apply_all
set_controller_present-IsBytes5 r h = apply_all-IsBytes5 (Write.controller_present true ∷ []) r h

-- A status register behind the registration.
abbrev pub with_controller : Status → Status
with_controller v = record v { swing_step = false; update_magic = 10; controller_present = true }

-- The status register behind the answer to a login poll.
pub view-logged_in :
    (r : Bytes5)
    → IsBytes5 r
    → view (Register.set_controller_present (polled RegisterType.login r) true)
      ≡ record (view r) { update_magic = 10; controller_present = true }
view-logged_in r h =
    view-set_controller_present (polled RegisterType.login r) true
      (polled-IsBytes5 RegisterType.login r h)
    ∙ ap (λ (w : Status). record w { controller_present = true })
        (view-set_update_magic r 10 h (omega arith))

pub view-registered :
    (r : Bytes5)
    → IsBytes5 r
    → view (
        Register.set_controller_present
          (polled RegisterType.login (polled RegisterType.status r))
          true)
      ≡ with_controller (view r)
view-registered r h =
    view-logged_in (polled RegisterType.status r) (polled-IsBytes5 RegisterType.status r h)
    ∙ ap (λ (w : Status). record w { update_magic = 10; controller_present = true })
        (view-polled r h)

-- The login handshake takes two rounds. From a service whose unit polls its status register and
-- whose controller has the login query to send, no error query pending, nothing to write and the
-- unit's error bit as its error flag, two rounds of DoLoop lead to a settled service: the unit
-- polls its status register again and has registered the controller, no query is pending, and the
-- local state holds what the register said.
pub registers :
    (s : SimService) (a : AcState) (v : Status)
    → AtLogin s a v
    → a.merged ≡ true
    → v.error ≡ a.error_flag
    → At (cycle (cycle s)) (with_status v a) (with_controller v)
registers s a v h m e =
    let bytes = status-IsBytes5 s.sim h.sim_valid in
    let valid =
      with_status-IsValid s.sim _ h.sim_valid (polled-IsBytes5 RegisterType.status _ bytes) in
    let s₁ : SimService = record {
      controller = answered_with (s.controller) (login_sent (with_status v a)) send_login_frame;
      sim = queried_login s.sim;
    } in
    let valid₁ : IsValid s₁.sim = record {
      status_bytes = valid.status_bytes;
      error_bytes = valid.error_bytes;
      login_bytes = valid.login_bytes;
    } in
    let r = polled RegisterType.login (polled RegisterType.status (Sim.status s.sim)) in
    rw (login_round s a v h m e, logged_in_round s₁ valid₁ refl)
      (record {
        settled = record {
          sim_valid =
              with_status-IsValid (record (s₁.sim) { next_query_register = RegisterType.status })
                (Register.set_controller_present r true)
                (record {
                  status_bytes = valid.status_bytes;
                  error_bytes = valid.error_bytes;
                  login_bytes = valid.login_bytes;
                })
                (set_controller_present-IsBytes5 r (
                  polled-IsBytes5 RegisterType.login _
                    (polled-IsBytes5 RegisterType.status _ bytes)));
          sim_status = refl;
          idle = refl;
        };
        state = refl;
        seen = view-registered (Sim.status s.sim) bytes ∙ ap with_controller h.seen;
      })
