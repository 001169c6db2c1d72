-- ===== src/Server/Login.antt =====
-- The login query of the controller to the simulated unit.
use fuji_iot.Base.{
  ◌≡◌, sym, ap, ap₂, ◌∙◌, Bool, true, false, not, Option, some, arith, ◌&&◌, ◌||◌, if◌then◌else◌,
}
use fuji_iot.Register.View.{Status, view}
use fuji_iot.Frame.{ControllerFrame, MasterFrame, RegisterType, master_payload}
use fuji_iot.State.{AcState}
use fuji_iot.State.Laws.{with_status}
use fuji_iot.Handler.{
  Handler, differ, handle_master_frame, send_login_frame, send_error_query_frame, status_frame,
}
use fuji_iot.Handler.Replies.{view-send_login_frame}
use fuji_iot.Handler.Protocol.{IsStatus, handle_merged}
use fuji_iot.Sim
use fuji_iot.Sim.{Sim, get_next_master_frame, push_controller_frame}
use fuji_iot.Sim.Laws.{
  IsValid, polled, status-IsBytes5, view-clear_step, get_next_master_frame-polled,
}
use fuji_iot.Sim.Push.{push-query_login}
use fuji_iot.Server.{SimService, cycle}
use fuji_iot.Server.Rounds.{next_IsStatus, next_payload, cycle_reply, answered_with}

login_due_reply :
    (l e c x y : Bool) (s : AcState)
    → l ≡ true
    → e ≡ false
    → y ≡ x
    → ◌≡◌ {A = Handler × Option ControllerFrame}
        (
          record {
            ac_state = s;
            login_read = false;
            error_read = (l || not c) && (e || differ x y);
          },
          some (
              if l || not c
              then send_login_frame
              else if e || differ x y
              then send_error_query_frame
              else status_frame s),
        )
        (record { ac_state = s; login_read = false; error_read = false }, some send_login_frame)
login_due_reply l e c x y s p q t = ground arith

-- The handler's answer to a status register `v`, whose swing step is cleared on the way, while it
-- has a login to send.
handle_login_due :
    (h : Handler) (f : MasterFrame) (v : Status)
    → h.ac_state.merged ≡ true
    → h.login_read ≡ true
    → h.error_read ≡ false
    → IsStatus f
    → view (master_payload f) ≡ record v { swing_step = false }
    → v.error ≡ h.ac_state.error_flag
    → handle_master_frame h f ≡ (
      record { ac_state = with_status v h.ac_state; login_read = false; error_read = false },
      some send_login_frame,
    )
handle_login_due h f v m l e p q d =
    handle_merged h f m p
    ∙ login_due_reply h.login_read h.error_read (view (master_payload f)).controller_present
        h.ac_state.error_flag (view (master_payload f)).error
        (with_status (view (master_payload f)) h.ac_state) l e (ap (λ (w : Status). w.error) q ∙ d)
    ∙ ap
        (λ (w : Status).
          let r : Handler × Option ControllerFrame = (
            record { ac_state = with_status w h.ac_state; login_read = false; error_read = false },
            some send_login_frame,
          ) in
          r)
        q

-- A service whose controller has a login to send to a unit that answers with its status.
pub record AtLogin (s : SimService) (a : AcState) (v : Status) : Type 0 where
  pub sim_valid : IsValid s.sim
  pub sim_status : s.sim.next_query_register ≡ RegisterType.status
  pub login_due : s.controller.client.login_read ≡ true
  pub no_error : s.controller.client.error_read ≡ false
  pub state : s.controller.client.ac_state ≡ a
  pub seen : view (Sim.status s.sim) ≡ v

-- The unit behind a status poll and the query for the login register.
abbrev pub queried_login : Sim → Sim
queried_login s = record (Sim.with_status s (polled RegisterType.status (Sim.status s))) {
  next_query_register = RegisterType.login;
}

-- The handler that has sent the query for the login register.
abbrev pub login_sent : AcState → Handler
login_sent a = record { ac_state = a; login_read = false; error_read = false }

pub polled-status :
    (s : Sim)
    → s.next_query_register ≡ RegisterType.status
    → (get_next_master_frame s).0 ≡ Sim.with_status s (polled RegisterType.status (Sim.status s))
polled-status s q =
    get_next_master_frame-polled s
    ∙ ap (λ (t : RegisterType). Sim.with_status s (polled t (Sim.status s))) q

-- The answer of a controller that has the login query to send.
pub login_due_replies :
    (s : SimService) (a : AcState) (v : Status)
    → AtLogin s a v
    → a.merged ≡ true
    → v.error ≡ a.error_flag
    → handle_master_frame s.controller.client (get_next_master_frame s.sim).1
      ≡ (login_sent (with_status v a), some send_login_frame)
login_due_replies s a v h m e =
    handle_login_due s.controller.client (get_next_master_frame s.sim).1 (view (Sim.status s.sim))
      (ap (λ (x : AcState). x.merged) h.state ∙ m) h.login_due h.no_error
      (next_IsStatus s.sim h.sim_valid h.sim_status)
      (ap view (next_payload s.sim h.sim_valid h.sim_status)
        ∙ view-clear_step _ (status-IsBytes5 s.sim h.sim_valid))
      (ap (λ (x : Status). x.error) h.seen ∙ e ∙ sym (ap (λ (x : AcState). x.error_flag) h.state))
    ∙ ap₂
        (λ (w : Status) (x : AcState).
          let r : Handler × Option ControllerFrame =
            (login_sent (with_status w x), some send_login_frame) in
          r)
        h.seen h.state

-- A round whose answer is the login query.
pub cycle_login :
    (s : SimService) (a : AcState)
    → s.sim.next_query_register ≡ RegisterType.status
    → handle_master_frame s.controller.client (get_next_master_frame s.sim).1
      ≡ (login_sent a, some send_login_frame)
    → cycle s ≡ record {
      controller = answered_with (s.controller) (login_sent a) send_login_frame;
      sim = queried_login s.sim;
    }
cycle_login s a q e =
    cycle_reply s _ send_login_frame e
    ∙ ap
        (λ (y : Sim).
          let r : SimService = record {
            controller = answered_with (s.controller) (login_sent a) send_login_frame;
            sim = y;
          } in
          r)
        (ap (λ (x : Sim). push_controller_frame x send_login_frame) (polled-status s.sim q)
          ∙ push-query_login _ send_login_frame view-send_login_frame)

pub login_round :
    (s : SimService) (a : AcState) (v : Status)
    → AtLogin s a v
    → a.merged ≡ true
    → v.error ≡ a.error_flag
    → cycle s ≡ record {
      controller = answered_with (s.controller) (login_sent (with_status v a)) send_login_frame;
      sim = queried_login s.sim;
    }
login_round s a v h m e = cycle_login s _ h.sim_status (login_due_replies s a v h m e)
