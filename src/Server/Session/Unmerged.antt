-- ===== src/Server/Session/Unmerged.antt =====
-- The login query of a controller that has a local change to write.
use fuji_iot.Base.{◌≡◌, refl, ap, ◌∙◌, Bool, true, false, Option, some}
use fuji_iot.Register.View.{Status}
use fuji_iot.Frame.{ControllerFrame, RegisterType}
use fuji_iot.State.{AcState}
use fuji_iot.Handler.{Handler, handle_master_frame, respond, send_login_frame}
use fuji_iot.Handler.Protocol.{handle_status_unmerged}
use fuji_iot.Sim
use fuji_iot.Sim.{Sim, get_next_master_frame, push_controller_frame}
use fuji_iot.Sim.Laws.{status-IsBytes5, polled-IsBytes5}
use fuji_iot.Server.{SimService, cycle}
use fuji_iot.Server.Rounds.{next_IsStatus, answered_with, view-polled, polled_view}
use fuji_iot.Server.Convergence.{with_status-IsValid}
use fuji_iot.Server.Login.{AtLogin, queried_login, login_sent, cycle_login}
use fuji_iot.Server.Session.Live.{AtAsked}

pub login_sent_reply :
    (h : Handler) (l e : Bool)
    → l ≡ true
    → e ≡ false
    → respond (record h { login_read = l; error_read = e })
      ≡ (login_sent h.ac_state, some send_login_frame)
unfolding respond
login_sent_reply h l e p q = rw (p, q)

-- The login query comes before a local change.
pub login_due_replies_unmerged :
    (s : SimService) (a : AcState) (v : Status)
    → AtLogin s a v
    → a.merged ≡ false
    → handle_master_frame s.controller.client (get_next_master_frame s.sim).1
      ≡ (login_sent a, some send_login_frame)
login_due_replies_unmerged s a v h m =
    handle_status_unmerged s.controller.client _ (ap (λ (x : AcState). x.merged) h.state ∙ m)
      (next_IsStatus s.sim h.sim_valid h.sim_status)
    ∙ login_sent_reply s.controller.client _ _ h.login_due h.no_error
    ∙ ap
        (λ (x : AcState).
          let r : Handler × Option ControllerFrame = (login_sent x, some send_login_frame) in r)
        h.state

pub login_round_unmerged :
    (s : SimService) (a : AcState) (v : Status)
    → AtLogin s a v
    → a.merged ≡ false
    → cycle s ≡ record {
      controller = answered_with (s.controller) (login_sent a) send_login_frame;
      sim = queried_login s.sim;
    }
login_round_unmerged s a v h m = cycle_login s a h.sim_status (login_due_replies_unmerged s a v h m)

pub queried-AtAsked :
    (s : SimService) (a b : AcState) (v : Status)
    → AtLogin s a v
    → cycle s ≡ record {
      controller = answered_with (s.controller) (login_sent b) send_login_frame;
      sim = queried_login s.sim;
    }
    → AtAsked (cycle s) b (polled_view v)
queried-AtAsked s a b v h e =
    let bytes = status-IsBytes5 s.sim h.sim_valid in
    let valid =
      with_status-IsValid s.sim _ h.sim_valid (polled-IsBytes5 RegisterType.status _ bytes) in
    rw e (record {
      sim_valid = record {
        status_bytes = valid.status_bytes;
        error_bytes = valid.error_bytes;
        login_bytes = valid.login_bytes;
      };
      sim_login = refl;
      idle = refl;
      state = refl;
      seen = view-polled (Sim.status s.sim) bytes ∙ ap polled_view h.seen;
    })
