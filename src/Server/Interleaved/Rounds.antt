-- ===== src/Server/Interleaved/Rounds.antt =====
-- A round of DoLoop with keys between its two steps, in each phase of a session.
use fuji_iot.Base.{
  ◌≡◌, ◌-◌, refl, sym, ap, ◌∙◌, true, false, List, inl, inr, arith, Bool-cases, ap₂,
}
use fuji_iot.Register
use fuji_iot.Register.View.{Status, view-set_controller_present, view-set_update_magic}
use fuji_iot.Frame.{RegisterType}
use fuji_iot.State.{AcState, build_status_register_response}
use fuji_iot.State.Laws.{with_status, with_settings, build-IsBytes5}
use fuji_iot.Handler.{send_login_frame, blank_payload}
use fuji_iot.Handler.Replies.{
  blank_status, view-send_login_frame, view-send_logged_in_frame, view-status_frame,
  view-status_frame_write, view-settings, blank_payload-IsBytes5,
}
use fuji_iot.Handler.Delivery.{written}
use fuji_iot.Sim
use fuji_iot.Sim.{Sim, get_next_master_frame, take_settings}
use fuji_iot.Sim.Laws.{status-IsBytes5}
use fuji_iot.Sim.Push.{
  push-query_login, push-settings, push-logged_in, take_settings-IsBytes5, view-take_settings,
  adopt,
}
use fuji_iot.Controller.Written.{handle_login}
use fuji_iot.Server.{SimService}
use fuji_iot.Server.Rounds.{polled_view, write_reply, view-polled}
use fuji_iot.Server.Reading.{read_reply}
use fuji_iot.Server.Convergence.{At, read_step}
use fuji_iot.Server.Login.{AtLogin, login_due_replies, login_round}
use fuji_iot.Server.Registration.{next_IsLogin, set_controller_present-IsBytes5}
use fuji_iot.Server.Remote.{Press, press_all, pressed, pressed_keeps, AllPressable}
use fuji_iot.Server.Session.Live.{AtAsked, Phase, rounds_left, Facts}
use fuji_iot.Server.Session.Rounds.{merged-Facts, polled-Facts}
use fuji_iot.Server.Session.Unmerged.{
  queried-AtAsked, login_round_unmerged, login_due_replies_unmerged,
}
use fuji_iot.Server.Session.Wishes.{merged-Wish, polled-Wish, handed_over, handed_over_low}
use fuji_iot.Server.Interleaved.Keys.{
  busy_round, busy_reply, keys_behind, pressed_low, polled-Keyed,
}
use fuji_iot.Server.Interleaved.Behind.{
  Behind, keys-Behind, keyed_registration, pushed-At, registered-KeyedWish, written-KeyedWish,
}

login_due-Behind :
    (ps : List Press) (s : SimService) (a : AcState) (v : Status)
    → AllPressable ps
    → AtLogin s a v
    → Facts a v
    → Behind (busy_round ps s) a v ps 1
login_due-Behind ps s a v g h f =
    let asks = λ (x : Sim). push-query_login x send_login_frame view-send_login_frame in
    elim (Bool-cases a.merged) [
      | inl m ↦
          keys-Behind s a (with_status v a) v (polled_view v) ps 1 g
            (keys_behind ps s _ send_login_frame RegisterType.login
              (login_due_replies s a v h m f.same_error) asks)
            (Phase.login_asked (queried-AtAsked s a _ v h (login_round s a v h m f.same_error)))
            (omega arith) (merged-Facts a v f) (λ u. merged-Wish u a v m) (λ n. cc)
      | inr m ↦
          keys-Behind s a a v (polled_view v) ps 1 g
            (keys_behind ps s _ send_login_frame RegisterType.login
              (login_due_replies_unmerged s a v h m) asks)
            (Phase.login_asked (queried-AtAsked s a a v h (login_round_unmerged s a v h m)))
            (omega arith) (polled-Facts a v f) (λ u. polled-Wish u a v) (λ n. refl)
    ]

login_asked-Behind :
    (ps : List Press) (s : SimService) (a : AcState) (v : Status)
    → AllPressable ps
    → AtAsked s a v
    → Facts a v
    → Behind (busy_round ps s) a v ps 0
login_asked-Behind ps s a v g h f =
    let bytes = status-IsBytes5 s.sim h.sim_valid in
    let x = press_all ps (get_next_master_frame s.sim).0 in
    let k =
      polled-Keyed ps s.sim RegisterType.login (record v { update_magic = 10 }) h.sim_valid g
        h.sim_login
        (view-set_update_magic (Sim.status s.sim) 10 bytes (omega arith)
          ∙ ap (λ (w : Status). record w { update_magic = 10 }) h.seen) in
    rw
      (busy_reply ps s _ _
        (handle_login s.controller.client _ (next_IsLogin s.sim h.sim_valid h.sim_login)))
      (record {
        a' = a;
        v' = keyed_registration ps v;
        phase =
            Phase.registered
              (pushed-At _ x (Register.set_controller_present (Sim.status x) true) a
                (keyed_registration ps v) k.valid
                (set_controller_present-IsBytes5 _ (status-IsBytes5 x k.valid))
                (push-logged_in x _ _ (view-send_logged_in_frame s.controller.client)) h.idle
                h.state
                (view-set_controller_present (Sim.status x) true (status-IsBytes5 x k.valid)
                  ∙ ap (λ (w : Status). record w { controller_present = true }) k.seen))
              refl;
        closer = omega arith;
        facts = record {
          no_step = f.no_step;
          low = f.low;
          unit_low = pressed_low ps _ g f.unit_low;
          same_error = (pressed_keeps ps (record v { update_magic = 10 })).1 ∙ f.same_error;
        };
        wish = λ u. registered-KeyedWish u ps a v;
      })

registered-Behind :
    (ps : List Press) (s : SimService) (a : AcState) (v : Status)
    → AllPressable ps
    → At s a v
    → v.controller_present ≡ true
    → Facts a v
    → Behind (busy_round ps s) a v ps 0
registered-Behind ps s a v g h p f = elim (Bool-cases a.merged) [
  | inl m ↦
      let b = s.controller.client.ac_state in
      keys-Behind s a (with_status v a) v (polled_view v) ps 0 g
        (keys_behind ps s _ _ RegisterType.status
          (read_reply s h.settled (ap (λ (x : AcState). x.merged) h.state ∙ m)
            (ap (λ (x : Status). x.controller_present) h.seen ∙ p)
            (ap (λ (x : Status). x.error) h.seen
              ∙ f.same_error
              ∙ sym (ap (λ (x : AcState). x.error_flag) h.state)))
          (λ x. push-settings x _ false _ (view-status_frame _)))
        (Phase.registered (read_step s a v h m p f.same_error).0 p) (omega arith)
        (merged-Facts a v f) (λ u. merged-Wish u a v m) (λ n. cc)
  | inr m ↦
      let b = s.controller.client.ac_state in
      let w = pressed ps (polled_view v) in
      let x = press_all ps (get_next_master_frame s.sim).0 in
      let k =
        polled-Keyed ps s.sim RegisterType.status (polled_view v) h.settled.sim_valid g
          h.settled.sim_status
          (view-polled (Sim.status s.sim) (status-IsBytes5 s.sim h.settled.sim_valid)
            ∙ ap polled_view h.seen) in
      let payload = build_status_register_response b blank_payload in
      let payload_bytes = build-IsBytes5 b blank_payload blank_payload-IsBytes5 in
      rw
        (busy_reply ps s _ _ (write_reply s h.settled (ap (λ (y : AcState). y.merged) h.state ∙ m)))
        (record {
          a' = written a;
          v' = handed_over a w;
          phase =
              Phase.registered
                (pushed-At _ x (take_settings (Sim.status x) payload) (written a) (handed_over a w)
                  k.valid (take_settings-IsBytes5 _ _ (status-IsBytes5 x k.valid))
                  (push-settings x _ true b (view-status_frame_write b)) h.settled.idle
                  (ap written h.state)
                  (view-take_settings (Sim.status x) payload (status-IsBytes5 x k.valid)
                      payload_bytes
                    ∙ ap₂ adopt
                        (view-settings b
                            (omega (arith, ap (λ (y : AcState). y.temperature) h.state, f.low))
                          ∙ ap (λ y. with_settings y blank_status) h.state)
                        k.seen))
                ((pressed_keeps ps (polled_view v)).0 ∙ p);
          closer = omega arith;
          facts = record {
            no_step = refl;
            low = f.low;
            unit_low = handed_over_low a w f.low;
            same_error = (pressed_keeps ps (polled_view v)).1 ∙ f.same_error;
          };
          wish = λ u. written-KeyedWish u ps a v w m f.no_step;
        })
]

-- A round with keys in it leads on in every phase.
pub busy_round-Behind :
    (ps : List Press) (s : SimService) (a : AcState) (v : Status)
    → AllPressable ps
    → (h : Phase s a v) → Facts a v
    → Behind (busy_round ps s) a v ps (rounds_left h - 1)
busy_round-Behind ps s a v g (Phase.login_due h) f = login_due-Behind ps s a v g h f
busy_round-Behind ps s a v g (Phase.login_asked h) f = login_asked-Behind ps s a v g h f
busy_round-Behind ps s a v g (Phase.registered h p) f = registered-Behind ps s a v g h p f
