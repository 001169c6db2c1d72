-- ===== src/Server/Convergence.antt =====
-- The rounds of the service over the simulated unit after a change of the local state.
use fuji_iot.Base.{◌<◌, ◌≡◌, refl, sym, ap, ap₂, ◌∙◌, Bool, true, false, arith, if◌then◌else◌}
use fuji_iot.Base.Bytes.{Bytes5, IsBytes5}
use fuji_iot.Register.View.{Status, view}
use fuji_iot.Frame.{RegisterType, frame_eq}
use fuji_iot.Frame.Valid.{with_tail-IsBytes8}
use fuji_iot.State.{AcState, build_status_register_response}
use fuji_iot.State.Laws.{with_status, with_settings, build-IsBytes5}
use fuji_iot.Handler.{blank_payload, status_frame}
use fuji_iot.Handler.Replies.{blank_status, view-settings, blank_payload-IsBytes5}
use fuji_iot.Handler.Delivery.{written}
use fuji_iot.Sim
use fuji_iot.Sim.{Sim}
use fuji_iot.Sim.Laws.{IsValid, status-IsBytes5, polled, polled-IsBytes5}
use fuji_iot.Sim.Push.{adopt, view-take_settings, take_settings-IsBytes5}
use fuji_iot.Controller.{Controller}
use fuji_iot.Controller.Ready.{frame_eq_refl}
use fuji_iot.Server.{SimService, cycle}
use fuji_iot.Server.Rounds.{
  answered_with, IsSettled, polled_view, view-polled, after_reply, cycle_write,
}
use fuji_iot.Server.Reading.{cycle_read}

view-after_write :
    (a : AcState) (r : Bytes5)
    → IsBytes5 r
    → a.temperature < 128
    → view (after_reply true a r) ≡ adopt (with_settings a blank_status) (view r)
view-after_write a r h t =
    view-take_settings (polled RegisterType.status r)
      (build_status_register_response a blank_payload) (polled-IsBytes5 RegisterType.status r h)
      (build-IsBytes5 a blank_payload blank_payload-IsBytes5)
    ∙ (rw (view-polled r h, view-settings a t))

after_reply-IsBytes5 :
    (write : Bool) (a : AcState) (r : Bytes5) → IsBytes5 r → IsBytes5 (after_reply write a r)
after_reply-IsBytes5 true a r h =
    take_settings-IsBytes5 _ _ (polled-IsBytes5 RegisterType.status r h)
after_reply-IsBytes5 false a r h = polled-IsBytes5 RegisterType.status r h

-- A settled loop with the local state `a` and the status register `v`.
pub record At (s : SimService) (a : AcState) (v : Status) : Type 0 where
  pub settled : IsSettled s
  pub state : s.controller.client.ac_state ≡ a
  pub seen : view (Sim.status s.sim) ≡ v

pub with_status-IsValid :
    (s : Sim) (r : Bytes5) → IsValid s → IsBytes5 r → IsValid (Sim.with_status s r)
with_status-IsValid s r h g = record {
  status_bytes = with_tail-IsBytes8 s.status_register r h.status_bytes g;
  error_bytes = h.error_bytes;
  login_bytes = h.login_bytes;
}

pub write_step :
    (s : SimService) (a : AcState) (v : Status)
    → At s a v
    → a.merged ≡ false
    → a.temperature < 128
    → At (cycle s) (written a) (adopt (with_settings a blank_status) v)
write_step s a v h m t =
    let b = s.controller.client.ac_state in
    let bytes = status-IsBytes5 s.sim h.settled.sim_valid in
    rw (cycle_write s h.settled (ap (λ (x : AcState). x.merged) h.state ∙ m)) (record {
      settled = record {
        sim_valid =
            with_status-IsValid s.sim _ h.settled.sim_valid (after_reply-IsBytes5 true b _ bytes);
        sim_status = h.settled.sim_status;
        idle = h.settled.idle;
      };
      state = ap written h.state;
      seen =
          view-after_write b (Sim.status s.sim) bytes
            (omega (arith, ap (λ (x : AcState). x.temperature) h.state))
          ∙ ap₂ (λ x y. adopt (with_settings x blank_status) y) h.state h.seen;
    })

pub read_step :
    (s : SimService) (a : AcState) (v : Status)
    → At s a v
    → a.merged ≡ true
    → v.controller_present ≡ true
    → v.error ≡ a.error_flag
    → At (cycle s) (with_status v a) (polled_view v)
      × ((cycle s).controller
          ≡ answered_with
              (s.controller)
              (record (s.controller.client) { ac_state = with_status v a })
              (status_frame (with_status v a)))
read_step s a v h m p e =
    let bytes = status-IsBytes5 s.sim h.settled.sim_valid in
    let b = with_status (view (Sim.status s.sim)) s.controller.client.ac_state in
    let same = ap₂ with_status h.seen h.state in
    rw
      (cycle_read s h.settled (ap (λ (x : AcState). x.merged) h.state ∙ m)
        (ap (λ (x : Status). x.controller_present) h.seen ∙ p)
        (ap (λ (x : Status). x.error) h.seen
          ∙ e
          ∙ sym (ap (λ (x : AcState). x.error_flag) h.state)))
      (
        record {
          settled = record {
            sim_valid =
                with_status-IsValid s.sim _ h.settled.sim_valid
                  (after_reply-IsBytes5 false b _ bytes);
            sim_status = h.settled.sim_status;
            idle = h.settled.idle;
          };
          state = same;
          seen = view-polled (Sim.status s.sim) bytes ∙ ap polled_view h.seen;
        },
        ap
            (λ (x : AcState).
              answered_with (s.controller) (record (s.controller.client) { ac_state = x })
                (status_frame x))
            same,
      )

-- The state and the register behind an exchange of the settings `a` with the register `v`.
abbrev pub exchanged : AcState → Status → Status
exchanged a v = polled_view (adopt (with_settings a blank_status) v)

-- Two rounds that read: the controller is ready.
pub two_reads :
    (s : SimService) (a : AcState) (v : Status)
    → At s a v
    → a.merged ≡ true
    → v.controller_present ≡ true
    → v.error ≡ a.error_flag
    → let s' = cycle (cycle s) in
      At s' (with_status v a) (polled_view v) × (s'.controller.ready ≡ true)
two_reads s a v h m p e =
    let (h1, c1) = read_step s a v h m p e in
    let a1 = with_status v a in
    let (h2, c2) = read_step (cycle s) a1 (polled_view v) h1 refl p refl in
    (
      h2,
      ap (λ (c : Controller). c.ready) c2
          ∙ ap
              (λ (c : Controller).
                if frame_eq (status_frame a1) c.last_frame
                then true
                else (cycle s).controller.ready)
              c1
          ∙ rw (frame_eq_refl (status_frame a1)),
    )

pub converges :
    (s : SimService) (a : AcState) (v : Status)
    → At s a v
    → a.merged ≡ false
    → a.swing_step ≡ false
    → a.temperature < 128
    → v.controller_present ≡ true
    → v.error ≡ a.error_flag
    → let s' = cycle (cycle (cycle s)) in
      At s' (with_status (exchanged a v) (written a)) (exchanged a v) × (s'.controller.ready ≡ true)
converges s a v h m w t p e =
    let v1 = adopt (with_settings a blank_status) v in
    two_reads (cycle s) (written a) v1 (write_step s a v h m t) (rw w) p e
