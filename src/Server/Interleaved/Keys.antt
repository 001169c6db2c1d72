-- ===== src/Server/Interleaved/Keys.antt =====
-- A round of DoLoop with keys of the remote control between its two steps.
use fuji_iot.Base.{◌<◌, ◌≡◌, refl, sym, ap, ◌∙◌, Option, some, List, [], ◌∷◌}
use fuji_iot.Frame.{ControllerFrame, RegisterType}
use fuji_iot.Register.View.{Status, view}
use fuji_iot.State.{AcState}
use fuji_iot.Handler.{Handler, handle_master_frame}
use fuji_iot.Sim
use fuji_iot.Sim.{Sim, get_next_master_frame, push_controller_frame}
use fuji_iot.Sim.Laws.{
  IsValid, status-IsBytes5, polled, polled-IsBytes5, get_next_master_frame-polled,
}
use fuji_iot.Controller.{settle, do_loop_round}
use fuji_iot.Server.{SimService, cycle, write_controller_frame}
use fuji_iot.Server.Convergence.{with_status-IsValid}
use fuji_iot.Server.Rounds.{cycle_reply, answered_with}
use fuji_iot.Server.Remote.{
  Press, press, press_all, pressed, press_lem, press-IsValid, press-view, AllPressable,
}
use fuji_iot.Server.Session.Live.{Phase, rounds_left, press-Phase, keyed_low}
use fuji_iot.Server.Interleaved.{answer_frame}

abbrev pub busy_round : List Press → SimService → SimService
busy_round ps s =
    answer_frame (record s { sim = press_all ps (get_next_master_frame s.sim).0 })
      (get_next_master_frame s.sim).1

pub busy_reply :
    (ps : List Press) (s : SimService) (h : Handler) (cf : ControllerFrame)
    → handle_master_frame s.controller.client (get_next_master_frame s.sim).1 ≡ (h, some cf)
    → busy_round ps s ≡ record {
      controller = answered_with (s.controller) h cf;
      sim = push_controller_frame (press_all ps (get_next_master_frame s.sim).0) cf;
    }
unfolding answer_frame do_loop_round settle
busy_reply ps s h cf e =
    ap
      (λ (r : Handler × Option ControllerFrame).
        let round = settle s.controller r in
        let service : SimService = record {
          controller = round.0;
          sim = write_controller_frame (press_all ps (get_next_master_frame s.sim).0) round.1;
        } in
        service)
      e

-- A key does not touch the register that is asked for.
press-record :
    (p : Press) (s : Sim) (t : RegisterType)
    → press p (record s { next_query_register = t })
      ≡ record (press p s) { next_query_register = t }
press-record p s t = rw (press_lem p (record s { next_query_register = t }), press_lem p s) refl

press_all-record :
    (ps : List Press) (s : Sim) (t : RegisterType)
    → press_all ps (record s { next_query_register = t })
      ≡ record (press_all ps s) { next_query_register = t }
unfolding press_all
press_all-record [] s t = refl
press_all-record (p ∷ ps) s t =
    ap (press_all ps) (press-record p s t) ∙ press_all-record ps (press p s) t

-- If the answer only says which register is asked for next, the keys might as well come behind it.
pub keys_behind :
    (ps : List Press) (s : SimService) (h : Handler) (cf : ControllerFrame) (t : RegisterType)
    → handle_master_frame s.controller.client (get_next_master_frame s.sim).1 ≡ (h, some cf)
    → ((x : Sim) → push_controller_frame x cf ≡ record x { next_query_register = t })
    → busy_round ps s ≡ record (cycle s) { sim = press_all ps (cycle s).sim }
keys_behind ps s h cf t e push =
    busy_reply ps s h cf e
    ∙ ap
        (λ (x : Sim).
          let r : SimService = record { controller = answered_with (s.controller) h cf; sim = x } in
          r)
        (push (press_all ps (get_next_master_frame s.sim).0)
          ∙ sym (press_all-record ps (get_next_master_frame s.sim).0 t)
          ∙ ap (press_all ps) (sym (push (get_next_master_frame s.sim).0)))
    ∙ ap (λ (x : SimService). record x { sim = press_all ps x.sim }) (sym (cycle_reply s h cf e))

pub press_all-IsValid : (ps : List Press) (s : Sim) → IsValid s → IsValid (press_all ps s)
unfolding press_all
press_all-IsValid [] s h = h
press_all-IsValid (p ∷ ps) s h = press_all-IsValid ps (press p s) (press-IsValid p s h)

-- Keys leave a session in its phase.
pub press_all-Phase :
    (ps : List Press) (s : SimService) (a : AcState) (v : Status)
    → AllPressable ps
    → (h : Phase s a v)
    → (k : Phase (record s { sim = press_all ps s.sim }) a (pressed ps v)) × (rounds_left k
        ≡ rounds_left h)
unfolding press_all
press_all-Phase [] s a v g h = (h, refl)
press_all-Phase (p ∷ ps) s a v (g, gs) h =
    let (one, e) = press-Phase s p a v g h in
    let (all, es) = press_all-Phase ps (record s { sim = press p s.sim }) a _ gs one in
    (all, es ∙ e)

pub pressed_low :
    (ps : List Press) (v : Status)
    → AllPressable ps
    → v.temperature < 128
    → (pressed ps v).temperature < 128
pressed_low [] v g l = l
pressed_low (p ∷ ps) v (g, gs) l = pressed_low ps _ gs (keyed_low p v g l)

press_all-view :
    (ps : List Press) (s : Sim)
    → IsValid s
    → AllPressable ps
    → view (Sim.status (press_all ps s)) ≡ pressed ps (view (Sim.status s))
unfolding press_all
press_all-view [] s h g = refl
press_all-view (p ∷ ps) s h (g, gs) =
    press_all-view ps (press p s) (press-IsValid p s h) gs ∙ ap (pressed ps) (press-view p s h g)

-- The unit when the answer comes: it has been polled, and keys have been pressed since.
pub record Keyed (x : Sim) (ps : List Press) (v : Status) : Type 0 where
  pub valid : IsValid x
  pub seen : view (Sim.status x) ≡ pressed ps v

pub polled-Keyed :
    (ps : List Press) (s : Sim) (t : RegisterType) (v : Status)
    → IsValid s
    → AllPressable ps
    → s.next_query_register ≡ t
    → view (polled t (Sim.status s)) ≡ v
    → Keyed (press_all ps (get_next_master_frame s).0) ps v
polled-Keyed ps s t v h g q e =
    let bytes = polled-IsBytes5 t _ (status-IsBytes5 s h) in
    let valid = with_status-IsValid s _ h bytes in
    let moved =
      get_next_master_frame-polled s
      ∙ ap (λ (u : RegisterType). Sim.with_status s (polled u (Sim.status s))) q in
    rw moved (record {
      valid = press_all-IsValid ps _ valid;
      seen = press_all-view ps _ valid g ∙ ap (pressed ps) e;
    })
