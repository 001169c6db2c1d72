-- ===== src/Server/Interleaved/Behind.antt =====
-- What a round of DoLoop with keys between its two steps leaves of the register, the local state and a
-- request.
use fuji_iot.Base.Bytes.{Bytes5, IsBytes5}
use fuji_iot.Base.{◌≡◌, ◌≤◌, ℕ, ap, ◌∙◌, true, false, List, [], ◌⊎◌, inl, inr, arith}
use fuji_iot.Register.View.{Status, view}
use fuji_iot.Frame.{RegisterType}
use fuji_iot.State.{AcState}
use fuji_iot.Handler.Delivery.{written, pending}
use fuji_iot.Sim
use fuji_iot.Sim.{Sim, get_next_master_frame, take_settings}
use fuji_iot.Sim.Laws.{IsValid}
use fuji_iot.Controller.{AcUnitState}
use fuji_iot.Controller.Update.{Granted}
use fuji_iot.Server.{SimService, cycle}
use fuji_iot.Server.Convergence.{At, with_status-IsValid}
use fuji_iot.Server.Remote.{Press, press_all, pressed, pressed_keeps, AllPressable}
use fuji_iot.Server.Update.{UnitGrants}
use fuji_iot.Server.Session.Live.{Phase, rounds_left, Facts}
use fuji_iot.Server.Session.Wishes.{Wish, registered-Wish, handed_over, written-Wish}
use fuji_iot.Server.Interleaved.Keys.{busy_round, press_all-Phase, pressed_low}

-- A request waits to be written, or the unit does what it asks and no key came since.
abbrev pub KeyedWish : AcUnitState → AcState → Status → List Press → Type 0
KeyedWish u a v ps =
    ((a.merged ≡ false) × Granted u a) ⊎ ((ps ≡ []) × (a.merged ≡ true) × UnitGrants u v)

-- What a round with the keys `ps` in it leads to.
pub record Behind (s : SimService) (a : AcState) (v : Status) (ps : List Press) (left : ℕ)
    : Type 0 where
  pub a' : AcState
  pub v' : Status
  pub phase : Phase s a' v'
  pub closer : rounds_left phase ≤ left
  pub facts : Facts a' v'
  pub wish : (u : AcUnitState) → KeyedWish u a v ps → Wish u a' v'

pressed-Facts :
    (ps : List Press) (a : AcState) (v : Status)
    → AllPressable ps
    → Facts a v
    → Facts a (pressed ps v)
pressed-Facts ps a v g f = record {
  no_step = f.no_step;
  low = f.low;
  unit_low = pressed_low ps v g f.unit_low;
  same_error = (pressed_keeps ps v).1 ∙ f.same_error;
}

-- A wish is left alone by no keys, and by any keys as long as it waits to be written.
pressed-Wish :
    (u : AcUnitState) (ps : List Press) (a a' : AcState) (v v' : Status)
    → ((u' : AcUnitState) → Wish u' a v → Wish u' a' v')
    → ((a.merged ≡ false) → a' ≡ a)
    → KeyedWish u a v ps
    → Wish u a' (pressed ps v')
pressed-Wish u ps a a' v v' w k (inl (n, g)) = inl (rw (k n) (n, g))
pressed-Wish u ps a a' v v' w k (inr (none, m, g)) = rw none (w u (inr (m, g)))

-- If the keys might as well come behind the round, then a round without keys leads there.
pub keys-Behind :
    (s : SimService) (a a' : AcState) (v v' : Status) (ps : List Press) (left : ℕ)
    → AllPressable ps
    → busy_round ps s ≡ record (cycle s) { sim = press_all ps (cycle s).sim }
    → (r : Phase (cycle s) a' v') → rounds_left r ≤ left
    → Facts a' v'
    → ((u : AcUnitState) → Wish u a v → Wish u a' v')
    → ((a.merged ≡ false) → a' ≡ a)
    → Behind (busy_round ps s) a v ps left
keys-Behind s a a' v v' ps left g e r l f w k =
    let (q, same) = press_all-Phase ps (cycle s) a' v' g r in
    rw e (record {
      a' = a';
      v' = pressed ps v';
      phase = q;
      closer = omega (arith, same, l);
      facts = pressed-Facts ps a' v' g f;
      wish = λ u. pressed-Wish u ps a a' v v' w k;
    })

-- The register behind keys and the registration.
abbrev pub keyed_registration : List Press → Status → Status
keyed_registration ps v = record (pressed ps (record v { update_magic = 10 })) {
  controller_present = true;
}

-- The unit behind an answer that changes its bytes.
pub pushed-At :
    (s : SimService) (x : Sim) (r : Bytes5) (a : AcState) (v : Status)
    → IsValid x
    → IsBytes5 r
    → s.sim ≡ Sim.with_status (record x { next_query_register = RegisterType.status }) r
    → pending s.controller.client ≡ 0
    → s.controller.client.ac_state ≡ a
    → view r ≡ v
    → At s a v
pushed-At s x r a v h b e z c w = record {
  settled = record {
    sim_valid = rw e (
        with_status-IsValid (record x { next_query_register = RegisterType.status }) r
          (record {
            status_bytes = h.status_bytes;
            error_bytes = h.error_bytes;
            login_bytes = h.login_bytes;
          })
          b);
    sim_status = ap (λ (y : Sim). y.next_query_register) e;
    idle = z;
  };
  state = c;
  seen = ap (λ (y : Sim). view (Sim.status y)) e ∙ w;
}

pub registered-KeyedWish :
    (u : AcUnitState) (ps : List Press) (a : AcState) (v : Status)
    → KeyedWish u a v ps
    → Wish u a (keyed_registration ps v)
registered-KeyedWish u ps a v (inl w) = inl w
registered-KeyedWish u ps a v (inr (none, m, g)) = rw none (registered-Wish u a v (inr (m, g)))

pub written-KeyedWish :
    (u : AcUnitState) (ps : List Press) (a : AcState) (v w : Status)
    → a.merged ≡ false
    → a.swing_step ≡ false
    → KeyedWish u a v ps
    → Wish u (written a) (handed_over a w)
written-KeyedWish u ps a v w m step (inl asked) = written-Wish u a w m step (inl asked)
written-KeyedWish u ps a v w m step (inr (_, n, _)) = cc
