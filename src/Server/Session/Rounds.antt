-- ===== src/Server/Session/Rounds.antt =====
-- One round of DoLoop in each phase of a session.
use fuji_iot.Base.{◌-◌, ◌≤◌, ℕ, ◌≡◌, refl, ap, ◌∙◌, true, not, arith, inl, inr, Bool-cases}
use fuji_iot.Register
use fuji_iot.Register.View.{Status}
use fuji_iot.Frame.{RegisterType}
use fuji_iot.State.{AcState}
use fuji_iot.State.Laws.{with_status}
use fuji_iot.Handler.Delivery.{written}
use fuji_iot.Sim
use fuji_iot.Sim.{Sim, get_next_master_frame, push_controller_frame}
use fuji_iot.Sim.Laws.{polled, status-IsBytes5, polled-IsBytes5}
use fuji_iot.Controller.{AcUnitState}
use fuji_iot.Server.{SimService, cycle}
use fuji_iot.Server.Rounds.{polled_view}
use fuji_iot.Server.Convergence.{At, with_status-IsValid, write_step, read_step}
use fuji_iot.Server.Login.{AtLogin, login_round}
use fuji_iot.Server.Registration.{logged_in_round, view-logged_in, set_controller_present-IsBytes5}
use fuji_iot.Server.Session.Live.{AtAsked, Phase, rounds_left, Facts}
use fuji_iot.Server.Session.Wishes.{
  Wish, polled-Wish, merged-Wish, with_registration, registered-Wish, written-Wish, handed_over,
  handed_over_low,
}
use fuji_iot.Server.Session.Unmerged.{login_round_unmerged, queried-AtAsked}

-- What a round from the local state `a` and the register `v` leads to.
pub record After (s : SimService) (a : AcState) (v : Status) (left : ℕ) : Type 0 where
  pub a' : AcState
  pub v' : Status
  pub phase : Phase s a' v'
  pub closer : rounds_left phase ≤ left
  pub facts : Facts a' v'
  pub wish : (u : AcUnitState) → Wish u a v → Wish u a' v'

pub merged-Facts : (a : AcState) (v : Status) → Facts a v → Facts (with_status v a) (polled_view v)
merged-Facts a v f = record {
  no_step = f.no_step;
  low = f.unit_low;
  unit_low = f.unit_low;
  same_error = refl;
}

pub polled-Facts : (a : AcState) (v : Status) → Facts a v → Facts a (polled_view v)
polled-Facts a v f = record {
  no_step = f.no_step;
  low = f.low;
  unit_low = f.unit_low;
  same_error = f.same_error;
}

login_due-After :
    (s : SimService) (a : AcState) (v : Status) → AtLogin s a v → Facts a v → After (cycle s) a v 1
login_due-After s a v h f = elim (Bool-cases a.merged) [
  | inl m ↦ record {
    a' = with_status v a;
    v' = polled_view v;
    phase = Phase.login_asked (queried-AtAsked s a _ v h (login_round s a v h m f.same_error));
    closer = omega arith;
    facts = merged-Facts a v f;
    wish = λ u. merged-Wish u a v m;
  }
  | inr m ↦ record {
    a' = a;
    v' = polled_view v;
    phase = Phase.login_asked (queried-AtAsked s a a v h (login_round_unmerged s a v h m));
    closer = omega arith;
    facts = polled-Facts a v f;
    wish = λ u. polled-Wish u a v;
  }
]

pub registered-At :
    (s : SimService) (a : AcState) (v : Status)
    → AtAsked s a v
    → At (cycle s) a (with_registration v)
registered-At s a v h =
    let bytes = status-IsBytes5 s.sim h.sim_valid in
    let r = polled RegisterType.login (Sim.status s.sim) in
    rw (logged_in_round s h.sim_valid h.sim_login) (record {
      settled = record {
        sim_valid =
            with_status-IsValid (record (s.sim) { next_query_register = RegisterType.status })
              (Register.set_controller_present r true)
              (record {
                status_bytes = h.sim_valid.status_bytes;
                error_bytes = h.sim_valid.error_bytes;
                login_bytes = h.sim_valid.login_bytes;
              })
              (set_controller_present-IsBytes5 r (polled-IsBytes5 RegisterType.login _ bytes));
        sim_status = refl;
        idle = h.idle;
      };
      state = h.state;
      seen = view-logged_in (Sim.status s.sim) bytes ∙ ap with_registration h.seen;
    })

login_asked-After :
    (s : SimService) (a : AcState) (v : Status) → AtAsked s a v → Facts a v → After (cycle s) a v 0
login_asked-After s a v h f = record {
  a' = a;
  v' = with_registration v;
  phase = Phase.registered (registered-At s a v h) refl;
  closer = omega arith;
  facts = record {
    no_step = f.no_step;
    low = f.low;
    unit_low = f.unit_low;
    same_error = f.same_error;
  };
  wish = λ u. registered-Wish u a v;
}

-- A round after the registration: nothing is left to write.
pub record Served (s : SimService) (a : AcState) (v : Status) : Type 0 where
  pub a' : AcState
  pub v' : Status
  pub service : At s a' v'
  pub present : v'.controller_present ≡ true
  pub nothing_to_write : a'.merged ≡ true
  pub facts : Facts a' v'
  pub wish : (u : AcUnitState) → Wish u a v → Wish u a' v'

pub registered-Served :
    (s : SimService) (a : AcState) (v : Status)
    → At s a v
    → v.controller_present ≡ true
    → Facts a v
    → Served (cycle s) a v
registered-Served s a v h p f = elim (Bool-cases a.merged) [
  | inl m ↦ record {
    a' = with_status v a;
    v' = polled_view v;
    service = (read_step s a v h m p f.same_error).0;
    present = p;
    nothing_to_write = refl;
    facts = merged-Facts a v f;
    wish = λ u. merged-Wish u a v m;
  }
  | inr m ↦ record {
    a' = written a;
    v' = handed_over a v;
    service = write_step s a v h m f.low;
    present = p;
    nothing_to_write = ap not f.no_step;
    facts = record {
      no_step = refl;
      low = f.low;
      unit_low = handed_over_low a v f.low;
      same_error = f.same_error;
    };
    wish = λ u. written-Wish u a v m f.no_step;
  }
]

registered-After :
    (s : SimService) (a : AcState) (v : Status)
    → At s a v
    → v.controller_present ≡ true
    → Facts a v
    → After (cycle s) a v 0
registered-After s a v h p f =
    let r = registered-Served s a v h p f in
    record {
      a' = r.a';
      v' = r.v';
      phase = Phase.registered r.service r.present;
      closer = omega arith;
      facts = r.facts;
      wish = r.wish;
    }

-- Every round of a session leads on.
pub cycle-After :
    (s : SimService) (a : AcState) (v : Status) (p : Phase s a v)
    → Facts a v
    → After (cycle s) a v (rounds_left p - 1)
cycle-After s a v (Phase.login_due h) f = login_due-After s a v h f
cycle-After s a v (Phase.login_asked h) f = login_asked-After s a v h f
cycle-After s a v (Phase.registered h p) f = registered-After s a v h p f
