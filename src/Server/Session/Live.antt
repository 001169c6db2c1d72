-- ===== src/Server/Session/Live.antt =====
-- The phases of a service from its start on, and what keys and calls of Update do to them.
use fuji_iot.Base.{◌<◌, ℕ, ◌≡◌, refl, sym, ap, ◌∙◌, Bool, true, false, arith, ◌⊎◌, if◌then◌else◌}
use fuji_iot.Register.View.{Status, view}
use fuji_iot.Register.Writes.{assign, Fits}
use fuji_iot.Frame.{RegisterType}
use fuji_iot.State.{AcState}
use fuji_iot.Handler.Delivery.{pending}
use fuji_iot.Sim
use fuji_iot.Sim.Laws.{IsValid}
use fuji_iot.Controller.{AcUnitState, begin_update, is_zero, u8_of_ℤ}
use fuji_iot.Controller.Update.{begin_update-Granted, begin_update-Keeps}
use fuji_iot.Server.{SimService}
use fuji_iot.Server.Convergence.{At}
use fuji_iot.Server.Login.{AtLogin}
use fuji_iot.Server.Update.{request}
use fuji_iot.Server.Remote.{
  Press, press, key_write, press-IsValid, press-view, press-next_query_register, press-At,
  key_keeps,
}
use fuji_iot.Server.Session.{IsLow}

-- The controller has asked for the login register, and the unit has not answered yet.
pub record AtAsked (s : SimService) (a : AcState) (v : Status) : Type 0 where
  pub sim_valid : IsValid s.sim
  pub sim_login : s.sim.next_query_register ≡ RegisterType.login
  pub idle : pending s.controller.client ≡ 0
  pub state : s.controller.client.ac_state ≡ a
  pub seen : view (Sim.status s.sim) ≡ v

pub data Phase (s : SimService) (a : AcState) (v : Status) : Type 0 where
  login_due : AtLogin s a v → Phase s a v
  login_asked : AtAsked s a v → Phase s a v
  registered : At s a v → v.controller_present ≡ true → Phase s a v

-- The rounds until the unit has registered the controller.
abbrev pub rounds_left : {s : SimService} {a : AcState} {v : Status} → Phase s a v → ℕ
rounds_left (Phase.login_due h) = 2
rounds_left (Phase.login_asked h) = 1
rounds_left (Phase.registered h p) = 0

-- What holds of the local state and the unit's register in every phase.
pub record Facts (a : AcState) (v : Status) : Type 0 where
  pub no_step : a.swing_step ≡ false
  pub low : a.temperature < 128
  pub unit_low : v.temperature < 128
  pub same_error : v.error ≡ a.error_flag

-- A service in one of the phases.
pub record Live (s : SimService) : Type 0 where
  pub a : AcState
  pub v : Status
  pub phase : Phase s a v
  pub facts : Facts a v

request-Phase :
    (s : SimService) (u : AcUnitState) (a : AcState) (v : Status)
    → Phase s a v
    → Phase (request s u) (begin_update s.controller u).client.ac_state v
unfolding begin_update
request-Phase s u a v (Phase.login_due h) = Phase.login_due (record {
  sim_valid = h.sim_valid;
  sim_status = h.sim_status;
  login_due = h.login_due;
  no_error = h.no_error;
  state = refl;
  seen = h.seen;
})
request-Phase s u a v (Phase.login_asked h) = Phase.login_asked (record {
  sim_valid = h.sim_valid;
  sim_login = h.sim_login;
  idle = h.idle;
  state = refl;
  seen = h.seen;
})
request-Phase s u a v (Phase.registered h p) =
    Phase.registered
      (record {
        settled = record {
          sim_valid = h.settled.sim_valid;
          sim_status = h.settled.sim_status;
          idle = h.settled.idle;
        };
        state = refl;
        seen = h.seen;
      })
      p

-- In every phase the local state is the phase's.
pub Phase-IsValid : {s : SimService} {a : AcState} {v : Status} → Phase s a v → IsValid s.sim
Phase-IsValid (Phase.login_due h) = h.sim_valid
Phase-IsValid (Phase.login_asked h) = h.sim_valid
Phase-IsValid (Phase.registered h p) = h.settled.sim_valid

pub Live-IsValid : (s : SimService) → Live s → IsValid s.sim
Live-IsValid s h = Phase-IsValid h.phase

pub Phase-state :
    {s : SimService} {a : AcState} {v : Status} → Phase s a v → s.controller.client.ac_state ≡ a
Phase-state (Phase.login_due h) = h.state
Phase-state (Phase.login_asked h) = h.state
Phase-state (Phase.registered h p) = h.state

low_or_kept :
    (zero? : Bool) (t old asked : ℕ)
    → t ≡ (if zero? then t else asked)
    → (zero? ≡ true → t ≡ old)
    → old < 128
    → (zero? ≡ true) ⊎ (asked < 128)
    → t < 128
low_or_kept zero? t old asked g k l c = ground arith

request-Facts :
    (s : SimService) (u : AcUnitState) (a : AcState) (v : Status)
    → s.controller.client.ac_state ≡ a
    → IsLow u
    → Facts a v
    → Facts (begin_update s.controller u).client.ac_state v
request-Facts s u a v e l f =
    let k = begin_update-Keeps s.controller u in
    record {
      no_step = k.swing_step_kept ∙ ap (λ (x : AcState). x.swing_step) e ∙ f.no_step;
      low =
          low_or_kept (is_zero u.setpoint_temperature) _ s.controller.client.ac_state.temperature
            (u8_of_ℤ u.setpoint_temperature)
            (begin_update-Granted s.controller u).temperature_granted k.temperature_kept
            (omega (arith, ap (λ (x : AcState). x.temperature) e, f.low)) l;
      unit_low = f.unit_low;
      same_error = f.same_error ∙ sym (k.error_flag_kept ∙ ap (λ (x : AcState). x.error_flag) e);
    }

pub request-Live : (s : SimService) (u : AcUnitState) → IsLow u → Live s → Live (request s u)
request-Live s u l h = record {
  a = (begin_update s.controller u).client.ac_state;
  v = h.v;
  phase = request-Phase s u h.a h.v h.phase;
  facts = request-Facts s u h.a h.v (Phase-state h.phase) l h.facts;
}

-- The register behind a key.
abbrev pub keyed : Press → Status → Status
keyed p v = record (assign (key_write p) v) { update_magic = 4 }

pub press-Phase :
    (s : SimService) (p : Press) (a : AcState) (v : Status)
    → Fits (key_write p)
    → (h : Phase s a v)
    → (k : Phase (record s { sim = press p s.sim }) a (keyed p v)) × (rounds_left k ≡ rounds_left h)
press-Phase s p a v g (Phase.login_due h) = (
  Phase.login_due (record {
    sim_valid = press-IsValid p s.sim h.sim_valid;
    sim_status = press-next_query_register p s.sim ∙ h.sim_status;
    login_due = h.login_due;
    no_error = h.no_error;
    state = h.state;
    seen = press-view p s.sim h.sim_valid g ∙ ap (keyed p) h.seen;
  }),
  refl,
)
press-Phase s p a v g (Phase.login_asked h) = (
  Phase.login_asked (record {
    sim_valid = press-IsValid p s.sim h.sim_valid;
    sim_login = press-next_query_register p s.sim ∙ h.sim_login;
    idle = h.idle;
    state = h.state;
    seen = press-view p s.sim h.sim_valid g ∙ ap (keyed p) h.seen;
  }),
  refl,
)
press-Phase s p a v g (Phase.registered h c) =
    (Phase.registered (press-At s a v p g h) ((key_keeps p v).0 ∙ c), refl)

pub keyed_low :
    (p : Press) (v : Status)
    → Fits (key_write p)
    → v.temperature < 128
    → (keyed p v).temperature < 128
keyed_low (Press.temperature t) v g l = g
keyed_low _ v g l = l

pub press-Live :
    (s : SimService) (p : Press)
    → Fits (key_write p)
    → Live s
    → Live (record s { sim = press p s.sim })
press-Live s p g h = record {
  a = h.a;
  v = keyed p h.v;
  phase = (press-Phase s p h.a h.v g h.phase).0;
  facts = record {
    no_step = h.facts.no_step;
    low = h.facts.low;
    unit_low = keyed_low p h.v g h.facts.unit_low;
    same_error = (key_keeps p h.v).1 ∙ h.facts.same_error;
  };
}
