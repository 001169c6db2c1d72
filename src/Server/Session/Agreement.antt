-- ===== src/Server/Session/Agreement.antt =====
-- What a session leads to when only rounds of DoLoop follow it.
use fuji_iot.Sim.Laws.{new_sim-IsValid}
use fuji_iot.Base.{
  ◌+◌, ◌-◌, ◌≤◌, ℕ, zero, suc, ◌≡◌, refl, sym, ap, ◌∙◌, true, arith, inl, inr, List, [], ◌∷◌,
}
use fuji_iot.Register.View.{Status, view}
use fuji_iot.Register
use fuji_iot.State.{AcState, initial_state}
use fuji_iot.Sim
use fuji_iot.Controller.{AcUnitState, begin_update, make_controller, read_status}
use fuji_iot.Controller.Update.{Asks, begin_update-merged, begin_update-Granted}
use fuji_iot.Server.{SimService, new_sim_service, cycle, cycles}
use fuji_iot.Server.Convergence.{At, two_reads}
use fuji_iot.Server.Update.{UnitGrants, report, request, read_status-At}
use fuji_iot.Server.Session.{Event, AllAllowed, Allowed, IsLow, happen, session}
use fuji_iot.Server.Session.Live.{
  Phase, rounds_left, Facts, Live, Phase-state, request-Live, press-Live,
}
use fuji_iot.Server.Session.Rounds.{After, cycle-After, registered-Served}
use fuji_iot.Server.Session.Wishes.{Wish, polled-UnitGrants}

-- The controller and the unit agree, and no call has to wait.
pub record Agrees (s : SimService) : Type 0 where
  pub ready : s.controller.ready ≡ true
  pub nothing_to_write : s.controller.client.ac_state.merged ≡ true
  pub reported : read_status s.controller ≡ report (view (Sim.status s.sim))

Wish-granted :
    (u : AcUnitState) (a : AcState) (v : Status) → a.merged ≡ true → Wish u a v → UnitGrants u v
Wish-granted u a v m (inl (n, g)) = cc
Wish-granted u a v m (inr (_, g)) = g

-- Three rounds after the registration.
three_rounds :
    (s : SimService) (a : AcState) (v : Status)
    → At s a v
    → v.controller_present ≡ true
    → Facts a v
    → let s' = cycle (cycle (cycle s)) in
      Agrees s' × ((u : AcUnitState) → Wish u a v → UnitGrants u (view (Sim.status s'.sim)))
three_rounds s a v h p f =
    let one = registered-Served s a v h p f in
    let (h3, ready) =
      two_reads (cycle s) one.a' one.v' one.service one.nothing_to_write one.present
        one.facts.same_error in
    (
      record {
        ready = ready;
        nothing_to_write = ap (λ (x : AcState). x.merged) h3.state;
        reported = read_status-At _ one.a' one.v' _ h3 ∙ ap report (sym h3.seen);
      },
      λ u w. rw (h3.seen) (
          polled-UnitGrants u one.v'
            (Wish-granted u one.a' one.v' one.nothing_to_write (one.wish u w))),
    )

-- A number of rounds keeps the service in its phases.
pub cycles-After :
    (n : ℕ) (s : SimService) (a : AcState) (v : Status) (p : Phase s a v)
    → Facts a v
    → After (cycles n s) a v (rounds_left p - n)
unfolding cycles
cycles-After zero s a v p f = record {
  a' = a;
  v' = v;
  phase = p;
  closer = omega arith;
  facts = f;
  wish = λ u w. w;
}
cycles-After (suc n) s a v p f =
    let one = cycle-After s a v p f in
    let rest = cycles-After n (cycle s) one.a' one.v' one.phase one.facts in
    record {
      a' = rest.a';
      v' = rest.v';
      phase = rest.phase;
      closer = omega (arith, rest.closer, one.closer);
      facts = rest.facts;
      wish = λ u w. rest.wish u (one.wish u w);
    }

pub cycles-add : (n m : ℕ) (s : SimService) → cycles (n + m) s ≡ cycles m (cycles n s)
unfolding cycles
cycles-add zero m s = let e : 0 + m ≡ m = omega arith in ap (λ (k : ℕ). cycles k s) e
cycles-add (suc n) m s =
    let e : suc n + m ≡ suc (n + m) = omega arith in
    ap (λ (k : ℕ). cycles k s) e ∙ cycles-add n m (cycle s)

registered_phase :
    {s : SimService} {a : AcState} {v : Status} (p : Phase s a v)
    → rounds_left p ≡ 0
    → At s a v × (v.controller_present ≡ true)
registered_phase (Phase.login_due h) e = absurd (omega (arith, e))
registered_phase (Phase.login_asked h) e = absurd (omega (arith, e))
registered_phase (Phase.registered h p) e = (h, p)

rounds_left_le : {s : SimService} {a : AcState} {v : Status} (p : Phase s a v) → rounds_left p ≤ 2
rounds_left_le (Phase.login_due h) = omega arith
rounds_left_le (Phase.login_asked h) = omega arith
rounds_left_le (Phase.registered h p) = omega arith

-- Five rounds are enough in every phase.
pub five_rounds :
    (n : ℕ) (s : SimService) (a : AcState) (v : Status)
    → Phase s a v
    → Facts a v
    → 5 ≤ n
    → Agrees (cycles n s)
      × ((u : AcUnitState) → Wish u a v → UnitGrants u (view (Sim.status (cycles n s).sim)))
five_rounds n s a v p f l =
    let r = cycles-After (n - 3) s a v p f in
    let (h, c) = registered_phase r.phase (omega (arith, r.closer, rounds_left_le p)) in
    let (agrees, grants) = three_rounds (cycles (n - 3) s) r.a' r.v' h c r.facts in
    let k : n ≡ (n - 3) + 3 = omega arith in
    let e = ap (λ (m : ℕ). cycles m s) k ∙ cycles-add (n - 3) 3 s in
    unfold cycles in rw e (agrees, λ u w. grants u (r.wish u w))

pub new_sim_service-Live : Live new_sim_service
unfolding make_controller view Register.temperature Register.error
    fuji_iot.Register.Layout.extract_bits
new_sim_service-Live = record {
  a = initial_state;
  v = view (Sim.status new_sim_service.sim);
  phase = Phase.login_due (record {
    sim_valid = new_sim-IsValid;
    sim_status = refl;
    login_due = refl;
    no_error = refl;
    state = refl;
    seen = refl;
  });
  facts = record { no_step = refl; low = omega arith; unit_low = omega arith; same_error = refl };
}

pub happen-Live : (e : Event) (s : SimService) → Allowed e → Live s → Live (happen e s)
unfolding happen
happen-Live Event.round s ok h =
    let r = cycle-After s h.a h.v h.phase h.facts in
    record { a = r.a'; v = r.v'; phase = r.phase; facts = r.facts }
happen-Live (Event.key p) s ok h = press-Live s p ok h
happen-Live (Event.call u) s ok h = request-Live s u ok h

pub session-Live : (es : List Event) (s : SimService) → AllAllowed es → Live s → Live (session es s)
unfolding session
session-Live [] s ok h = h
session-Live (e ∷ es) s (ok, oks) h = session-Live es (happen e s) oks (happen-Live e s ok h)

-- Controller and unit come to agree from every point of a session: after the start of the service
-- over the simulated unit, any list of rounds, setter calls at the unit and calls of Update with
-- temperatures below 128, and then five or more rounds, the controller is ready and has nothing to
-- write, and GetStatus reports what the unit's register says.
pub session-Agrees :
    (es : List Event) (n : ℕ)
    → AllAllowed es
    → 5 ≤ n
    → Agrees (cycles n (session es new_sim_service))
session-Agrees es n ok l =
    let h = session-Live es new_sim_service ok new_sim_service-Live in
    (five_rounds n _ h.a h.v h.phase h.facts l).0

-- Every request of Update is granted within five rounds, whatever came before it. Start the service
-- over the simulated unit, and let rounds of DoLoop, setter calls at the unit and calls of Update
-- happen in any order and number, also before the registration, with temperatures below 128. Then
-- let a call of Update come that sets at least one field, with a temperature below 128 if it sets
-- one, and after it five or more rounds and nothing else. Then the controller is ready and has
-- nothing to write, GetStatus reports what the unit's register says, and the unit has the requested
-- mode and fan, and the requested temperature if one is set (18 in fan mode).
pub session_grants :
    (es : List Event) (u : AcUnitState) (n : ℕ)
    → AllAllowed es
    → IsLow u
    → Asks u
    → 5 ≤ n
    → let s = cycles n (request (session es new_sim_service) u) in
      Agrees s × UnitGrants u (view (Sim.status s.sim))
session_grants es u n ok low asks l =
    let s = session es new_sim_service in
    let h = request-Live s u low (session-Live es new_sim_service ok new_sim_service-Live) in
    let (agrees, grants) = five_rounds n (request s u) h.a h.v h.phase h.facts l in
    let wish : Wish u (begin_update s.controller u).client.ac_state h.v =
      inl (begin_update-merged s.controller u asks, begin_update-Granted s.controller u) in
    (agrees, grants u (rw (← Phase-state h.phase) wish))
