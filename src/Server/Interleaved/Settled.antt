-- ===== src/Server/Interleaved/Settled.antt =====
-- What steps of DoLoop alone lead to, from between two rounds and from within one.
use fuji_iot.Base.{
  ℕ, zero, suc, ◌+◌, ◌≤◌, ◌≡◌, refl, sym, ap, ◌∙◌, Bool, false, none, some, List, ◌⊎◌, inl, inr,
  arith,
}
use fuji_iot.Base.Bytes.{Bytes5, IsBytes5}
use fuji_iot.Register.View.{Status, view, view-set_update_magic}
use fuji_iot.Frame.{MasterFrame, RegisterType}
use fuji_iot.State.{AcState}
use fuji_iot.Sim
use fuji_iot.Sim.{Sim, get_next_master_frame}
use fuji_iot.Sim.Laws.{IsValid, status-IsBytes5, polled, get_next_master_frame-polled}
use fuji_iot.Controller.{AcUnitState, begin_update, do_loop_round}
use fuji_iot.Controller.Update.{Asks, Granted, begin_update-merged, begin_update-Granted}
use fuji_iot.Server.{SimService, cycle, cycles}
use fuji_iot.Server.Rounds.{view-polled}
use fuji_iot.Server.Update.{UnitGrants, report}
use fuji_iot.Server.Remote.{Press, press_all, AllPressable}
use fuji_iot.Server.Session.Append.{round_events}
use fuji_iot.Server.Session.Live.{Phase, Facts, Phase-IsValid}
use fuji_iot.Server.Session.Wishes.{Wish}
use fuji_iot.Server.Session.Agreement.{Agrees, five_rounds, cycles-After}
use fuji_iot.Server.Interleaved.{Exchange, read_frame, answer_frame, advance, occur, interleave}
use fuji_iot.Server.Interleaved.Keys.{busy_round}
use fuji_iot.Server.Interleaved.Behind.{KeyedWish}
use fuji_iot.Server.Interleaved.Rounds.{busy_round-Behind}
use fuji_iot.Server.Interleaved.Going.{before, answer-busy_round}

-- A poll leaves what GetStatus reports of a register.
view-polled_any :
    (t : RegisterType) (r : Bytes5)
    → IsBytes5 r
    → (step : Bool) × (view (polled t r) ≡ record (view r) { swing_step = step; update_magic = 10 })
view-polled_any RegisterType.status r h = (false, view-polled r h)
view-polled_any RegisterType.unknown r h = (false, view-polled r h)
view-polled_any RegisterType.error r h =
    ((view r).swing_step, view-set_update_magic r 10 h (omega arith))
view-polled_any RegisterType.login r h =
    ((view r).swing_step, view-set_update_magic r 10 h (omega arith))

-- The controller and the unit agree, and the unit does what a request asks.
abbrev pub Grants : AcUnitState → SimService → Type 0
Grants u s = Agrees s × UnitGrants u (view (Sim.status s.sim))

view-read_frame :
    (s : SimService)
    → IsValid s.sim
    → (step : Bool) × (view (Sim.status (read_frame s).service.sim)
        ≡ record (view (Sim.status s.sim)) { swing_step = step; update_magic = 10 })
unfolding read_frame
view-read_frame s h =
    let (step, e) = view-polled_any s.sim.next_query_register _ (status-IsBytes5 s.sim h) in
    (step, ap (λ (x : Sim). view (Sim.status x)) (get_next_master_frame-polled s.sim) ∙ e)

read_frame-Agrees : (s : SimService) → IsValid s.sim → Agrees s → Agrees (read_frame s).service
unfolding read_frame
read_frame-Agrees s h a =
    let (step, e) = view-read_frame s h in
    record {
      ready = a.ready;
      nothing_to_write = a.nothing_to_write;
      reported = a.reported ∙ ap report (sym e);
    }

read_frame-UnitGrants :
    (s : SimService) (u : AcUnitState)
    → IsValid s.sim
    → UnitGrants u (view (Sim.status s.sim))
    → UnitGrants u (view (Sim.status (read_frame s).service.sim))
read_frame-UnitGrants s u h g =
    let (step, e) = view-read_frame s h in
    rw e (record {
      mode_granted = g.mode_granted;
      fan_granted = g.fan_granted;
      temperature_granted = g.temperature_granted;
    })

abbrev between_rounds : SimService → Exchange
between_rounds s = record { service = s; held = none }

-- Steps from between two rounds: whole rounds, and a read perhaps.
halves :
    (n : ℕ) (s : SimService)
    → (k : ℕ) × (n ≤ suc (k + k))
      × ((interleave (round_events n) (between_rounds s) ≡ between_rounds (cycles k s))
          ⊎ (interleave (round_events n) (between_rounds s) ≡ read_frame (cycles k s)))
unfolding interleave occur advance read_frame answer_frame cycles cycle do_loop_round
halves zero s = (0, omega arith, inl refl)
halves (suc zero) s = (0, omega arith, inr refl)
halves (suc (suc n)) s = let (k, l, e) = halves n (cycle s) in (suc k, omega (arith, l), e)

-- Ten steps from between two rounds.
pub settled_between :
    (n : ℕ) (s : SimService) (a : AcState) (v : Status)
    → Phase s a v
    → Facts a v
    → 10 ≤ n
    → let s' = (interleave (round_events n) (between_rounds s)).service in
      Agrees s' × ((u : AcUnitState) → Wish u a v → UnitGrants u (view (Sim.status s'.sim)))
settled_between n s a v p f l =
    let (k, few, ends) = halves n s in
    let (agrees, grants) = five_rounds k s a v p f (omega (arith, few, l)) in
    let valid = Phase-IsValid (cycles-After k s a v p f).phase in
    elim ends [
      | inl e ↦ rw e (agrees, grants)
      | inr e ↦ rw e (
        read_frame-Agrees (cycles k s) valid agrees,
        λ u w. read_frame-UnitGrants (cycles k s) u valid (grants u w),
      )
    ]

answer_first :
    (n : ℕ) (s : SimService) (f : MasterFrame)
    → interleave (round_events (suc n)) (record { service = s; held = some f })
      ≡ interleave (round_events n) (between_rounds (answer_frame s f))
unfolding interleave occur advance
answer_first n s f = refl

-- A request that sets a field waits to be written.
pub waits :
    (s : SimService) (u : AcUnitState)
    → Asks u
    → ((begin_update s.controller u).client.ac_state.merged ≡ false)
      × Granted u (begin_update s.controller u).client.ac_state
waits s u asks = (begin_update-merged s.controller u asks, begin_update-Granted s.controller u)

-- Eleven steps from within a round: the frame in hand is answered first.
pub settled_within :
    (n : ℕ) (s : SimService) (sim : Sim) (ps : List Press) (a : AcState) (v : Status)
    → AllPressable ps
    → s.sim ≡ press_all ps (get_next_master_frame sim).0
    → Phase (before s sim) a v
    → Facts a v
    → 11 ≤ n
    → let held = some (get_next_master_frame sim).1 in
      let s' = (interleave (round_events n) (record { service = s; held = held })).service in
      Agrees s' × ((u : AcUnitState) → KeyedWish u a v ps → UnitGrants u (view (Sim.status s'.sim)))
settled_within zero s sim ps a v g e p f l = absurd (omega (arith, l))
settled_within (suc n) s sim ps a v g e p f l =
    let s₀ = before s sim in
    let r = busy_round-Behind ps s₀ a v g p f in
    let (agrees, grants) =
      settled_between n (busy_round ps s₀) r.a' r.v' r.phase r.facts (omega (arith, l)) in
    let answered =
      answer_first n s (get_next_master_frame sim).1
      ∙ ap (λ (x : SimService). interleave (round_events n) (between_rounds x))
          (answer-busy_round s sim ps e) in
    rw answered (agrees, λ u w. grants u (r.wish u w))
