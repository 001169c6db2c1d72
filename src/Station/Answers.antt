-- ===== src/Station/Answers.antt =====
-- The RPC methods GetStatus and Update of controller/fuji_ac_server.cc behind their waits: what the
-- waiting calls respond with, once the controller is ready.
use fuji_iot.Base.{
  ℕ, zero, suc, ◌+◌, ◌≡◌, refl, sym, ap, ◌∙◌, true, List, [], ◌∷◌, ◌++◌, length, arith,
}
use mathlib.Core.Path.{subst}
use fuji_iot.Controller.{AcUnitState, Controller, read_status}
use fuji_iot.Daemon.{Daemon, Call, resume}
use fuji_iot.Station.{wake_at, wake_call}
use fuji_iot.Station.Unit.{wake_call-controller}

-- Some calls go on, one after the other.
unfoldable pub wake_calls : List ℕ → Daemon → Daemon
wake_calls [] d = d
wake_calls (n ∷ ns) d = wake_calls ns (wake_call n d)

abbrev pub copies : ℕ → AcUnitState → List AcUnitState
copies zero r = []
copies (suc n) r = r ∷ copies n r

-- Enough to end all calls: the first one that waits goes on, again and again.
abbrev pub firsts : ℕ → List ℕ
firsts zero = []
firsts (suc n) = 0 ∷ firsts n

-- How often the waiting calls still go on: Update twice, and GetStatus once.
abbrev pub waits_left : List Call → ℕ
waits_left [] = 0
waits_left (Call.update_waits ∷ cs) = suc (suc (waits_left cs))
waits_left (Call.status_waits ∷ cs) = suc (waits_left cs)

-- In whatever order the calls go on, every response is `r`, and one for each call that is over; and
-- all calls end.
pub record Answered (r : AcUnitState) (d : Daemon) : Type 0 where
  pub any_order :
      (ns : List ℕ)
      → (k : ℕ) × ((wake_calls ns d).responses ≡ copies k r ++ d.responses)
        × (k + length (wake_calls ns d).calls ≡ length d.calls)
  pub all_end : (wake_calls (firsts (waits_left d.calls)) d).calls ≡ []

length-append : (xs ys : List Call) → length (xs ++ ys) ≡ length xs + length ys
length-append [] ys = omega arith
length-append (x ∷ xs) ys = omega (arith, length-append xs ys)

-- What one wait's end adds.
record Added (r : AcUnitState) (d e : Daemon) : Type 0 where
  given : ℕ
  responses : e.responses ≡ copies given r ++ d.responses
  calls : given + length e.calls ≡ length d.calls

resume-Added :
    (d : Daemon) (before : List Call) (c : Call) (after : List Call)
    → length d.calls ≡ length before + suc (length after)
    → Added (read_status d.controller) d (resume d before c after)
unfolding resume
resume-Added d before Call.update_waits after e = record {
  given = 0;
  responses = refl;
  calls = omega (arith, length-append before (Call.status_waits ∷ after), e);
}
resume-Added d before Call.status_waits after e = record {
  given = 1;
  responses = refl;
  calls = omega (arith, length-append before after, e);
}

wake_at-Added :
    (d : Daemon) (before cs : List Call) (n : ℕ)
    → length d.calls ≡ length before + length cs
    → Added (read_status d.controller) d (wake_at d before cs n)
unfolding wake_at
wake_at-Added d before [] n e = record { given = 0; responses = refl; calls = omega arith }
wake_at-Added d before (c ∷ cs) zero e = resume-Added d before c cs e
wake_at-Added d before (c ∷ cs) (suc n) e =
    wake_at-Added d (before ++ c ∷ []) cs n (omega (arith, e, length-append before (c ∷ [])))

-- If the controller is ready, then the call of a number goes on.
pub wake_call-ready :
    (n : ℕ) (d : Daemon) → d.controller.ready ≡ true → wake_call n d ≡ wake_at d [] d.calls n
unfolding wake_call
wake_call-ready n d h = ground arith

wake_call-Added :
    (n : ℕ) (d : Daemon)
    → d.controller.ready ≡ true
    → Added (read_status d.controller) d (wake_call n d)
wake_call-Added n d h =
    subst (Added (read_status d.controller) d) (sym (wake_call-ready n d h))
      (wake_at-Added d [] d.calls n (omega arith))

copies-append :
    (k j n : ℕ) (r : AcUnitState) (l : List AcUnitState)
    → n ≡ k + j
    → copies k r ++ (copies j r ++ l) ≡ copies n r ++ l
copies-append zero j n r l e = ap (λ (m : ℕ). copies m r ++ l) (omega (arith, e))
copies-append (suc k) j zero r l e = absurd (omega (arith, e))
copies-append (suc k) j (suc n) r l e =
    ap (λ (x : List AcUnitState). r ∷ x) (copies-append k j n r l (omega (arith, e)))

Added-trans : (r : AcUnitState) (d e f : Daemon) → Added r d e → Added r e f → Added r d f
Added-trans r d e f a b = record {
  given = b.given + a.given;
  responses =
      b.responses
      ∙ ap (λ (l : List AcUnitState). copies b.given r ++ l) a.responses
      ∙ copies-append b.given a.given (b.given + a.given) r d.responses refl;
  calls = omega (arith, a.calls, b.calls);
}

wake_calls-Added :
    (ns : List ℕ) (d : Daemon) (r : AcUnitState)
    → d.controller.ready ≡ true
    → read_status d.controller ≡ r
    → Added r d (wake_calls ns d)
unfolding wake_calls
wake_calls-Added [] d r h e = record { given = 0; responses = refl; calls = omega arith }
wake_calls-Added (n ∷ ns) d r h e =
    let same = (wake_call-controller n d).0 in
    let one = subst (λ x. Added x d (wake_call n d)) e (wake_call-Added n d h) in
    let rest =
      wake_calls-Added ns (wake_call n d) r (ap (λ (c : Controller). c.ready) same ∙ h)
        (ap read_status same ∙ e) in
    Added-trans r d (wake_call n d) (wake_calls ns (wake_call n d)) one rest

-- The first of the waiting calls goes on.
first_call :
    (c : Call) (cs : List Call) (d : Daemon)
    → d.calls ≡ c ∷ cs
    → d.controller.ready ≡ true
    → wake_call 0 d ≡ resume d [] c cs
unfolding wake_at
first_call c cs d e h = wake_call-ready 0 d h ∙ ap (λ (l : List Call). wake_at d [] l 0) e

AllEnd : List Call → Type 0
AllEnd cs =
    (d : Daemon)
    → d.calls ≡ cs
    → d.controller.ready ≡ true
    → (wake_calls (firsts (waits_left cs)) d).calls ≡ []

status-AllEnd : (cs : List Call) → AllEnd cs → AllEnd (Call.status_waits ∷ cs)
unfolding AllEnd wake_calls resume
status-AllEnd cs rest d e h =
    subst (λ (x : Daemon). (wake_calls (firsts (waits_left cs)) x).calls ≡ [])
      (sym (first_call Call.status_waits cs d e h)) (rest (resume d [] Call.status_waits cs) refl h)

calls-AllEnd : (cs : List Call) → AllEnd cs
unfolding AllEnd wake_calls resume
calls-AllEnd [] d e h = e
calls-AllEnd (Call.status_waits ∷ cs) d e h = status-AllEnd cs (calls-AllEnd cs) d e h
calls-AllEnd (Call.update_waits ∷ cs) d e h =
    subst (λ (x : Daemon). (wake_calls (firsts (suc (waits_left cs))) x).calls ≡ [])
      (sym (first_call Call.update_waits cs d e h))
      (status-AllEnd cs (calls-AllEnd cs) (resume d [] Call.update_waits cs) refl h)

pub ready-Answered :
    (d : Daemon) (r : AcUnitState)
    → d.controller.ready ≡ true
    → read_status d.controller ≡ r
    → Answered r d
unfolding AllEnd
ready-Answered d r h e = record {
  any_order = λ ns. let a = wake_calls-Added ns d r h e in (a.given, a.responses, a.calls);
  all_end = calls-AllEnd d.calls d refl h;
}
