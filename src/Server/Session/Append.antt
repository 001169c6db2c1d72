-- ===== src/Server/Session/Append.antt =====
-- Sessions of controller/fuji_ac_server.cc, one behind the other, and rounds of DoLoop as events.
use fuji_iot.Base.{ℕ, zero, suc, ◌≡◌, refl, List, [], ◌∷◌, ◌++◌}
use fuji_iot.Controller.{AcUnitState}
use fuji_iot.Server.{SimService, cycle, cycles}
use fuji_iot.Server.Update.{request}
use fuji_iot.Server.Session.{Event, AllAllowed, happen, session}

-- A number of rounds, as events.
abbrev pub round_events : ℕ → List Event
round_events zero = []
round_events (suc n) = Event.round ∷ round_events n

session-round_events : (n : ℕ) (s : SimService) → session (round_events n) s ≡ cycles n s
unfolding session happen cycles
session-round_events zero s = refl
session-round_events (suc n) s = session-round_events n (cycle s)

pub session-append :
    (es fs : List Event) (s : SimService) → session (es ++ fs) s ≡ session fs (session es s)
unfolding session
session-append [] fs s = refl
session-append (e ∷ es) fs s = session-append es fs (happen e s)

pub session_call :
    (u : AcUnitState) (n : ℕ) (s : SimService)
    → session (Event.call u ∷ round_events n) s ≡ cycles n (request s u)
unfolding session happen
session_call u n s = session-round_events n (request s u)

pub append-AllAllowed : (es fs : List Event) → AllAllowed es → AllAllowed fs → AllAllowed (es ++ fs)
append-AllAllowed [] fs a b = b
append-AllAllowed (e ∷ es) fs (a, rest) b = (a, append-AllAllowed es fs rest b)

pub prefix-AllAllowed : (es fs : List Event) → AllAllowed (es ++ fs) → AllAllowed es
prefix-AllAllowed [] fs a = tt
prefix-AllAllowed (e ∷ es) fs (a, rest) = (a, prefix-AllAllowed es fs rest)

pub suffix-AllAllowed : (es fs : List Event) → AllAllowed (es ++ fs) → AllAllowed fs
suffix-AllAllowed [] fs a = a
suffix-AllAllowed (e ∷ es) fs (_, rest) = suffix-AllAllowed es fs rest
