-- ===== src/Server/Interleaved/Agreement.antt =====
-- What an interleaved session leads to when only steps of DoLoop follow it.
use fuji_iot.Base.{ℕ, ◌≤◌, ◌≡◌, ap, Option, none, List, inl, arith}
use fuji_iot.Frame.{MasterFrame}
use fuji_iot.Controller.{AcUnitState}
use fuji_iot.Controller.Update.{Asks}
use fuji_iot.Server.Update.{request}
use fuji_iot.Server.Session.{Event, AllAllowed, IsLow}
use fuji_iot.Server.Session.Append.{round_events}
use fuji_iot.Server.Session.Live.{Phase-state, request-Live}
use fuji_iot.Server.Session.Wishes.{Wish}
use fuji_iot.Server.Session.Agreement.{Agrees}
use fuji_iot.Server.Interleaved.{Exchange, new_exchange, occur, interleave}
use fuji_iot.Server.Interleaved.Behind.{KeyedWish}
use fuji_iot.Server.Interleaved.Going.{Going, before, interleave-Going, new_exchange-Going}
use fuji_iot.Server.Interleaved.Settled.{Grants, settled_between, settled_within, waits}

held_as :
    (x : Exchange) (h : Option MasterFrame)
    → x.held ≡ h
    → x ≡ record { service = x.service; held = h }
held_as x h e =
    ap
      (λ (y : Option MasterFrame). let r : Exchange = record { service = x.service; held = y } in r)
      e

settled : (n : ℕ) (x : Exchange) → Going x → 11 ≤ n → Agrees (interleave (round_events n) x).service
settled n x (Going.between e h) l =
    rw (held_as x none e) (settled_between n x.service h.a h.v h.phase h.facts (omega (arith, l))).0
settled n x (Going.within sim ps g e k h) l =
    rw (held_as x _ e) (settled_within n x.service sim ps h.a h.v g k h.phase h.facts l).0

granted :
    (n : ℕ) (x : Exchange) (u : AcUnitState)
    → Going x
    → IsLow u
    → Asks u
    → 11 ≤ n
    → Grants u (interleave (round_events n) (occur (Event.call u) x)).service
unfolding occur
granted n x u (Going.between e h) low asks l =
    let live = request-Live x.service u low h in
    let (agrees, grants) =
      settled_between n (request x.service u) live.a live.v live.phase live.facts
        (omega (arith, l)) in
    let wish : Wish u live.a live.v =
      inl (rw (← Phase-state live.phase) (waits x.service u asks)) in
    rw (held_as x none e) (agrees, grants u wish)
granted n x u (Going.within sim ps g e k h) low asks l =
    let live = request-Live (before x.service sim) u low h in
    let (agrees, grants) =
      settled_within n (request x.service u) sim ps live.a live.v g k live.phase live.facts l in
    let wish : KeyedWish u live.a live.v ps =
      inl (rw (← Phase-state live.phase) (waits x.service u asks)) in
    rw (held_as x _ e) (agrees, grants u wish)

-- Behind any interleaved session and eleven or more steps of DoLoop, controller and unit agree.
pub interleave-Agrees :
    (es : List Event) (n : ℕ)
    → AllAllowed es
    → 11 ≤ n
    → Agrees (interleave (round_events n) (interleave es new_exchange)).service
interleave-Agrees es n ok l = settled n _ (interleave-Going es new_exchange ok new_exchange-Going) l

-- If a call of Update that sets at least one field comes before them, then the unit does what it asks.
pub interleave-Grants :
    (es : List Event) (u : AcUnitState) (n : ℕ)
    → AllAllowed es
    → IsLow u
    → Asks u
    → 11 ≤ n
    → Grants u
        (interleave (round_events n) (occur (Event.call u) (interleave es new_exchange))).service
interleave-Grants es u n ok low asks l =
    granted n _ u (interleave-Going es new_exchange ok new_exchange-Going) low asks l
