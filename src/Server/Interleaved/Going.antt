-- ===== src/Server/Interleaved/Going.antt =====
-- Where an interleaved session stands: between two rounds of DoLoop, or within one.
use fuji_iot.Base.{◌≡◌, refl, ap, ◌∙◌, Option, none, some, List, [], ◌∷◌, ◌++◌}
use fuji_iot.Register.Writes.{Fits}
use fuji_iot.Frame.{MasterFrame}
use fuji_iot.Sim.{Sim, get_next_master_frame}
use fuji_iot.Server.{SimService}
use fuji_iot.Server.Remote.{Press, press, press_all, key_write, AllPressable}
use fuji_iot.Server.Session.{Event, Allowed, AllAllowed}
use fuji_iot.Server.Session.Live.{Live, request-Live, press-Live}
use fuji_iot.Server.Session.Agreement.{new_sim_service-Live}
use fuji_iot.Server.Interleaved.{
  Exchange, new_exchange, read_frame, answer_frame, advance, occur, interleave,
}
use fuji_iot.Server.Interleaved.Keys.{busy_round}
use fuji_iot.Server.Interleaved.Rounds.{busy_round-Behind}

-- The service as it was before the frame in hand was read, but for calls of Update since.
abbrev pub before : SimService → Sim → SimService
before s sim = record s { sim = sim }

pub data Going (x : Exchange) : Type 0 where
  between : x.held ≡ none → Live x.service → Going x
  within :
      (sim : Sim) (ps : List Press)
      → AllPressable ps
      → x.held ≡ some (get_next_master_frame sim).1
      → x.service.sim ≡ press_all ps (get_next_master_frame sim).0
      → Live (before x.service sim)
      → Going x

press_all-last :
    (ps : List Press) (p : Press) (s : Sim) → press p (press_all ps s) ≡ press_all (ps ++ p ∷ []) s
unfolding press_all
press_all-last [] p s = refl
press_all-last (q ∷ ps) p s = press_all-last ps p (press q s)

last-AllPressable :
    (ps : List Press) (p : Press)
    → AllPressable ps
    → Fits (key_write p)
    → AllPressable (ps ++ p ∷ [])
last-AllPressable [] p g h = (h, tt)
last-AllPressable (q ∷ ps) p (g, gs) h = (g, last-AllPressable ps p gs h)

-- The answer to the frame in hand ends a round with the keys in it.
pub answer-busy_round :
    (s : SimService) (sim : Sim) (ps : List Press)
    → s.sim ≡ press_all ps (get_next_master_frame sim).0
    → answer_frame s (get_next_master_frame sim).1 ≡ busy_round ps (before s sim)
answer-busy_round s sim ps e =
    ap (λ (y : Sim). answer_frame (record s { sim = y }) (get_next_master_frame sim).1) e

advance-Going :
    (s : SimService) (held : Option MasterFrame)
    → Going (record { service = s; held = held })
    → Going (advance s held)
unfolding advance read_frame press_all get_next_master_frame
advance-Going s held (Going.between e h) = rw e (Going.within s.sim [] tt refl refl h)
advance-Going s held (Going.within sim ps g e k h) =
    let r = busy_round-Behind ps (before s sim) h.a h.v g h.phase h.facts in
    rw (e, answer-busy_round s sim ps k)
      (Going.between refl (record { a = r.a'; v = r.v'; phase = r.phase; facts = r.facts }))

occur-Going : (e : Event) (x : Exchange) → Allowed e → Going x → Going (occur e x)
unfolding occur
occur-Going Event.round x ok h = advance-Going x.service x.held h
occur-Going (Event.key p) x ok (Going.between e h) = Going.between e (press-Live x.service p ok h)
occur-Going (Event.key p) x ok (Going.within sim ps g e k h) =
    Going.within sim (ps ++ p ∷ []) (last-AllPressable ps p g ok) e
      (ap (press p) k ∙ press_all-last ps p (get_next_master_frame sim).0) h
occur-Going (Event.call u) x ok (Going.between e h) =
    Going.between e (request-Live x.service u ok h)
occur-Going (Event.call u) x ok (Going.within sim ps g e k h) =
    Going.within sim ps g e k (request-Live (before x.service sim) u ok h)

pub interleave-Going :
    (es : List Event) (x : Exchange) → AllAllowed es → Going x → Going (interleave es x)
unfolding interleave
interleave-Going [] x ok h = h
interleave-Going (e ∷ es) x (ok, oks) h = interleave-Going es (occur e x) oks (occur-Going e x ok h)

pub new_exchange-Going : Going new_exchange
new_exchange-Going = Going.between refl new_sim_service-Live
