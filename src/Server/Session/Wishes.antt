-- ===== src/Server/Session/Wishes.antt =====
-- What becomes of a request on its way through the rounds of a session.
use fuji_iot.Base.{◌<◌, ◌≡◌, refl, ap, true, false, not, arith, ◌⊎◌, inl, inr}
use fuji_iot.Register.View.{Status}
use fuji_iot.State.{AcState}
use fuji_iot.State.Laws.{with_status, with_settings, is_fan}
use fuji_iot.Handler.Replies.{blank_status}
use fuji_iot.Handler.Delivery.{written}
use fuji_iot.Sim.Push.{adopt}
use fuji_iot.Controller.{AcUnitState, is_zero}
use fuji_iot.Controller.Update.{Granted}
use fuji_iot.Server.Rounds.{polled_view}
use fuji_iot.Server.Update.{UnitGrants, exchanged_temperature}

-- A request is on its way in the local state, or the unit does what it asks.
abbrev pub Wish : AcUnitState → AcState → Status → Type 0
Wish u a v = ((a.merged ≡ false) × Granted u a) ⊎ ((a.merged ≡ true) × UnitGrants u v)

pub polled-UnitGrants :
    (u : AcUnitState) (v : Status) → UnitGrants u v → UnitGrants u (polled_view v)
polled-UnitGrants u v g = record {
  mode_granted = g.mode_granted;
  fan_granted = g.fan_granted;
  temperature_granted = g.temperature_granted;
}

pub polled-Wish :
    (u : AcUnitState) (a : AcState) (v : Status) → Wish u a v → Wish u a (polled_view v)
polled-Wish u a v (inl w) = inl w
polled-Wish u a v (inr (m, g)) = inr (m, polled-UnitGrants u v g)

-- A merge keeps a wish that the unit grants.
pub merged-Wish :
    (u : AcUnitState) (a : AcState) (v : Status)
    → a.merged ≡ true
    → Wish u a v
    → Wish u (with_status v a) (polled_view v)
merged-Wish u a v m (inl (n, g)) = cc
merged-Wish u a v m (inr (_, g)) = inr (refl, polled-UnitGrants u v g)

-- The register that has the controller in it.
abbrev pub with_registration : Status → Status
with_registration v = record v { update_magic = 10; controller_present = true }

pub registered-Wish :
    (u : AcUnitState) (a : AcState) (v : Status) → Wish u a v → Wish u a (with_registration v)
registered-Wish u a v (inl w) = inl w
registered-Wish u a v (inr (m, g)) = inr (
  m,
  record {
    mode_granted = g.mode_granted;
    fan_granted = g.fan_granted;
    temperature_granted = g.temperature_granted;
  },
)

-- The register that has taken over the settings of a state.
abbrev pub handed_over : AcState → Status → Status
handed_over a v = adopt (with_settings a blank_status) v

pub handed_over_low :
    (a : AcState) (v : Status) → a.temperature < 128 → (handed_over a v).temperature < 128
handed_over_low a v l = ground arith

pub written-Wish :
    (u : AcUnitState) (a : AcState) (v : Status)
    → a.merged ≡ false
    → a.swing_step ≡ false
    → Wish u a v
    → Wish u (written a) (handed_over a v)
written-Wish u a v m w (inr (n, g)) = cc
written-Wish u a v m w (inl (_, g)) = inr (
  ap not w,
  record {
    mode_granted = g.mode_granted;
    fan_granted = g.fan_granted;
    temperature_granted =
        exchanged_temperature (is_fan a.mode) (is_zero u.setpoint_temperature) a.temperature _
          g.temperature_granted;
  },
)
