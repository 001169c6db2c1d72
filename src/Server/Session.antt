-- ===== src/Server/Session.antt =====
-- controller/fuji_ac_server.cc: sessions of the service over the simulated unit, in which rounds of
-- DoLoop, keys of the unit's remote control and calls of Update come in any order.
pub mod Append
pub mod Live
pub mod Wishes
pub mod Unmerged
pub mod Rounds
pub mod Agreement
use fuji_iot.Base.{◌<◌, ◌≡◌, true, ◌⊎◌, List, [], ◌∷◌}
use fuji_iot.Controller.{AcUnitState, is_zero, u8_of_ℤ}
use fuji_iot.Register.Writes.{Fits}
use fuji_iot.Server.{SimService, cycle}
use fuji_iot.Server.Update.{request}
use fuji_iot.Server.Remote.{Press, press, key_write}

pub data Event : Type 0 where
  round : Event
  key : Press → Event
  call : AcUnitState → Event

unfoldable pub happen : Event → SimService → SimService
happen Event.round s = cycle s
happen (Event.key p) s = record s { sim = press p s.sim }
happen (Event.call u) s = request s u

-- The service behind a list of events.
unfoldable pub session : List Event → SimService → SimService
unfolding happen
session [] s = s
session (e ∷ es) s = session es (happen e s)

-- A setpoint that is not set, or fits the seven bits of its field.
abbrev pub IsLow : AcUnitState → Type 0
IsLow u = (is_zero u.setpoint_temperature ≡ true) ⊎ (u8_of_ℤ u.setpoint_temperature < 128)

-- No event stores a temperature of 128 or more.
abbrev pub Allowed : Event → Type 0
Allowed Event.round = Unit
Allowed (Event.key p) = Fits (key_write p)
Allowed (Event.call u) = IsLow u

abbrev pub AllAllowed : List Event → Type 0
AllAllowed [] = Unit
AllAllowed (e ∷ es) = Allowed e × AllAllowed es
