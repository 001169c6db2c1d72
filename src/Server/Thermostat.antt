-- ===== src/Server/Thermostat.antt =====
-- controller/fuji_ac_server.cc: the service over the simulated unit as its users see it, a record of
-- settings that calls of Update and keys of the remote control change. The service has three rounds
-- of DoLoop or more for each of them.
pub mod Steady
pub mod Refinement
use fuji_iot.Base.{ℕ, ◌+◌, ◌≡◌, Bool, true, false, List, [], ◌∷◌, if◌then◌else◌}
use fuji_iot.Types.{Mode, Fan}
use fuji_iot.Register.View.{Status}
use fuji_iot.State.Laws.{is_fan}
use fuji_iot.Controller.{
  ℤ, AcUnitState, ProtoMode, ProtoFan, pos, is_zero, u8_of_ℤ, proto_mode, proto_fan,
}
use fuji_iot.Controller.Update.{Asks}
use fuji_iot.Server.{SimService, cycles}
use fuji_iot.Server.Update.{request}
use fuji_iot.Server.Remote.{Press, press_all, AllPressable}
use fuji_iot.Server.Session.{IsLow}

-- What users see of the unit.
pub record Settings : Type 0 where
  pub enabled : Bool
  pub mode : Mode
  pub fan : Fan
  pub temperature : ℕ
  pub economy : Bool
  pub swing : Bool

abbrev pub settings_of : Status → Settings
settings_of v = record {
  enabled = v.enabled;
  mode = v.mode;
  fan = v.fan;
  temperature = v.temperature;
  economy = v.economy;
  swing = v.swing;
}

-- The fields that a request names, and the other ones as they were.
abbrev pub asked_enabled : ProtoMode → Bool → Bool
asked_enabled ProtoMode.mode_unknown b = b
asked_enabled ProtoMode.mode_off b = false
asked_enabled _ b = true

abbrev pub asked_mode : ProtoMode → Mode → Mode
asked_mode ProtoMode.mode_auto m = Mode.auto
asked_mode ProtoMode.mode_cool m = Mode.cool
asked_mode ProtoMode.mode_heat m = Mode.heat
asked_mode ProtoMode.mode_dry m = Mode.dry
asked_mode ProtoMode.mode_fan m = Mode.fan
asked_mode _ m = m

abbrev pub asked_fan : ProtoFan → Fan → Fan
asked_fan ProtoFan.fan_auto f = Fan.auto
asked_fan ProtoFan.fan_max f = Fan.max
asked_fan ProtoFan.fan_high f = Fan.high
asked_fan ProtoFan.fan_medium f = Fan.medium
asked_fan ProtoFan.fan_low f = Fan.low
asked_fan ProtoFan.fan_unknown f = f

abbrev pub asked_temperature : ℤ → ℕ → ℕ
asked_temperature z t = if is_zero z then t else u8_of_ℤ z

-- A request as an assignment; in fan mode the temperature is 18 and the economy off.
abbrev pub asked : AcUnitState → Settings → Settings
asked u s =
    let m = asked_mode u.mode s.mode in
    record s {
      enabled = asked_enabled u.mode s.enabled;
      mode = m;
      fan = asked_fan u.fan s.fan;
      temperature = if is_fan m then 18 else asked_temperature u.setpoint_temperature s.temperature;
      economy = if is_fan m then false else s.economy;
    }

abbrev pub keyed : Press → Settings → Settings
keyed (Press.enabled b) s = record s { enabled = b }
keyed (Press.economy b) s = record s { economy = b }
keyed (Press.swing b) s = record s { swing = b }
keyed (Press.swing_step b) s = s
keyed (Press.temperature t) s = record s { temperature = t }
keyed (Press.fan f) s = record s { fan = f }
keyed (Press.mode m) s = record s { mode = m }

abbrev pub keyed_all : List Press → Settings → Settings
keyed_all [] s = s
keyed_all (p ∷ ps) s = keyed_all ps (keyed p s)

-- A call of Update, or some keys.
pub data Command : Type 0 where
  update : AcUnitState → Command
  keys : List Press → Command

-- A command, and how many rounds more than three the service has for it.
abbrev pub Commands : Type 0
Commands = List (Command × ℕ)

-- What a command does to the settings.
abbrev pub commanded : Command → Settings → Settings
commanded (Command.update u) s = asked u s
commanded (Command.keys ps) s = keyed_all ps s

abbrev pub commanded_all : Commands → Settings → Settings
commanded_all [] s = s
commanded_all ((c, n) ∷ cs) s = commanded_all cs (commanded c s)

-- What GetStatus says of settings.
abbrev pub told : Settings → AcUnitState
told s = record {
  mode = if s.enabled then proto_mode s.mode else ProtoMode.mode_off;
  fan = proto_fan s.fan;
  setpoint_temperature = pos s.temperature;
}

-- A request that sets a field, and no temperature of 128 or more.
abbrev pub IsPossible : Command → Type 0
IsPossible (Command.update u) = Asks u × IsLow u
IsPossible (Command.keys ps) = AllPressable ps

abbrev pub AllPossible : Commands → Type 0
AllPossible [] = Unit
AllPossible ((c, n) ∷ cs) = IsPossible c × AllPossible cs

-- A command to the service.
unfoldable pub give : Command → SimService → SimService
give (Command.update u) s = request s u
give (Command.keys ps) s = record s { sim = press_all ps s.sim }

-- Commands to the service, with rounds behind each of them.
unfoldable pub perform : Commands → SimService → SimService
unfolding give cycles
perform [] s = s
perform ((c, n) ∷ cs) s = perform cs (cycles n (cycles 3 (give c s)))
