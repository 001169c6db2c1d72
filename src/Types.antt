-- ===== src/Types.antt =====
-- protocol/fuji_types.h: the operation modes and the fan speeds, with their numbers on the wire.
use fuji_iot.Base.{ℕ}

-- mode_t.
pub data Mode : Type 0 where
  unknown fan dry cool heat auto : Mode

-- fan_t.
pub data Fan : Type 0 where
  auto low medium high max unknown : Fan

-- static_cast<uint8_t>(mode).
abbrev pub mode_code : Mode → ℕ
mode_code Mode.unknown = 0
mode_code Mode.fan = 1
mode_code Mode.dry = 2
mode_code Mode.cool = 3
mode_code Mode.heat = 4
mode_code Mode.auto = 5

-- static_cast<uint8_t>(fan).
abbrev pub fan_code : Fan → ℕ
fan_code Fan.auto = 0
fan_code Fan.low = 1
fan_code Fan.medium = 2
fan_code Fan.high = 3
fan_code Fan.max = 4
fan_code Fan.unknown = 5
