-- ===== src/Tests/Golden/Unit.antt =====
-- sim/fuji_ac_unit_sim_test.cc: traffic captured from an original unit.
use fuji_iot.Base.{◌≡◌, refl, true, false, not, List, [], ◌∷◌, ◌==◌}
use fuji_iot.Types.{Mode, Fan, mode_code, fan_code}
use fuji_iot.Register
use fuji_iot.Sim
use fuji_iot.Sim.{new_sim}
use fuji_iot.Tests.Golden.Replay.{frame8}
use fuji_iot.Tests.Golden.ReplaySim.{Event, exchange, change, check, replay, replay_all}

abbrev startup : List Event
startup =
    exchange (frame8 0x00 0xa0 0x00 0x46 0x12 0xa0 0x00 0x20)
      (frame8 0x20 0x81 0x20 0x00 0x00 0x00 0x00 0x00)
    ∷ exchange (frame8 0x00 0xa0 0x20 0x1f 0x1f 0x05 0x01 0x00)
        (frame8 0x20 0xa1 0x00 0x46 0x12 0x00 0x2f 0x00)
    ∷ exchange (frame8 0x00 0xa0 0x00 0x46 0x12 0xa0 0x01 0x20)
        (frame8 0x20 0x81 0x00 0x46 0x12 0x00 0x2f 0x00)
    ∷ exchange (frame8 0x00 0xa0 0x00 0x46 0x12 0xa0 0x01 0x20)
        (frame8 0x20 0x81 0x00 0x46 0x12 0x00 0x2f 0x00)
    ∷ []

startup_passes : replay new_sim startup ≡ true
unfolding replay_all
startup_passes = refl

abbrev test_reconnect : List Event
test_reconnect =
    change (λ s. Sim.with_status s (Register.set_controller_present (Sim.status s) true))
    ∷ exchange (frame8 0x00 0xa0 0x00 0x46 0x12 0xa0 0x01 0x20)
        (frame8 0x20 0x81 0x20 0x00 0x00 0x00 0x00 0x00)
    ∷ exchange (frame8 0x00 0xa0 0x20 0x1f 0x1f 0x05 0x01 0x00)
        (frame8 0x20 0xa1 0x00 0x46 0x12 0x00 0x2f 0x00)
    ∷ exchange (frame8 0x00 0xa0 0x00 0x46 0x12 0xa0 0x01 0x20)
        (frame8 0x20 0x81 0x00 0x46 0x12 0x00 0x2f 0x00)
    ∷ []

test_reconnect_passes : replay new_sim test_reconnect ≡ true
unfolding replay_all
test_reconnect_passes = refl

abbrev remote_turn_on_turn_off : List Event
remote_turn_on_turn_off =
    change (λ s. Sim.with_status s (Register.set_controller_present (Sim.status s) true))
    ∷ exchange (frame8 0x00 0xa0 0x00 0x46 0x12 0xa0 0x01 0x20)
        (frame8 0x20 0x81 0x00 0x46 0x12 0x00 0x2f 0x00)
    ∷ change (λ s. Sim.set_enabled s true)
    ∷ change (λ s. Sim.set_temperature s 22)
    ∷ exchange (frame8 0x00 0xa0 0x00 0x47 0x16 0x40 0x01 0x20)
        (frame8 0x20 0x81 0x00 0x47 0x16 0x00 0x2f 0x00)
    ∷ exchange (frame8 0x00 0xa0 0x00 0x47 0x16 0xa0 0x01 0x20)
        (frame8 0x20 0x81 0x00 0x47 0x16 0x00 0x2f 0x00)
    ∷ change (λ s. Sim.set_enabled s false)
    ∷ exchange (frame8 0x00 0xa0 0x00 0x46 0x16 0x40 0x01 0x20)
        (frame8 0x20 0x81 0x00 0x46 0x16 0x00 0x2f 0x00)
    ∷ exchange (frame8 0x00 0xa0 0x00 0x46 0x16 0xa0 0x01 0x20)
        (frame8 0x20 0x81 0x00 0x46 0x16 0x00 0x2f 0x00)
    ∷ []

remote_turn_on_turn_off_passes : replay new_sim remote_turn_on_turn_off ≡ true
unfolding replay_all
remote_turn_on_turn_off_passes = refl

abbrev turn_on : List Event
turn_on =
    change (λ s. Sim.with_status s (Register.set_controller_present (Sim.status s) true))
    ∷ change (λ s. Sim.with_status s (Register.set_temperature (Sim.status s) 23))
    ∷ change (λ s. Sim.with_status s (Register.set_fan (Sim.status s) Fan.auto))
    ∷ exchange (frame8 0x00 0xa0 0x00 0x06 0x17 0xa0 0x01 0x20)
        (frame8 0x20 0x81 0x00 0x06 0x17 0x00 0x2f 0x00)
    ∷ exchange (frame8 0x00 0xa0 0x00 0x06 0x17 0xa0 0x01 0x20)
        (frame8 0x20 0x81 0x08 0x07 0x17 0x00 0x2f 0x00)
    ∷ exchange (frame8 0x00 0xa0 0x00 0x07 0x17 0x00 0x01 0x20)
        (frame8 0x20 0x81 0x00 0x07 0x17 0x00 0x2f 0x00)
    ∷ exchange (frame8 0x00 0xa0 0x00 0x07 0x17 0xa0 0x01 0x20)
        (frame8 0x20 0x81 0x00 0x07 0x17 0x00 0x2f 0x00)
    ∷ check (λ s. Register.enabled (Sim.status s))
    ∷ []

turn_on_passes : replay new_sim turn_on ≡ true
unfolding replay_all
turn_on_passes = refl

abbrev wired_control_golden : List Event
wired_control_golden =
    change (λ s. Sim.with_status s (Register.set_controller_present (Sim.status s) true))
    ∷ change (λ s. Sim.with_status s (Register.set_temperature (Sim.status s) 23))
    ∷ change (λ s. Sim.with_status s (Register.set_fan (Sim.status s) Fan.auto))
    ∷ exchange (frame8 0x00 0xa0 0x00 0x06 0x17 0xa0 0x01 0x20)
        (frame8 0x20 0x81 0x00 0x06 0x17 0x00 0x2f 0x00)
    ∷ exchange (frame8 0x00 0xa0 0x00 0x06 0x17 0xa0 0x01 0x20)
        (frame8 0x20 0x81 0x08 0x07 0x17 0x00 0x2f 0x00)
    ∷ exchange (frame8 0x00 0xa0 0x00 0x07 0x17 0x00 0x01 0x20)
        (frame8 0x20 0x81 0x00 0x07 0x17 0x00 0x2f 0x00)
    ∷ exchange (frame8 0x00 0xa0 0x00 0x07 0x17 0xa0 0x01 0x20)
        (frame8 0x20 0x81 0x00 0x07 0x17 0x00 0x2f 0x00)
    ∷ exchange (frame8 0x00 0xa0 0x00 0x07 0x17 0xa0 0x01 0x20)
        (frame8 0x20 0x81 0x00 0x07 0x17 0x00 0x2f 0x00)
    ∷ check (λ s. Register.enabled (Sim.status s))
    ∷ exchange (frame8 0x00 0xa0 0x00 0x07 0x17 0xa0 0x01 0x20)
        (frame8 0x20 0x81 0x08 0x07 0x12 0x00 0x2f 0x00)
    ∷ exchange (frame8 0x00 0xa0 0x00 0x07 0x12 0x00 0x01 0x20)
        (frame8 0x20 0x81 0x00 0x07 0x12 0x00 0x2f 0x00)
    ∷ exchange (frame8 0x00 0xa0 0x00 0x07 0x12 0xa0 0x01 0x20)
        (frame8 0x20 0x81 0x00 0x07 0x12 0x00 0x2f 0x00)
    ∷ check (λ s. Register.temperature (Sim.status s) == 18)
    ∷ exchange (frame8 0x00 0xa0 0x00 0x07 0x12 0xa0 0x01 0x20)
        (frame8 0x20 0x81 0x08 0x07 0x16 0x00 0x2f 0x00)
    ∷ exchange (frame8 0x00 0xa0 0x00 0x07 0x16 0x00 0x01 0x20)
        (frame8 0x20 0x81 0x00 0x07 0x16 0x00 0x2f 0x00)
    ∷ exchange (frame8 0x00 0xa0 0x00 0x07 0x16 0xa0 0x01 0x20)
        (frame8 0x20 0x81 0x00 0x07 0x16 0x00 0x2f 0x00)
    ∷ check (λ s. Register.temperature (Sim.status s) == 22)
    ∷ exchange (frame8 0x00 0xa0 0x00 0x07 0x16 0xa0 0x01 0x20)
        (frame8 0x20 0x81 0x08 0x47 0x16 0x00 0x2f 0x00)
    ∷ exchange (frame8 0x00 0xa0 0x00 0x47 0x16 0x00 0x01 0x20)
        (frame8 0x20 0x81 0x00 0x47 0x16 0x00 0x2f 0x00)
    ∷ exchange (frame8 0x00 0xa0 0x00 0x47 0x16 0xa0 0x01 0x20)
        (frame8 0x20 0x81 0x00 0x47 0x16 0x00 0x2f 0x00)
    ∷ check (λ s. fan_code (Register.fan (Sim.status s)) == fan_code Fan.max)
    ∷ exchange (frame8 0x00 0xa0 0x00 0x47 0x16 0xa0 0x01 0x20)
        (frame8 0x20 0x81 0x08 0x37 0x16 0x00 0x2f 0x00)
    ∷ exchange (frame8 0x00 0xa0 0x00 0x37 0x16 0x00 0x01 0x20)
        (frame8 0x20 0x81 0x00 0x37 0x16 0x00 0x2f 0x00)
    ∷ exchange (frame8 0x00 0xa0 0x00 0x37 0x16 0xa0 0x01 0x20)
        (frame8 0x20 0x81 0x00 0x37 0x16 0x00 0x2f 0x00)
    ∷ check (λ s. fan_code (Register.fan (Sim.status s)) == fan_code Fan.high)
    ∷ exchange (frame8 0x00 0xa0 0x00 0x37 0x16 0xa0 0x01 0x20)
        (frame8 0x20 0x81 0x08 0x27 0x16 0x00 0x2f 0x00)
    ∷ exchange (frame8 0x00 0xa0 0x00 0x27 0x16 0x00 0x01 0x20)
        (frame8 0x20 0x81 0x00 0x27 0x16 0x00 0x2f 0x00)
    ∷ exchange (frame8 0x00 0xa0 0x00 0x27 0x16 0xa0 0x01 0x20)
        (frame8 0x20 0x81 0x00 0x27 0x16 0x00 0x2f 0x00)
    ∷ check (λ s. fan_code (Register.fan (Sim.status s)) == fan_code Fan.medium)
    ∷ exchange (frame8 0x00 0xa0 0x00 0x27 0x16 0xa0 0x01 0x20)
        (frame8 0x20 0x81 0x08 0x17 0x16 0x00 0x2f 0x00)
    ∷ exchange (frame8 0x00 0xa0 0x00 0x17 0x16 0x00 0x01 0x20)
        (frame8 0x20 0x81 0x00 0x17 0x16 0x00 0x2f 0x00)
    ∷ exchange (frame8 0x00 0xa0 0x00 0x17 0x16 0xa0 0x01 0x20)
        (frame8 0x20 0x81 0x00 0x17 0x16 0x00 0x2f 0x00)
    ∷ check (λ s. fan_code (Register.fan (Sim.status s)) == fan_code Fan.low)
    ∷ exchange (frame8 0x00 0xa0 0x00 0x17 0x16 0xa0 0x01 0x20)
        (frame8 0x20 0x81 0x08 0x07 0x16 0x00 0x2f 0x00)
    ∷ exchange (frame8 0x00 0xa0 0x00 0x07 0x16 0x00 0x01 0x20)
        (frame8 0x20 0x81 0x00 0x07 0x16 0x00 0x2f 0x00)
    ∷ exchange (frame8 0x00 0xa0 0x00 0x07 0x16 0xa0 0x01 0x20)
        (frame8 0x20 0x81 0x00 0x07 0x16 0x00 0x2f 0x00)
    ∷ check (λ s. fan_code (Register.fan (Sim.status s)) == fan_code Fan.auto)
    ∷ exchange (frame8 0x00 0xa0 0x00 0x07 0x16 0xa0 0x01 0x20)
        (frame8 0x20 0x81 0x08 0x05 0x1a 0x00 0x2f 0x00)
    ∷ exchange (frame8 0x00 0xa0 0x00 0x05 0x1a 0x00 0x01 0x20)
        (frame8 0x20 0x81 0x00 0x05 0x1a 0x00 0x2f 0x00)
    ∷ exchange (frame8 0x00 0xa0 0x00 0x05 0x1a 0xa0 0x01 0x20)
        (frame8 0x20 0x81 0x00 0x05 0x1a 0x00 0x2f 0x00)
    ∷ check (λ s. mode_code (Register.mode (Sim.status s)) == mode_code Mode.dry)
    ∷ check (λ s. Register.temperature (Sim.status s) == 26)
    ∷ exchange (frame8 0x00 0xa0 0x00 0x05 0x1a 0xa0 0x01 0x20)
        (frame8 0x20 0x81 0x08 0x09 0x15 0x00 0x2f 0x00)
    ∷ exchange (frame8 0x00 0xa0 0x00 0x09 0x15 0x00 0x01 0x20)
        (frame8 0x20 0x81 0x00 0x09 0x15 0x00 0x2f 0x00)
    ∷ exchange (frame8 0x00 0xa0 0x00 0x09 0x15 0xa0 0x01 0x20)
        (frame8 0x20 0x81 0x00 0x09 0x15 0x00 0x2f 0x00)
    ∷ check (λ s. mode_code (Register.mode (Sim.status s)) == mode_code Mode.heat)
    ∷ check (λ s. Register.temperature (Sim.status s) == 21)
    ∷ exchange (frame8 0x00 0xa0 0x00 0x09 0x15 0xa0 0x01 0x20)
        (frame8 0x20 0x81 0x08 0x03 0x00 0x00 0x2f 0x00)
    ∷ exchange (frame8 0x00 0xa0 0x00 0x03 0x12 0x40 0x01 0x20)
        (frame8 0x20 0x81 0x00 0x03 0x00 0x00 0x2f 0x00)
    ∷ exchange (frame8 0x00 0xa0 0x00 0x03 0x12 0xa0 0x01 0x20)
        (frame8 0x20 0x81 0x00 0x03 0x00 0x00 0x2f 0x00)
    ∷ check (λ s. mode_code (Register.mode (Sim.status s)) == mode_code Mode.fan)
    ∷ exchange (frame8 0x00 0xa0 0x00 0x03 0x12 0xa0 0x01 0x20)
        (frame8 0x20 0x81 0x08 0x0b 0x18 0x00 0x2f 0x00)
    ∷ exchange (frame8 0x00 0xa0 0x00 0x0b 0x18 0x00 0x01 0x20)
        (frame8 0x20 0x81 0x00 0x0b 0x18 0x00 0x2f 0x00)
    ∷ exchange (frame8 0x00 0xa0 0x00 0x0b 0x18 0xa0 0x01 0x20)
        (frame8 0x20 0x81 0x00 0x0b 0x18 0x00 0x2f 0x00)
    ∷ check (λ s. mode_code (Register.mode (Sim.status s)) == mode_code Mode.auto)
    ∷ check (λ s. Register.temperature (Sim.status s) == 24)
    ∷ exchange (frame8 0x00 0xa0 0x00 0x0b 0x18 0xa0 0x01 0x20)
        (frame8 0x20 0x81 0x08 0x03 0x00 0x00 0x2f 0x00)
    ∷ exchange (frame8 0x00 0xa0 0x00 0x03 0x12 0x40 0x01 0x20)
        (frame8 0x20 0x81 0x00 0x03 0x00 0x00 0x2f 0x00)
    ∷ exchange (frame8 0x00 0xa0 0x00 0x03 0x12 0xa0 0x01 0x20)
        (frame8 0x20 0x81 0x00 0x03 0x00 0x00 0x2f 0x00)
    ∷ check (λ s. mode_code (Register.mode (Sim.status s)) == mode_code Mode.fan)
    ∷ exchange (frame8 0x00 0xa0 0x00 0x03 0x12 0xa0 0x01 0x20)
        (frame8 0x20 0x81 0x08 0x07 0x16 0x00 0x2f 0x00)
    ∷ exchange (frame8 0x00 0xa0 0x00 0x07 0x16 0x00 0x01 0x20)
        (frame8 0x20 0x81 0x00 0x07 0x16 0x00 0x2f 0x00)
    ∷ exchange (frame8 0x00 0xa0 0x00 0x07 0x16 0xa0 0x01 0x20)
        (frame8 0x20 0x81 0x00 0x07 0x16 0x00 0x2f 0x00)
    ∷ check (λ s. mode_code (Register.mode (Sim.status s)) == mode_code Mode.cool)
    ∷ check (λ s. Register.temperature (Sim.status s) == 22)
    ∷ exchange (frame8 0x00 0xa0 0x00 0x07 0x16 0xa0 0x01 0x20)
        (frame8 0x20 0x81 0x08 0x07 0x96 0x00 0x2f 0x00)
    ∷ exchange (frame8 0x00 0xa0 0x00 0x07 0x96 0x00 0x01 0x20)
        (frame8 0x20 0x81 0x00 0x07 0x96 0x00 0x2f 0x00)
    ∷ exchange (frame8 0x00 0xa0 0x00 0x07 0x96 0xa0 0x01 0x20)
        (frame8 0x20 0x81 0x00 0x07 0x96 0x00 0x2f 0x00)
    ∷ check (λ s. Register.economy (Sim.status s))
    ∷ exchange (frame8 0x00 0xa0 0x00 0x07 0x96 0xa0 0x01 0x20)
        (frame8 0x20 0x81 0x08 0x07 0x16 0x00 0x2f 0x00)
    ∷ exchange (frame8 0x00 0xa0 0x00 0x07 0x16 0x00 0x01 0x20)
        (frame8 0x20 0x81 0x00 0x07 0x16 0x00 0x2f 0x00)
    ∷ exchange (frame8 0x00 0xa0 0x00 0x07 0x16 0xa0 0x01 0x20)
        (frame8 0x20 0x81 0x00 0x07 0x16 0x00 0x2f 0x00)
    ∷ check (λ s. not (Register.economy (Sim.status s)))
    ∷ exchange (frame8 0x00 0xa0 0x00 0x07 0x16 0xa0 0x01 0x20)
        (frame8 0x20 0x81 0x08 0x07 0x16 0x04 0x2f 0x00)
    ∷ exchange (frame8 0x00 0xa0 0x00 0x07 0x16 0x04 0x01 0x20)
        (frame8 0x20 0x81 0x00 0x07 0x16 0x04 0x2f 0x00)
    ∷ exchange (frame8 0x00 0xa0 0x00 0x07 0x16 0xa4 0x01 0x20)
        (frame8 0x20 0x81 0x00 0x07 0x16 0x04 0x2f 0x00)
    ∷ check (λ s. Register.swing (Sim.status s))
    ∷ exchange (frame8 0x00 0xa0 0x00 0x07 0x16 0xa4 0x01 0x20)
        (frame8 0x20 0x81 0x08 0x07 0x16 0x00 0x2f 0x00)
    ∷ exchange (frame8 0x00 0xa0 0x00 0x07 0x16 0x00 0x01 0x20)
        (frame8 0x20 0x81 0x00 0x07 0x16 0x00 0x2f 0x00)
    ∷ exchange (frame8 0x00 0xa0 0x00 0x07 0x16 0xa0 0x01 0x20)
        (frame8 0x20 0x81 0x00 0x07 0x16 0x00 0x2f 0x00)
    ∷ check (λ s. not (Register.swing (Sim.status s)))
    ∷ exchange (frame8 0x00 0xa0 0x00 0x07 0x16 0xa0 0x01 0x20)
        (frame8 0x20 0x81 0x08 0x07 0x16 0x02 0x2f 0x00)
    ∷ check (λ s. Register.swing_step (Sim.status s))
    ∷ exchange (frame8 0x00 0xa0 0x00 0x07 0x16 0x00 0x01 0x20)
        (frame8 0x20 0x81 0x08 0x07 0x16 0x00 0x2f 0x00)
    ∷ check (λ s. not (Register.swing_step (Sim.status s)))
    ∷ exchange (frame8 0x00 0xa0 0x00 0x07 0x16 0x00 0x01 0x20)
        (frame8 0x20 0x81 0x00 0x07 0x16 0x00 0x2f 0x00)
    ∷ exchange (frame8 0x00 0xa0 0x00 0x07 0x16 0xa0 0x01 0x20)
        (frame8 0x20 0x81 0x00 0x07 0x16 0x00 0x2f 0x00)
    ∷ exchange (frame8 0x00 0xa0 0x00 0x07 0x16 0xa0 0x01 0x20)
        (frame8 0x20 0x81 0x08 0x07 0x16 0x02 0x2f 0x00)
    ∷ check (λ s. Register.swing_step (Sim.status s))
    ∷ exchange (frame8 0x00 0xa0 0x00 0x07 0x16 0x00 0x01 0x20)
        (frame8 0x20 0x81 0x08 0x07 0x16 0x00 0x2f 0x00)
    ∷ check (λ s. not (Register.swing_step (Sim.status s)))
    ∷ exchange (frame8 0x00 0xa0 0x00 0x07 0x16 0x00 0x01 0x20)
        (frame8 0x20 0x81 0x00 0x07 0x16 0x00 0x2f 0x00)
    ∷ exchange (frame8 0x00 0xa0 0x00 0x07 0x16 0xa0 0x01 0x20)
        (frame8 0x20 0x81 0x00 0x07 0x16 0x00 0x2f 0x00)
    ∷ exchange (frame8 0x00 0xa0 0x00 0x07 0x16 0xa0 0x01 0x20)
        (frame8 0x20 0x81 0x08 0x07 0x16 0x04 0x2f 0x00)
    ∷ exchange (frame8 0x00 0xa0 0x00 0x07 0x16 0x04 0x01 0x20)
        (frame8 0x20 0x81 0x00 0x07 0x16 0x04 0x2f 0x00)
    ∷ exchange (frame8 0x00 0xa0 0x00 0x07 0x16 0xa4 0x01 0x20)
        (frame8 0x20 0x81 0x00 0x07 0x16 0x04 0x2f 0x00)
    ∷ check (λ s. Register.swing (Sim.status s))
    ∷ exchange (frame8 0x00 0xa0 0x00 0x07 0x16 0xa4 0x01 0x20)
        (frame8 0x20 0x81 0x08 0x07 0x16 0x00 0x2f 0x00)
    ∷ exchange (frame8 0x00 0xa0 0x00 0x07 0x16 0x00 0x01 0x20)
        (frame8 0x20 0x81 0x00 0x07 0x16 0x00 0x2f 0x00)
    ∷ exchange (frame8 0x00 0xa0 0x00 0x07 0x16 0xa0 0x01 0x20)
        (frame8 0x20 0x81 0x00 0x07 0x16 0x00 0x2f 0x00)
    ∷ check (λ s. not (Register.swing (Sim.status s)))
    ∷ []

wired_control_golden_passes : replay new_sim wired_control_golden ≡ true
unfolding replay_all
wired_control_golden_passes = refl
