-- ===== src/Tests/Golden/UnitRemote.antt =====
-- sim/fuji_ac_unit_sim_test.cc, TestGolden: changes made with the remote control.
use fuji_iot.Base.{◌≡◌, refl, true, false, List, [], ◌∷◌}
use fuji_iot.Types.{Mode, Fan}
use fuji_iot.Register
use fuji_iot.Sim
use fuji_iot.Sim.{new_sim}
use fuji_iot.Tests.Golden.Replay.{frame8}
use fuji_iot.Tests.Golden.ReplaySim.{Event, exchange, change, replay, replay_all}

abbrev test_golden : List Event
test_golden =
    change (λ s. Sim.with_status s (Register.set_controller_present (Sim.status s) true))
    ∷ change (λ s. Sim.with_status s (Register.set_temperature (Sim.status s) 22))
    ∷ change (λ s. Sim.with_status s (Register.set_enabled (Sim.status s) true))
    ∷ exchange (frame8 0x00 0xa0 0x00 0x47 0x16 0xa0 0x01 0x20)
        (frame8 0x20 0x81 0x00 0x47 0x16 0x00 0x2f 0x00)
    ∷ change (λ s. Sim.set_fan s Fan.high)
    ∷ exchange (frame8 0x00 0xa0 0x00 0x37 0x16 0x40 0x01 0x20)
        (frame8 0x20 0x81 0x00 0x37 0x16 0x00 0x2f 0x00)
    ∷ exchange (frame8 0x00 0xa0 0x00 0x37 0x16 0xa0 0x01 0x20)
        (frame8 0x20 0x81 0x00 0x37 0x16 0x00 0x2f 0x00)
    ∷ change (λ s. Sim.set_fan s Fan.medium)
    ∷ exchange (frame8 0x00 0xa0 0x00 0x27 0x16 0x40 0x01 0x20)
        (frame8 0x20 0x81 0x00 0x27 0x16 0x00 0x2f 0x00)
    ∷ exchange (frame8 0x00 0xa0 0x00 0x27 0x16 0xa0 0x01 0x20)
        (frame8 0x20 0x81 0x00 0x27 0x16 0x00 0x2f 0x00)
    ∷ change (λ s. Sim.set_fan s Fan.low)
    ∷ exchange (frame8 0x00 0xa0 0x00 0x17 0x16 0x40 0x01 0x20)
        (frame8 0x20 0x81 0x00 0x17 0x16 0x00 0x2f 0x00)
    ∷ exchange (frame8 0x00 0xa0 0x00 0x17 0x16 0xa0 0x01 0x20)
        (frame8 0x20 0x81 0x00 0x17 0x16 0x00 0x2f 0x00)
    ∷ change (λ s. Sim.set_fan s Fan.auto)
    ∷ exchange (frame8 0x00 0xa0 0x00 0x07 0x16 0x40 0x01 0x20)
        (frame8 0x20 0x81 0x00 0x07 0x16 0x00 0x2f 0x00)
    ∷ exchange (frame8 0x00 0xa0 0x00 0x07 0x16 0xa0 0x01 0x20)
        (frame8 0x20 0x81 0x00 0x07 0x16 0x00 0x2f 0x00)
    ∷ change (λ s. Sim.set_temperature s 18)
    ∷ exchange (frame8 0x00 0xa0 0x00 0x07 0x12 0x40 0x01 0x20)
        (frame8 0x20 0x81 0x00 0x07 0x12 0x00 0x2f 0x00)
    ∷ exchange (frame8 0x00 0xa0 0x00 0x07 0x12 0xa0 0x01 0x20)
        (frame8 0x20 0x81 0x00 0x07 0x12 0x00 0x2f 0x00)
    ∷ change (λ s. Sim.set_temperature s 22)
    ∷ exchange (frame8 0x00 0xa0 0x00 0x07 0x16 0x40 0x01 0x20)
        (frame8 0x20 0x81 0x00 0x07 0x16 0x00 0x2f 0x00)
    ∷ exchange (frame8 0x00 0xa0 0x00 0x07 0x16 0xa0 0x01 0x20)
        (frame8 0x20 0x81 0x00 0x07 0x16 0x00 0x2f 0x00)
    ∷ change (λ s. Sim.set_temperature s 25)
    ∷ exchange (frame8 0x00 0xa0 0x00 0x07 0x19 0x40 0x01 0x20)
        (frame8 0x20 0x81 0x00 0x07 0x19 0x00 0x2f 0x00)
    ∷ exchange (frame8 0x00 0xa0 0x00 0x07 0x19 0xa0 0x01 0x20)
        (frame8 0x20 0x81 0x00 0x07 0x19 0x00 0x2f 0x00)
    ∷ change (λ s. Sim.set_temperature s 30)
    ∷ exchange (frame8 0x00 0xa0 0x00 0x07 0x1e 0x40 0x01 0x20)
        (frame8 0x20 0x81 0x00 0x07 0x1e 0x00 0x2f 0x00)
    ∷ exchange (frame8 0x00 0xa0 0x00 0x07 0x1e 0xa0 0x01 0x20)
        (frame8 0x20 0x81 0x00 0x07 0x1e 0x00 0x2f 0x00)
    ∷ change (λ s. Sim.set_mode s Mode.dry)
    ∷ exchange (frame8 0x00 0xa0 0x00 0x05 0x1e 0x40 0x01 0x20)
        (frame8 0x20 0x81 0x00 0x05 0x1e 0x00 0x2f 0x00)
    ∷ exchange (frame8 0x00 0xa0 0x00 0x05 0x1e 0xa0 0x01 0x20)
        (frame8 0x20 0x81 0x00 0x05 0x1e 0x00 0x2f 0x00)
    ∷ change (λ s. Sim.set_mode s Mode.fan)
    ∷ exchange (frame8 0x00 0xa0 0x00 0x03 0x1e 0x40 0x01 0x20)
        (frame8 0x20 0x81 0x00 0x03 0x00 0x00 0x2f 0x00)
    ∷ exchange (frame8 0x00 0xa0 0x00 0x03 0x1e 0xa0 0x01 0x20)
        (frame8 0x20 0x81 0x00 0x03 0x00 0x00 0x2f 0x00)
    ∷ change (λ s. Sim.set_mode s Mode.heat)
    ∷ exchange (frame8 0x00 0xa0 0x00 0x09 0x1e 0x40 0x01 0x20)
        (frame8 0x20 0x81 0x00 0x09 0x1e 0x00 0x2f 0x00)
    ∷ exchange (frame8 0x00 0xa0 0x00 0x09 0x1e 0xa0 0x01 0x20)
        (frame8 0x20 0x81 0x00 0x09 0x1e 0x00 0x2f 0x00)
    ∷ change (λ s. Sim.set_mode s Mode.auto)
    ∷ exchange (frame8 0x00 0xa0 0x00 0x0b 0x1e 0x40 0x01 0x20)
        (frame8 0x20 0x81 0x00 0x0b 0x1e 0x00 0x2f 0x00)
    ∷ exchange (frame8 0x00 0xa0 0x00 0x0b 0x1e 0xa0 0x01 0x20)
        (frame8 0x20 0x81 0x00 0x0b 0x1e 0x00 0x2f 0x00)
    ∷ change (λ s. Sim.set_mode s Mode.cool)
    ∷ exchange (frame8 0x00 0xa0 0x00 0x07 0x1e 0x40 0x01 0x20)
        (frame8 0x20 0x81 0x00 0x07 0x1e 0x00 0x2f 0x00)
    ∷ exchange (frame8 0x00 0xa0 0x00 0x07 0x1e 0xa0 0x01 0x20)
        (frame8 0x20 0x81 0x00 0x07 0x1e 0x00 0x2f 0x00)
    ∷ change (λ s. Sim.set_economy s true)
    ∷ exchange (frame8 0x00 0xa0 0x00 0x07 0x9e 0x40 0x01 0x20)
        (frame8 0x20 0x81 0x00 0x07 0x9e 0x00 0x2f 0x00)
    ∷ exchange (frame8 0x00 0xa0 0x00 0x07 0x9e 0xa0 0x01 0x20)
        (frame8 0x20 0x81 0x00 0x07 0x9e 0x00 0x2f 0x00)
    ∷ change (λ s. Sim.set_economy s false)
    ∷ exchange (frame8 0x00 0xa0 0x00 0x07 0x1e 0x40 0x01 0x20)
        (frame8 0x20 0x81 0x00 0x07 0x1e 0x00 0x2f 0x00)
    ∷ exchange (frame8 0x00 0xa0 0x00 0x07 0x1e 0xa0 0x01 0x20)
        (frame8 0x20 0x81 0x00 0x07 0x1e 0x00 0x2f 0x00)
    ∷ change (λ s. Sim.set_swing s true)
    ∷ exchange (frame8 0x00 0xa0 0x00 0x07 0x1e 0x44 0x01 0x20)
        (frame8 0x20 0x81 0x00 0x07 0x1e 0x04 0x2f 0x00)
    ∷ exchange (frame8 0x00 0xa0 0x00 0x07 0x1e 0xa4 0x01 0x20)
        (frame8 0x20 0x81 0x00 0x07 0x1e 0x04 0x2f 0x00)
    ∷ change (λ s. Sim.set_swing s false)
    ∷ exchange (frame8 0x00 0xa0 0x00 0x07 0x1e 0x40 0x01 0x20)
        (frame8 0x20 0x81 0x00 0x07 0x1e 0x00 0x2f 0x00)
    ∷ exchange (frame8 0x00 0xa0 0x00 0x07 0x1e 0xa0 0x01 0x20)
        (frame8 0x20 0x81 0x00 0x07 0x1e 0x00 0x2f 0x00)
    ∷ change (λ s. Sim.set_temperature s 23)
    ∷ exchange (frame8 0x00 0xa0 0x00 0x07 0x17 0x40 0x01 0x20)
        (frame8 0x20 0x81 0x00 0x07 0x17 0x00 0x2f 0x00)
    ∷ exchange (frame8 0x00 0xa0 0x00 0x07 0x17 0xa0 0x01 0x20)
        (frame8 0x20 0x81 0x00 0x07 0x17 0x00 0x2f 0x00)
    ∷ change (λ s. Sim.set_swing_step s true)
    ∷ exchange (frame8 0x00 0xa0 0x00 0x07 0x17 0x40 0x01 0x20)
        (frame8 0x20 0x81 0x00 0x07 0x17 0x00 0x2f 0x00)
    ∷ exchange (frame8 0x00 0xa0 0x00 0x07 0x17 0xa0 0x01 0x20)
        (frame8 0x20 0x81 0x00 0x07 0x17 0x00 0x2f 0x00)
    ∷ change (λ s. Sim.set_swing_step s true)
    ∷ exchange (frame8 0x00 0xa0 0x00 0x07 0x17 0x40 0x01 0x20)
        (frame8 0x20 0x81 0x00 0x07 0x17 0x00 0x2f 0x00)
    ∷ exchange (frame8 0x00 0xa0 0x00 0x07 0x17 0xa0 0x01 0x20)
        (frame8 0x20 0x81 0x00 0x07 0x17 0x00 0x2f 0x00)
    ∷ change (λ s. Sim.set_swing_step s true)
    ∷ exchange (frame8 0x00 0xa0 0x00 0x07 0x17 0x40 0x01 0x20)
        (frame8 0x20 0x81 0x00 0x07 0x17 0x00 0x2f 0x00)
    ∷ exchange (frame8 0x00 0xa0 0x00 0x07 0x17 0xa0 0x01 0x20)
        (frame8 0x20 0x81 0x00 0x07 0x17 0x00 0x2f 0x00)
    ∷ change (λ s. Sim.set_enabled s false)
    ∷ exchange (frame8 0x00 0xa0 0x00 0x06 0x17 0x40 0x01 0x20)
        (frame8 0x20 0x81 0x00 0x06 0x17 0x00 0x2f 0x00)
    ∷ exchange (frame8 0x00 0xa0 0x00 0x06 0x17 0xa0 0x01 0x20)
        (frame8 0x20 0x81 0x00 0x06 0x17 0x00 0x2f 0x00)
    ∷ []

test_golden_passes : replay new_sim test_golden ≡ true
unfolding replay_all
test_golden_passes = refl
