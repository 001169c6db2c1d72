-- ===== src/Tests/Golden/Handler.antt =====
-- protocol/fuji_ac_protocol_handler_test.cc: traffic captured from an original controller.
use fuji_iot.Base.{◌≡◌, refl, true, false, not, List, [], ◌∷◌, ◌==◌}
use fuji_iot.Types.{Mode, Fan}
use fuji_iot.State
use fuji_iot.State.{initial_state}
use fuji_iot.Handler.{new_handler}
use fuji_iot.Tests.Golden.Replay.{
  Event, answers, silent, change, check, no_login, frame8, replay, replay_all,
}

abbrev startup : List Event
startup =
    silent (frame8 0x00 0x81 0x00 0x46 0x12 0xa0 0x00 0x20)
    ∷ answers (frame8 0x00 0xa0 0x00 0x46 0x12 0xa0 0x00 0x20)
        (frame8 0x20 0x81 0x20 0x00 0x00 0x00 0x00 0x00)
    ∷ answers (frame8 0x00 0xa0 0x20 0x1f 0x1f 0x05 0x01 0x00)
        (frame8 0x20 0xa1 0x00 0x46 0x12 0x00 0x2f 0x00)
    ∷ answers (frame8 0x00 0xa0 0x00 0x46 0x12 0xa0 0x01 0x20)
        (frame8 0x20 0x81 0x00 0x46 0x12 0x00 0x2f 0x00)
    ∷ answers (frame8 0x00 0xa0 0x00 0x46 0x12 0xa0 0x01 0x20)
        (frame8 0x20 0x81 0x00 0x46 0x12 0x00 0x2f 0x00)
    ∷ []

startup_passes : replay (new_handler initial_state) startup ≡ true
unfolding replay_all
startup_passes = refl

abbrev test_reconnect : List Event
test_reconnect =
    silent (frame8 0x00 0x81 0x00 0x46 0x12 0xa0 0x01 0x20)
    ∷ answers (frame8 0x00 0xa0 0x00 0x46 0x12 0xa0 0x01 0x20)
        (frame8 0x20 0x81 0x20 0x00 0x00 0x00 0x00 0x00)
    ∷ answers (frame8 0x00 0xa0 0x20 0x1f 0x1f 0x05 0x01 0x00)
        (frame8 0x20 0xa1 0x00 0x46 0x12 0x00 0x2f 0x00)
    ∷ answers (frame8 0x00 0xa0 0x00 0x46 0x12 0xa0 0x01 0x20)
        (frame8 0x20 0x81 0x00 0x46 0x12 0x00 0x2f 0x00)
    ∷ []

test_reconnect_passes : replay (new_handler initial_state) test_reconnect ≡ true
unfolding replay_all
test_reconnect_passes = refl

abbrev remote_turn_on_turn_off : List Event
remote_turn_on_turn_off =
    no_login
    ∷ answers (frame8 0x00 0xa0 0x00 0x46 0x12 0xa0 0x01 0x20)
        (frame8 0x20 0x81 0x00 0x46 0x12 0x00 0x2f 0x00)
    ∷ check (λ s. not (s.enabled))
    ∷ check (λ s. s.temperature == 18)
    ∷ silent (frame8 0x00 0x80 0x00 0x47 0x16 0x40 0x01 0x20)
    ∷ answers (frame8 0x00 0xa0 0x00 0x47 0x16 0x40 0x01 0x20)
        (frame8 0x20 0x81 0x00 0x47 0x16 0x00 0x2f 0x00)
    ∷ answers (frame8 0x00 0xa0 0x00 0x47 0x16 0xa0 0x01 0x20)
        (frame8 0x20 0x81 0x00 0x47 0x16 0x00 0x2f 0x00)
    ∷ check (λ s. s.enabled)
    ∷ check (λ s. s.temperature == 22)
    ∷ silent (frame8 0x00 0x80 0x00 0x46 0x16 0x40 0x01 0x20)
    ∷ answers (frame8 0x00 0xa0 0x00 0x46 0x16 0x40 0x01 0x20)
        (frame8 0x20 0x81 0x00 0x46 0x16 0x00 0x2f 0x00)
    ∷ answers (frame8 0x00 0xa0 0x00 0x46 0x16 0xa0 0x01 0x20)
        (frame8 0x20 0x81 0x00 0x46 0x16 0x00 0x2f 0x00)
    ∷ check (λ s. not (s.enabled))
    ∷ []

remote_turn_on_turn_off_passes : replay (new_handler initial_state) remote_turn_on_turn_off ≡ true
unfolding replay_all
remote_turn_on_turn_off_passes = refl

abbrev turn_on : List Event
turn_on =
    no_login
    ∷ answers (frame8 0x00 0xa0 0x00 0x06 0x17 0xa0 0x01 0x20)
        (frame8 0x20 0x81 0x00 0x06 0x17 0x00 0x2f 0x00)
    ∷ change (λ s. State.set_enabled s true)
    ∷ answers (frame8 0x00 0xa0 0x00 0x06 0x17 0xa0 0x01 0x20)
        (frame8 0x20 0x81 0x08 0x07 0x17 0x00 0x2f 0x00)
    ∷ answers (frame8 0x00 0xa0 0x00 0x07 0x17 0x00 0x01 0x20)
        (frame8 0x20 0x81 0x00 0x07 0x17 0x00 0x2f 0x00)
    ∷ answers (frame8 0x00 0xa0 0x00 0x07 0x17 0xa0 0x01 0x20)
        (frame8 0x20 0x81 0x00 0x07 0x17 0x00 0x2f 0x00)
    ∷ check (λ s. s.enabled)
    ∷ []

turn_on_passes : replay (new_handler initial_state) turn_on ≡ true
unfolding replay_all
turn_on_passes = refl

abbrev wired_control_golden : List Event
wired_control_golden =
    no_login
    ∷ answers (frame8 0x00 0xa0 0x00 0x06 0x17 0xa0 0x01 0x20)
        (frame8 0x20 0x81 0x00 0x06 0x17 0x00 0x2f 0x00)
    ∷ change (λ s. State.set_enabled s true)
    ∷ answers (frame8 0x00 0xa0 0x00 0x06 0x17 0xa0 0x01 0x20)
        (frame8 0x20 0x81 0x08 0x07 0x17 0x00 0x2f 0x00)
    ∷ answers (frame8 0x00 0xa0 0x00 0x07 0x17 0x00 0x01 0x20)
        (frame8 0x20 0x81 0x00 0x07 0x17 0x00 0x2f 0x00)
    ∷ answers (frame8 0x00 0xa0 0x00 0x07 0x17 0xa0 0x01 0x20)
        (frame8 0x20 0x81 0x00 0x07 0x17 0x00 0x2f 0x00)
    ∷ answers (frame8 0x00 0xa0 0x00 0x07 0x17 0xa0 0x01 0x20)
        (frame8 0x20 0x81 0x00 0x07 0x17 0x00 0x2f 0x00)
    ∷ change (λ s. State.set_temperature s 18)
    ∷ answers (frame8 0x00 0xa0 0x00 0x07 0x17 0xa0 0x01 0x20)
        (frame8 0x20 0x81 0x08 0x07 0x12 0x00 0x2f 0x00)
    ∷ answers (frame8 0x00 0xa0 0x00 0x07 0x12 0x00 0x01 0x20)
        (frame8 0x20 0x81 0x00 0x07 0x12 0x00 0x2f 0x00)
    ∷ answers (frame8 0x00 0xa0 0x00 0x07 0x12 0xa0 0x01 0x20)
        (frame8 0x20 0x81 0x00 0x07 0x12 0x00 0x2f 0x00)
    ∷ change (λ s. State.set_temperature s 22)
    ∷ answers (frame8 0x00 0xa0 0x00 0x07 0x12 0xa0 0x01 0x20)
        (frame8 0x20 0x81 0x08 0x07 0x16 0x00 0x2f 0x00)
    ∷ answers (frame8 0x00 0xa0 0x00 0x07 0x16 0x00 0x01 0x20)
        (frame8 0x20 0x81 0x00 0x07 0x16 0x00 0x2f 0x00)
    ∷ answers (frame8 0x00 0xa0 0x00 0x07 0x16 0xa0 0x01 0x20)
        (frame8 0x20 0x81 0x00 0x07 0x16 0x00 0x2f 0x00)
    ∷ change (λ s. State.set_fan s Fan.max)
    ∷ answers (frame8 0x00 0xa0 0x00 0x07 0x16 0xa0 0x01 0x20)
        (frame8 0x20 0x81 0x08 0x47 0x16 0x00 0x2f 0x00)
    ∷ answers (frame8 0x00 0xa0 0x00 0x47 0x16 0x00 0x01 0x20)
        (frame8 0x20 0x81 0x00 0x47 0x16 0x00 0x2f 0x00)
    ∷ answers (frame8 0x00 0xa0 0x00 0x47 0x16 0xa0 0x01 0x20)
        (frame8 0x20 0x81 0x00 0x47 0x16 0x00 0x2f 0x00)
    ∷ change (λ s. State.set_fan s Fan.high)
    ∷ answers (frame8 0x00 0xa0 0x00 0x47 0x16 0xa0 0x01 0x20)
        (frame8 0x20 0x81 0x08 0x37 0x16 0x00 0x2f 0x00)
    ∷ answers (frame8 0x00 0xa0 0x00 0x37 0x16 0x00 0x01 0x20)
        (frame8 0x20 0x81 0x00 0x37 0x16 0x00 0x2f 0x00)
    ∷ answers (frame8 0x00 0xa0 0x00 0x37 0x16 0xa0 0x01 0x20)
        (frame8 0x20 0x81 0x00 0x37 0x16 0x00 0x2f 0x00)
    ∷ change (λ s. State.set_fan s Fan.medium)
    ∷ answers (frame8 0x00 0xa0 0x00 0x37 0x16 0xa0 0x01 0x20)
        (frame8 0x20 0x81 0x08 0x27 0x16 0x00 0x2f 0x00)
    ∷ answers (frame8 0x00 0xa0 0x00 0x27 0x16 0x00 0x01 0x20)
        (frame8 0x20 0x81 0x00 0x27 0x16 0x00 0x2f 0x00)
    ∷ answers (frame8 0x00 0xa0 0x00 0x27 0x16 0xa0 0x01 0x20)
        (frame8 0x20 0x81 0x00 0x27 0x16 0x00 0x2f 0x00)
    ∷ change (λ s. State.set_fan s Fan.low)
    ∷ answers (frame8 0x00 0xa0 0x00 0x27 0x16 0xa0 0x01 0x20)
        (frame8 0x20 0x81 0x08 0x17 0x16 0x00 0x2f 0x00)
    ∷ answers (frame8 0x00 0xa0 0x00 0x17 0x16 0x00 0x01 0x20)
        (frame8 0x20 0x81 0x00 0x17 0x16 0x00 0x2f 0x00)
    ∷ answers (frame8 0x00 0xa0 0x00 0x17 0x16 0xa0 0x01 0x20)
        (frame8 0x20 0x81 0x00 0x17 0x16 0x00 0x2f 0x00)
    ∷ change (λ s. State.set_fan s Fan.auto)
    ∷ answers (frame8 0x00 0xa0 0x00 0x17 0x16 0xa0 0x01 0x20)
        (frame8 0x20 0x81 0x08 0x07 0x16 0x00 0x2f 0x00)
    ∷ answers (frame8 0x00 0xa0 0x00 0x07 0x16 0x00 0x01 0x20)
        (frame8 0x20 0x81 0x00 0x07 0x16 0x00 0x2f 0x00)
    ∷ answers (frame8 0x00 0xa0 0x00 0x07 0x16 0xa0 0x01 0x20)
        (frame8 0x20 0x81 0x00 0x07 0x16 0x00 0x2f 0x00)
    ∷ change (λ s. State.set_mode s Mode.dry)
    ∷ change (λ s. State.set_temperature s 26)
    ∷ answers (frame8 0x00 0xa0 0x00 0x07 0x16 0xa0 0x01 0x20)
        (frame8 0x20 0x81 0x08 0x05 0x1a 0x00 0x2f 0x00)
    ∷ answers (frame8 0x00 0xa0 0x00 0x05 0x1a 0x00 0x01 0x20)
        (frame8 0x20 0x81 0x00 0x05 0x1a 0x00 0x2f 0x00)
    ∷ answers (frame8 0x00 0xa0 0x00 0x05 0x1a 0xa0 0x01 0x20)
        (frame8 0x20 0x81 0x00 0x05 0x1a 0x00 0x2f 0x00)
    ∷ change (λ s. State.set_mode s Mode.heat)
    ∷ change (λ s. State.set_temperature s 21)
    ∷ answers (frame8 0x00 0xa0 0x00 0x05 0x1a 0xa0 0x01 0x20)
        (frame8 0x20 0x81 0x08 0x09 0x15 0x00 0x2f 0x00)
    ∷ answers (frame8 0x00 0xa0 0x00 0x09 0x15 0x00 0x01 0x20)
        (frame8 0x20 0x81 0x00 0x09 0x15 0x00 0x2f 0x00)
    ∷ answers (frame8 0x00 0xa0 0x00 0x09 0x15 0xa0 0x01 0x20)
        (frame8 0x20 0x81 0x00 0x09 0x15 0x00 0x2f 0x00)
    ∷ change (λ s. State.set_mode s Mode.fan)
    ∷ answers (frame8 0x00 0xa0 0x00 0x09 0x15 0xa0 0x01 0x20)
        (frame8 0x20 0x81 0x08 0x03 0x00 0x00 0x2f 0x00)
    ∷ silent (frame8 0x00 0x80 0x00 0x03 0x12 0x40 0x01 0x20)
    ∷ answers (frame8 0x00 0xa0 0x00 0x03 0x12 0x40 0x01 0x20)
        (frame8 0x20 0x81 0x00 0x03 0x00 0x00 0x2f 0x00)
    ∷ answers (frame8 0x00 0xa0 0x00 0x03 0x12 0xa0 0x01 0x20)
        (frame8 0x20 0x81 0x00 0x03 0x00 0x00 0x2f 0x00)
    ∷ change (λ s. State.set_mode s Mode.auto)
    ∷ change (λ s. State.set_temperature s 24)
    ∷ answers (frame8 0x00 0xa0 0x00 0x03 0x12 0xa0 0x01 0x20)
        (frame8 0x20 0x81 0x08 0x0b 0x18 0x00 0x2f 0x00)
    ∷ answers (frame8 0x00 0xa0 0x00 0x0b 0x18 0x00 0x01 0x20)
        (frame8 0x20 0x81 0x00 0x0b 0x18 0x00 0x2f 0x00)
    ∷ answers (frame8 0x00 0xa0 0x00 0x0b 0x18 0xa0 0x01 0x20)
        (frame8 0x20 0x81 0x00 0x0b 0x18 0x00 0x2f 0x00)
    ∷ change (λ s. State.set_mode s Mode.fan)
    ∷ answers (frame8 0x00 0xa0 0x00 0x0b 0x18 0xa0 0x01 0x20)
        (frame8 0x20 0x81 0x08 0x03 0x00 0x00 0x2f 0x00)
    ∷ silent (frame8 0x00 0x80 0x00 0x03 0x12 0x40 0x01 0x20)
    ∷ answers (frame8 0x00 0xa0 0x00 0x03 0x12 0x40 0x01 0x20)
        (frame8 0x20 0x81 0x00 0x03 0x00 0x00 0x2f 0x00)
    ∷ answers (frame8 0x00 0xa0 0x00 0x03 0x12 0xa0 0x01 0x20)
        (frame8 0x20 0x81 0x00 0x03 0x00 0x00 0x2f 0x00)
    ∷ change (λ s. State.set_mode s Mode.cool)
    ∷ change (λ s. State.set_temperature s 22)
    ∷ answers (frame8 0x00 0xa0 0x00 0x03 0x12 0xa0 0x01 0x20)
        (frame8 0x20 0x81 0x08 0x07 0x16 0x00 0x2f 0x00)
    ∷ answers (frame8 0x00 0xa0 0x00 0x07 0x16 0x00 0x01 0x20)
        (frame8 0x20 0x81 0x00 0x07 0x16 0x00 0x2f 0x00)
    ∷ answers (frame8 0x00 0xa0 0x00 0x07 0x16 0xa0 0x01 0x20)
        (frame8 0x20 0x81 0x00 0x07 0x16 0x00 0x2f 0x00)
    ∷ change (λ s. State.set_economy s true)
    ∷ answers (frame8 0x00 0xa0 0x00 0x07 0x16 0xa0 0x01 0x20)
        (frame8 0x20 0x81 0x08 0x07 0x96 0x00 0x2f 0x00)
    ∷ answers (frame8 0x00 0xa0 0x00 0x07 0x96 0x00 0x01 0x20)
        (frame8 0x20 0x81 0x00 0x07 0x96 0x00 0x2f 0x00)
    ∷ answers (frame8 0x00 0xa0 0x00 0x07 0x96 0xa0 0x01 0x20)
        (frame8 0x20 0x81 0x00 0x07 0x96 0x00 0x2f 0x00)
    ∷ change (λ s. State.set_economy s false)
    ∷ answers (frame8 0x00 0xa0 0x00 0x07 0x96 0xa0 0x01 0x20)
        (frame8 0x20 0x81 0x08 0x07 0x16 0x00 0x2f 0x00)
    ∷ answers (frame8 0x00 0xa0 0x00 0x07 0x16 0x00 0x01 0x20)
        (frame8 0x20 0x81 0x00 0x07 0x16 0x00 0x2f 0x00)
    ∷ answers (frame8 0x00 0xa0 0x00 0x07 0x16 0xa0 0x01 0x20)
        (frame8 0x20 0x81 0x00 0x07 0x16 0x00 0x2f 0x00)
    ∷ change (λ s. State.set_swing s true)
    ∷ answers (frame8 0x00 0xa0 0x00 0x07 0x16 0xa0 0x01 0x20)
        (frame8 0x20 0x81 0x08 0x07 0x16 0x04 0x2f 0x00)
    ∷ answers (frame8 0x00 0xa0 0x00 0x07 0x16 0x04 0x01 0x20)
        (frame8 0x20 0x81 0x00 0x07 0x16 0x04 0x2f 0x00)
    ∷ answers (frame8 0x00 0xa0 0x00 0x07 0x16 0xa4 0x01 0x20)
        (frame8 0x20 0x81 0x00 0x07 0x16 0x04 0x2f 0x00)
    ∷ change (λ s. State.set_swing s false)
    ∷ answers (frame8 0x00 0xa0 0x00 0x07 0x16 0xa4 0x01 0x20)
        (frame8 0x20 0x81 0x08 0x07 0x16 0x00 0x2f 0x00)
    ∷ answers (frame8 0x00 0xa0 0x00 0x07 0x16 0x00 0x01 0x20)
        (frame8 0x20 0x81 0x00 0x07 0x16 0x00 0x2f 0x00)
    ∷ answers (frame8 0x00 0xa0 0x00 0x07 0x16 0xa0 0x01 0x20)
        (frame8 0x20 0x81 0x00 0x07 0x16 0x00 0x2f 0x00)
    ∷ change (λ s. State.set_swing_step s true)
    ∷ answers (frame8 0x00 0xa0 0x00 0x07 0x16 0xa0 0x01 0x20)
        (frame8 0x20 0x81 0x08 0x07 0x16 0x02 0x2f 0x00)
    ∷ answers (frame8 0x00 0xa0 0x00 0x07 0x16 0x00 0x01 0x20)
        (frame8 0x20 0x81 0x08 0x07 0x16 0x00 0x2f 0x00)
    ∷ answers (frame8 0x00 0xa0 0x00 0x07 0x16 0x00 0x01 0x20)
        (frame8 0x20 0x81 0x00 0x07 0x16 0x00 0x2f 0x00)
    ∷ answers (frame8 0x00 0xa0 0x00 0x07 0x16 0xa0 0x01 0x20)
        (frame8 0x20 0x81 0x00 0x07 0x16 0x00 0x2f 0x00)
    ∷ change (λ s. State.set_swing_step s true)
    ∷ answers (frame8 0x00 0xa0 0x00 0x07 0x16 0xa0 0x01 0x20)
        (frame8 0x20 0x81 0x08 0x07 0x16 0x02 0x2f 0x00)
    ∷ answers (frame8 0x00 0xa0 0x00 0x07 0x16 0x00 0x01 0x20)
        (frame8 0x20 0x81 0x08 0x07 0x16 0x00 0x2f 0x00)
    ∷ answers (frame8 0x00 0xa0 0x00 0x07 0x16 0x00 0x01 0x20)
        (frame8 0x20 0x81 0x00 0x07 0x16 0x00 0x2f 0x00)
    ∷ answers (frame8 0x00 0xa0 0x00 0x07 0x16 0xa0 0x01 0x20)
        (frame8 0x20 0x81 0x00 0x07 0x16 0x00 0x2f 0x00)
    ∷ change (λ s. State.set_swing s true)
    ∷ answers (frame8 0x00 0xa0 0x00 0x07 0x16 0xa0 0x01 0x20)
        (frame8 0x20 0x81 0x08 0x07 0x16 0x04 0x2f 0x00)
    ∷ answers (frame8 0x00 0xa0 0x00 0x07 0x16 0x04 0x01 0x20)
        (frame8 0x20 0x81 0x00 0x07 0x16 0x04 0x2f 0x00)
    ∷ answers (frame8 0x00 0xa0 0x00 0x07 0x16 0xa4 0x01 0x20)
        (frame8 0x20 0x81 0x00 0x07 0x16 0x04 0x2f 0x00)
    ∷ change (λ s. State.set_swing s false)
    ∷ answers (frame8 0x00 0xa0 0x00 0x07 0x16 0xa4 0x01 0x20)
        (frame8 0x20 0x81 0x08 0x07 0x16 0x00 0x2f 0x00)
    ∷ answers (frame8 0x00 0xa0 0x00 0x07 0x16 0x00 0x01 0x20)
        (frame8 0x20 0x81 0x00 0x07 0x16 0x00 0x2f 0x00)
    ∷ answers (frame8 0x00 0xa0 0x00 0x07 0x16 0xa0 0x01 0x20)
        (frame8 0x20 0x81 0x00 0x07 0x16 0x00 0x2f 0x00)
    ∷ []

wired_control_golden_passes : replay (new_handler initial_state) wired_control_golden ≡ true
unfolding replay_all
wired_control_golden_passes = refl
