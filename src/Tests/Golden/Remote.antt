-- ===== src/Tests/Golden/Remote.antt =====
-- protocol/fuji_ac_protocol_handler_test.cc, TestGolden: changes made with the remote control.
use fuji_iot.Base.{◌≡◌, refl, true, not, List, [], ◌∷◌, ◌==◌}
use fuji_iot.Types.{Mode, Fan, mode_code, fan_code}
use fuji_iot.State.{initial_state}
use fuji_iot.Handler.{new_handler}
use fuji_iot.Tests.Golden.Replay.{
  Event, answers, silent, check, no_login, frame8, replay, replay_all,
}

abbrev test_golden : List Event
test_golden =
    no_login
    ∷ answers (frame8 0x00 0xa0 0x00 0x47 0x16 0xa0 0x01 0x20)
        (frame8 0x20 0x81 0x00 0x47 0x16 0x00 0x2f 0x00)
    ∷ silent (frame8 0x00 0x80 0x00 0x37 0x16 0x40 0x01 0x20)
    ∷ answers (frame8 0x00 0xa0 0x00 0x37 0x16 0x40 0x01 0x20)
        (frame8 0x20 0x81 0x00 0x37 0x16 0x00 0x2f 0x00)
    ∷ answers (frame8 0x00 0xa0 0x00 0x37 0x16 0xa0 0x01 0x20)
        (frame8 0x20 0x81 0x00 0x37 0x16 0x00 0x2f 0x00)
    ∷ check (λ s. fan_code (s.fan) == fan_code Fan.high)
    ∷ silent (frame8 0x00 0x80 0x00 0x27 0x16 0x40 0x01 0x20)
    ∷ answers (frame8 0x00 0xa0 0x00 0x27 0x16 0x40 0x01 0x20)
        (frame8 0x20 0x81 0x00 0x27 0x16 0x00 0x2f 0x00)
    ∷ answers (frame8 0x00 0xa0 0x00 0x27 0x16 0xa0 0x01 0x20)
        (frame8 0x20 0x81 0x00 0x27 0x16 0x00 0x2f 0x00)
    ∷ check (λ s. fan_code (s.fan) == fan_code Fan.medium)
    ∷ silent (frame8 0x00 0x80 0x00 0x17 0x16 0x40 0x01 0x20)
    ∷ answers (frame8 0x00 0xa0 0x00 0x17 0x16 0x40 0x01 0x20)
        (frame8 0x20 0x81 0x00 0x17 0x16 0x00 0x2f 0x00)
    ∷ answers (frame8 0x00 0xa0 0x00 0x17 0x16 0xa0 0x01 0x20)
        (frame8 0x20 0x81 0x00 0x17 0x16 0x00 0x2f 0x00)
    ∷ check (λ s. fan_code (s.fan) == fan_code Fan.low)
    ∷ silent (frame8 0x00 0x80 0x00 0x07 0x16 0x40 0x01 0x20)
    ∷ answers (frame8 0x00 0xa0 0x00 0x07 0x16 0x40 0x01 0x20)
        (frame8 0x20 0x81 0x00 0x07 0x16 0x00 0x2f 0x00)
    ∷ answers (frame8 0x00 0xa0 0x00 0x07 0x16 0xa0 0x01 0x20)
        (frame8 0x20 0x81 0x00 0x07 0x16 0x00 0x2f 0x00)
    ∷ check (λ s. fan_code (s.fan) == fan_code Fan.auto)
    ∷ silent (frame8 0x00 0x80 0x00 0x07 0x12 0x40 0x01 0x20)
    ∷ answers (frame8 0x00 0xa0 0x00 0x07 0x12 0x40 0x01 0x20)
        (frame8 0x20 0x81 0x00 0x07 0x12 0x00 0x2f 0x00)
    ∷ answers (frame8 0x00 0xa0 0x00 0x07 0x12 0xa0 0x01 0x20)
        (frame8 0x20 0x81 0x00 0x07 0x12 0x00 0x2f 0x00)
    ∷ check (λ s. s.temperature == 18)
    ∷ silent (frame8 0x00 0x80 0x00 0x07 0x16 0x40 0x01 0x20)
    ∷ answers (frame8 0x00 0xa0 0x00 0x07 0x16 0x40 0x01 0x20)
        (frame8 0x20 0x81 0x00 0x07 0x16 0x00 0x2f 0x00)
    ∷ answers (frame8 0x00 0xa0 0x00 0x07 0x16 0xa0 0x01 0x20)
        (frame8 0x20 0x81 0x00 0x07 0x16 0x00 0x2f 0x00)
    ∷ check (λ s. s.temperature == 22)
    ∷ silent (frame8 0x00 0x80 0x00 0x07 0x19 0x40 0x01 0x20)
    ∷ answers (frame8 0x00 0xa0 0x00 0x07 0x19 0x40 0x01 0x20)
        (frame8 0x20 0x81 0x00 0x07 0x19 0x00 0x2f 0x00)
    ∷ answers (frame8 0x00 0xa0 0x00 0x07 0x19 0xa0 0x01 0x20)
        (frame8 0x20 0x81 0x00 0x07 0x19 0x00 0x2f 0x00)
    ∷ check (λ s. s.temperature == 25)
    ∷ silent (frame8 0x00 0x80 0x00 0x07 0x1e 0x40 0x01 0x20)
    ∷ answers (frame8 0x00 0xa0 0x00 0x07 0x1e 0x40 0x01 0x20)
        (frame8 0x20 0x81 0x00 0x07 0x1e 0x00 0x2f 0x00)
    ∷ answers (frame8 0x00 0xa0 0x00 0x07 0x1e 0xa0 0x01 0x20)
        (frame8 0x20 0x81 0x00 0x07 0x1e 0x00 0x2f 0x00)
    ∷ check (λ s. s.temperature == 30)
    ∷ silent (frame8 0x00 0x80 0x00 0x05 0x1e 0x40 0x01 0x20)
    ∷ answers (frame8 0x00 0xa0 0x00 0x05 0x1e 0x40 0x01 0x20)
        (frame8 0x20 0x81 0x00 0x05 0x1e 0x00 0x2f 0x00)
    ∷ answers (frame8 0x00 0xa0 0x00 0x05 0x1e 0xa0 0x01 0x20)
        (frame8 0x20 0x81 0x00 0x05 0x1e 0x00 0x2f 0x00)
    ∷ check (λ s. mode_code (s.mode) == mode_code Mode.dry)
    ∷ silent (frame8 0x00 0x80 0x00 0x03 0x1e 0x40 0x01 0x20)
    ∷ answers (frame8 0x00 0xa0 0x00 0x03 0x1e 0x40 0x01 0x20)
        (frame8 0x20 0x81 0x00 0x03 0x00 0x00 0x2f 0x00)
    ∷ answers (frame8 0x00 0xa0 0x00 0x03 0x1e 0xa0 0x01 0x20)
        (frame8 0x20 0x81 0x00 0x03 0x00 0x00 0x2f 0x00)
    ∷ check (λ s. mode_code (s.mode) == mode_code Mode.fan)
    ∷ silent (frame8 0x00 0x80 0x00 0x09 0x1e 0x40 0x01 0x20)
    ∷ answers (frame8 0x00 0xa0 0x00 0x09 0x1e 0x40 0x01 0x20)
        (frame8 0x20 0x81 0x00 0x09 0x1e 0x00 0x2f 0x00)
    ∷ answers (frame8 0x00 0xa0 0x00 0x09 0x1e 0xa0 0x01 0x20)
        (frame8 0x20 0x81 0x00 0x09 0x1e 0x00 0x2f 0x00)
    ∷ check (λ s. mode_code (s.mode) == mode_code Mode.heat)
    ∷ silent (frame8 0x00 0x80 0x00 0x0b 0x1e 0x40 0x01 0x20)
    ∷ answers (frame8 0x00 0xa0 0x00 0x0b 0x1e 0x40 0x01 0x20)
        (frame8 0x20 0x81 0x00 0x0b 0x1e 0x00 0x2f 0x00)
    ∷ answers (frame8 0x00 0xa0 0x00 0x0b 0x1e 0xa0 0x01 0x20)
        (frame8 0x20 0x81 0x00 0x0b 0x1e 0x00 0x2f 0x00)
    ∷ check (λ s. mode_code (s.mode) == mode_code Mode.auto)
    ∷ silent (frame8 0x00 0x80 0x00 0x07 0x1e 0x40 0x01 0x20)
    ∷ answers (frame8 0x00 0xa0 0x00 0x07 0x1e 0x40 0x01 0x20)
        (frame8 0x20 0x81 0x00 0x07 0x1e 0x00 0x2f 0x00)
    ∷ answers (frame8 0x00 0xa0 0x00 0x07 0x1e 0xa0 0x01 0x20)
        (frame8 0x20 0x81 0x00 0x07 0x1e 0x00 0x2f 0x00)
    ∷ check (λ s. mode_code (s.mode) == mode_code Mode.cool)
    ∷ silent (frame8 0x00 0x80 0x00 0x07 0x9e 0x40 0x01 0x20)
    ∷ answers (frame8 0x00 0xa0 0x00 0x07 0x9e 0x40 0x01 0x20)
        (frame8 0x20 0x81 0x00 0x07 0x9e 0x00 0x2f 0x00)
    ∷ answers (frame8 0x00 0xa0 0x00 0x07 0x9e 0xa0 0x01 0x20)
        (frame8 0x20 0x81 0x00 0x07 0x9e 0x00 0x2f 0x00)
    ∷ check (λ s. s.economy)
    ∷ silent (frame8 0x00 0x80 0x00 0x07 0x1e 0x40 0x01 0x20)
    ∷ answers (frame8 0x00 0xa0 0x00 0x07 0x1e 0x40 0x01 0x20)
        (frame8 0x20 0x81 0x00 0x07 0x1e 0x00 0x2f 0x00)
    ∷ answers (frame8 0x00 0xa0 0x00 0x07 0x1e 0xa0 0x01 0x20)
        (frame8 0x20 0x81 0x00 0x07 0x1e 0x00 0x2f 0x00)
    ∷ check (λ s. not (s.economy))
    ∷ silent (frame8 0x00 0x80 0x00 0x07 0x1e 0x44 0x01 0x20)
    ∷ answers (frame8 0x00 0xa0 0x00 0x07 0x1e 0x44 0x01 0x20)
        (frame8 0x20 0x81 0x00 0x07 0x1e 0x04 0x2f 0x00)
    ∷ answers (frame8 0x00 0xa0 0x00 0x07 0x1e 0xa4 0x01 0x20)
        (frame8 0x20 0x81 0x00 0x07 0x1e 0x04 0x2f 0x00)
    ∷ check (λ s. s.swing)
    ∷ silent (frame8 0x00 0x80 0x00 0x07 0x1e 0x40 0x01 0x20)
    ∷ answers (frame8 0x00 0xa0 0x00 0x07 0x1e 0x40 0x01 0x20)
        (frame8 0x20 0x81 0x00 0x07 0x1e 0x00 0x2f 0x00)
    ∷ answers (frame8 0x00 0xa0 0x00 0x07 0x1e 0xa0 0x01 0x20)
        (frame8 0x20 0x81 0x00 0x07 0x1e 0x00 0x2f 0x00)
    ∷ check (λ s. not (s.swing))
    ∷ silent (frame8 0x00 0x80 0x00 0x07 0x17 0x40 0x01 0x20)
    ∷ answers (frame8 0x00 0xa0 0x00 0x07 0x17 0x40 0x01 0x20)
        (frame8 0x20 0x81 0x00 0x07 0x17 0x00 0x2f 0x00)
    ∷ answers (frame8 0x00 0xa0 0x00 0x07 0x17 0xa0 0x01 0x20)
        (frame8 0x20 0x81 0x00 0x07 0x17 0x00 0x2f 0x00)
    ∷ check (λ s. s.temperature == 23)
    ∷ silent (frame8 0x00 0x80 0x00 0x07 0x17 0x42 0x01 0x20)
    ∷ answers (frame8 0x00 0xa0 0x00 0x07 0x17 0x40 0x01 0x20)
        (frame8 0x20 0x81 0x00 0x07 0x17 0x00 0x2f 0x00)
    ∷ answers (frame8 0x00 0xa0 0x00 0x07 0x17 0xa0 0x01 0x20)
        (frame8 0x20 0x81 0x00 0x07 0x17 0x00 0x2f 0x00)
    ∷ silent (frame8 0x00 0x80 0x00 0x07 0x17 0x42 0x01 0x20)
    ∷ answers (frame8 0x00 0xa0 0x00 0x07 0x17 0x40 0x01 0x20)
        (frame8 0x20 0x81 0x00 0x07 0x17 0x00 0x2f 0x00)
    ∷ answers (frame8 0x00 0xa0 0x00 0x07 0x17 0xa0 0x01 0x20)
        (frame8 0x20 0x81 0x00 0x07 0x17 0x00 0x2f 0x00)
    ∷ silent (frame8 0x00 0x80 0x00 0x07 0x17 0x42 0x01 0x20)
    ∷ answers (frame8 0x00 0xa0 0x00 0x07 0x17 0x40 0x01 0x20)
        (frame8 0x20 0x81 0x00 0x07 0x17 0x00 0x2f 0x00)
    ∷ answers (frame8 0x00 0xa0 0x00 0x07 0x17 0xa0 0x01 0x20)
        (frame8 0x20 0x81 0x00 0x07 0x17 0x00 0x2f 0x00)
    ∷ silent (frame8 0x00 0x80 0x00 0x06 0x17 0x40 0x01 0x20)
    ∷ answers (frame8 0x00 0xa0 0x00 0x06 0x17 0x40 0x01 0x20)
        (frame8 0x20 0x81 0x00 0x06 0x17 0x00 0x2f 0x00)
    ∷ answers (frame8 0x00 0xa0 0x00 0x06 0x17 0xa0 0x01 0x20)
        (frame8 0x20 0x81 0x00 0x06 0x17 0x00 0x2f 0x00)
    ∷ check (λ s. not (s.enabled))
    ∷ []

test_golden_passes : replay (new_handler initial_state) test_golden ≡ true
unfolding replay_all
test_golden_passes = refl
