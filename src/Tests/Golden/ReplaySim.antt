-- ===== src/Tests/Golden/ReplaySim.antt =====
-- How a test of the simulated unit runs: ExpectMasterFrame, and the calls between.
use fuji_iot.Base.{Bool, true, List, [], ◌∷◌, ◌&&◌}
use fuji_iot.Base.Bytes.{Bytes8, bytes_eq}
use fuji_iot.Register
use fuji_iot.Register.Layout.{extract_bits, insert_bits}
use fuji_iot.Frame
use fuji_iot.Sim
use fuji_iot.Sim.{Sim, get_next_master_frame, push_controller_frame}

pub data Event : Type 0 where
  exchange : Bytes8 → Bytes8 → Event
  change : (Sim → Sim) → Event
  check : (Sim → Bool) → Event

-- The unit behind an event, and whether the test's expectation is met.
abbrev run_event : Sim → Event → Sim × Bool
run_event s (exchange mf cf) =
    let r = get_next_master_frame s in
    (push_controller_frame r.0 (record { bytes = cf }), bytes_eq mf r.1.bytes)
run_event s (change f) = (f s, true)
run_event s (check p) = (s, p s)

unfoldable pub replay : Sim → List Event → Bool
replay s [] = true
replay s (e ∷ es) = let r = run_event s e in r.1 && replay r.0 es

-- All that a replay computes with.
unfoldable pub replay_all : Sim → List Event → Bool
unfolding replay get_next_master_frame push_controller_frame bytes_eq extract_bits insert_bits
    Sim.answer Sim.take_settings Sim.update Sim.set_enabled Sim.set_temperature Sim.set_fan
    Sim.set_mode Sim.set_economy Sim.set_swing Sim.set_swing_step Frame.with_type
    Frame.with_unknown_bit Frame.with_destination Frame.query_register Frame.query_of
    Frame.login_bit Frame.write_bit Frame.controller_payload Register.mode_of Register.fan_of
    Register.set_mode Register.mode Register.set_enabled Register.enabled Register.set_fan
    Register.fan Register.set_economy Register.economy Register.set_temperature Register.temperature
    Register.set_swing Register.swing Register.set_swing_step Register.swing_step
    Register.set_controller_present Register.set_update_magic
replay_all = replay
