-- ===== src/Tests/Sessions.antt =====
-- The theorem on updates among the daemon's threads, at a concrete run.
use fuji_iot.Base.{refl, some, inl}
use fuji_iot.Frame
use fuji_iot.Controller
use fuji_iot.Controller.{AcUnitState, ProtoMode, ProtoFan, pos}
use fuji_iot.Controller.Update.{Asks}
use fuji_iot.Daemon
use fuji_iot.Daemon.{Daemon, Step, Run, make_daemon}
use fuji_iot.Daemon.Delivery.{Delivered, Calm, asked, requests, frames_written, update-Delivered}
use fuji_iot.Tests.Golden.Replay.{replay_all}
use fuji_iot.Tests.Data.{status_mf}

abbrev pub heat_request : AcUnitState
heat_request = record {
  mode = ProtoMode.mode_heat;
  fan = ProtoFan.fan_high;
  setpoint_temperature = pos 21;
}

pub heat-Asks : Asks heat_request
heat-Asks = inl (λ e. cc)

-- A call of Update, and four STATUS frames from the unit.
abbrev called : Daemon
called = Daemon.call_update make_daemon heat_request

abbrev polled : Daemon → Daemon
polled d = Daemon.run_round (Daemon.test_shutdown d) (some status_mf)

abbrev four_polls : Daemon
four_polls = polled (polled (polled (polled called)))

four_rounds : Run called four_polls
unfolding make_daemon Daemon.call_update Daemon.run_round Daemon.test_shutdown replay_all
    Controller.make_controller Controller.begin_update Controller.do_loop_round Frame.frame_eq
four_rounds =
    let r₁ : Run called (polled called) =
      Run.next (Run.next Run.here (Step.test called refl))
        (Step.round (Daemon.test_shutdown called) (some status_mf) refl) in
    let d₁ = polled called in
    let r₂ : Run called (polled d₁) =
      Run.next (Run.next r₁ (Step.test d₁ refl))
        (Step.round (Daemon.test_shutdown d₁) (some status_mf) refl) in
    let d₂ = polled d₁ in
    let r₃ : Run called (polled d₂) =
      Run.next (Run.next r₂ (Step.test d₂ refl))
        (Step.round (Daemon.test_shutdown d₂) (some status_mf) refl) in
    let d₃ = polled d₂ in
    Run.next (Run.next r₃ (Step.test d₃ refl))
      (Step.round (Daemon.test_shutdown d₃) (some status_mf) refl)

four_rounds-Calm : Calm four_rounds
unfolding four_rounds replay_all
four_rounds-Calm = ((((((((tt, tt), (λ e. cc)), tt), (λ e. cc)), tt), (λ e. cc)), tt), (λ e. cc))

update-Delivered_example :
    Delivered
      (asked heat_request make_daemon.controller.client.ac_state)
      (requests four_rounds)
      (frames_written four_rounds)
unfolding make_daemon Daemon.call_update Daemon.run_round Daemon.test_shutdown replay_all
    Controller.make_controller Controller.begin_update Controller.do_loop_round Frame.frame_eq
update-Delivered_example =
    update-Delivered make_daemon four_polls heat_request Run.here four_rounds heat-Asks
      four_rounds-Calm refl
