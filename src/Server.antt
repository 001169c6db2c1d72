-- ===== src/Server.antt =====
-- controller/fuji_ac_server.cc: the service over the simulated unit, which is the serial interface of
-- its own controller. The interface of the service over the serial reader is in Station/Line.
pub mod Reading
pub mod Rounds
pub mod Registration
pub mod Login
pub mod Update
pub mod Remote
pub mod Convergence
pub mod Session
pub mod Interleaved
pub mod Thermostat
use fuji_iot.Base.{ℕ, zero, suc, Option, none, some}
use fuji_iot.Frame.{ControllerFrame}
use fuji_iot.Sim.{Sim, new_sim, get_next_master_frame, push_controller_frame}
use fuji_iot.Controller.{Controller, make_controller, do_loop_round}

pub record SimService : Type 0 where
  pub controller : Controller
  pub sim : Sim

-- The constructor.
abbrev pub new_sim_service : SimService
new_sim_service = record { controller = make_controller; sim = new_sim }

-- WriteControllerFrame, for the frame of a round that wrote one.
unfoldable pub write_controller_frame : Sim → Option ControllerFrame → Sim
write_controller_frame sim none = sim
write_controller_frame sim (some frame) = push_controller_frame sim frame

-- One round of DoLoop, with ReadMasterFrame and WriteControllerFrame of this service.
unfoldable pub cycle : SimService → SimService
unfolding write_controller_frame
cycle s =
    let polled = get_next_master_frame s.sim in
    let round = do_loop_round s.controller (some polled.1) in
    record { controller = round.0; sim = write_controller_frame polled.0 round.1 }

-- A number of rounds.
unfoldable pub cycles : ℕ → SimService → SimService
cycles zero s = s
cycles (suc n) s = cycles n (cycle s)
