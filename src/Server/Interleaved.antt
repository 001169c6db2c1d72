-- ===== src/Server/Interleaved.antt =====
-- controller/fuji_ac_server.cc and FujiAcController::DoLoop: sessions of the service over the simulated
-- unit in which a round of DoLoop is two steps. Behind ReadMasterFrame, and before the frame is
-- handled and answered under the lock, keys of the remote control and calls of Update can come.
pub mod Keys
pub mod Behind
pub mod Rounds
pub mod Going
pub mod Settled
pub mod Agreement
use fuji_iot.Base.{Option, none, some, List, [], ◌∷◌}
use fuji_iot.Frame.{MasterFrame}
use fuji_iot.Sim.{get_next_master_frame}
use fuji_iot.Controller.{do_loop_round}
use fuji_iot.Server.{SimService, new_sim_service, write_controller_frame}
use fuji_iot.Server.Update.{request}
use fuji_iot.Server.Remote.{press}
use fuji_iot.Server.Session.{Event}

-- The service, and the frame that DoLoop has read and not yet handled.
pub record Exchange : Type 0 where
  pub service : SimService
  pub held : Option MasterFrame

abbrev pub new_exchange : Exchange
new_exchange = record { service = new_sim_service; held = none }

-- ReadMasterFrame.
unfoldable pub read_frame : SimService → Exchange
read_frame s =
    let polled = get_next_master_frame s.sim in
    record { service = record s { sim = polled.0 }; held = some polled.1 }

-- The rest of the round: HandleMasterFrame and WriteControllerFrame.
unfoldable pub answer_frame : SimService → MasterFrame → SimService
unfolding write_controller_frame
answer_frame s mf =
    let round = do_loop_round s.controller (some mf) in
    record { controller = round.0; sim = write_controller_frame s.sim round.1 }

-- The next step of DoLoop.
unfoldable pub advance : SimService → Option MasterFrame → Exchange
unfolding read_frame answer_frame
advance s none = read_frame s
advance s (some mf) = record { service = answer_frame s mf; held = none }

-- An event, where a round stands for one step of DoLoop.
unfoldable pub occur : Event → Exchange → Exchange
unfolding advance
occur Event.round x = advance x.service x.held
occur (Event.key p) x = record x { service = record (x.service) { sim = press p x.service.sim } }
occur (Event.call u) x = record x { service = request x.service u }

unfoldable pub interleave : List Event → Exchange → Exchange
unfolding occur
interleave [] x = x
interleave (e ∷ es) x = interleave es (occur e x)
