-- ===== src/Station/Simulated.antt =====
-- controller/fuji_ac_server.cc, FujiACControllerSimServiceImpl: the station over the simulated unit.
use fuji_iot.Base.{refl, some}
use fuji_iot.Sim.{Sim, get_next_master_frame, push_controller_frame}
use fuji_iot.Serial.{done}
use fuji_iot.Server.Remote.{press}
use fuji_iot.Station.{SerialInterface}
use fuji_iot.Station.Unit.{UnitRead, IsUnit}

-- ReadMasterFrame and WriteControllerFrame of the service.
abbrev pub sim_interface : SerialInterface Sim
sim_interface = record {
  read_master_frame = λ s. let polled = get_next_master_frame s in done (some polled.1, polled.0);
  write_controller_frame = λ cf s. done (push_controller_frame s cf);
}

abbrev pub same_unit : Sim → Sim
same_unit s = s

abbrev pub AnyUnit : Sim → Type 0
AnyUnit s = Unit

pub sim-IsUnit : IsUnit sim_interface press same_unit AnyUnit
sim-IsUnit = record {
  reads = λ w g v. UnitRead.full (get_next_master_frame w).0 refl refl tt;
  writes = λ cf w g b. (push_controller_frame w cf, refl, refl, tt);
  presses = λ p w. refl;
  press_keeps = λ p w g. tt;
}
