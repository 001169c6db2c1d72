-- ===== src/Station/Line.antt =====
-- controller/fuji_ac_server.cc, FujiACControllerServiceImpl: the interface of the service over the
-- serial reader, for what read(2) and write(2) do.
use fuji_iot.Base.Bytes.{Bytes8}
use fuji_iot.Controller.{ℤ}
use fuji_iot.Serial.{read_master_frame, write_controller_frame}
use fuji_iot.Station.{SerialInterface}

module _ {W : Type 0} where
  -- ReadMasterFrame and WriteControllerFrame of the service, which ask its reader.
  abbrev pub serial_interface : (W → ℤ × Bytes8 × W) → (Bytes8 → W → ℤ × W) → SerialInterface W
  serial_interface read write = record {
    read_master_frame = read_master_frame read;
    write_controller_frame = write_controller_frame write;
  }
