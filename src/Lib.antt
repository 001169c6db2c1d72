-- ===== src/Lib.antt =====
-- fuji-iot: a daemon that stands in for the wired controller of a Fuji Electric air conditioner.
--
-- The main unit sends an 8-byte frame in every cycle; the daemon answers it with a frame of its own.
-- The program's parts, and the files that model them:
--
--   Types      protocol/fuji_types.h: operation modes and fan speeds.
--   Register   protocol/fuji_register.h, .cc: the five payload bytes of a STATUS frame. The class is a
--              pointer to the bytes; here a setter returns the bytes. Register/Layout has the masks
--              and offsets.
--   Frame      protocol/fuji_frame.h, .cc: FujiMasterFrame and FujiControllerFrame as records of
--              eight bytes; With methods return the new frame.
--   State      protocol/fuji_ac_state.h, .cc: FujiAcState, the local picture of the unit.
--   Handler    protocol/fuji_ac_protocol_handler.h, .cc: HandleMasterFrame and what it calls, as
--              functions that return the new handler and the answer. Handler/Rules is a machine of
--              rules without bytes, which Handler/Rules/Machine relates to the code.
--   Sim        sim/fuji_ac_unit_sim.h, .cc: the simulated unit. Its pointer `status_` into
--              `status_register_` is read and written in place.
--   Controller controller/fuji_ac_controller.h, .cc, .proto: Update, GetStatus and DoLoop. The pointer
--              `state_` is the handler's own state. Update and GetStatus are split at their wait for
--              `ready_`; what other threads do meanwhile is a list of frames (Controller/Written), or
--              any sequence of steps (Controller/Ready, Daemon/Delivery).
--   Server     controller/fuji_ac_server.cc: the service over the simulated unit. `cycle` is a round of
--              DoLoop with that service as the serial interface. Server/Session is about sessions
--              from the start on: rounds, keys of the unit's remote control and calls of Update in
--              any order.
--              Server/Interleaved has the sessions of the simulated service in which a round of
--              DoLoop is two steps, ReadMasterFrame and what is done under the lock, so that keys
--              and calls come between a frame and its answer. Server/Thermostat is the service as
--              its users see it, a record of settings.
--   Serial     controller/fuji_ac_serial_reader.cc: WriteControllerFrame and ReadMasterFrame; read(2)
--              and write(2) are parameters. Serial/Inversion is about the bytes that go through them.
--              Serial/Setup is Build, with its system calls and the constants of <termios.h> as
--              parameters; a tcflag_t is a function from bit positions.
--   Client     controller/fuji_ac_controller_client.cc: RunClient, the request that it builds, and what
--              it logs; stub->Update is a parameter. Client/Wanted says what the flags stand for.
--   Daemon     the threads of controller/fuji_ac_controller.cc and the RPC methods of
--              controller/fuji_ac_server.cc: DoLoop, Shutdown and client calls as a step relation.
--              Daemon/Shutdown, Daemon/Patience and Daemon/Delivery are about its runs.
--   Station    The daemon at work: the threads of Daemon over any serial interface, a record that
--              stands for controller/fuji_ac_serial_interface.h. A list of acts says which thread
--              goes next: the loop's test, its read, or what it does under the lock; a call of
--              Update, GetStatus or Shutdown; a waiting call, or the join of Shutdown; or a key of
--              the unit. Station/Unit says when a unit is behind the interface, and which acts it
--              takes part in; Station/Simulated and Station/Line are the interfaces of the two
--              services of controller/fuji_ac_server.cc; Station/Promises is about the daemon over the
--              simulated unit.
--   Debug      ToString and DebugInfo of protocol/*.cc; std::to_string is a parameter.
--   Base       shared names, Boolean tests, bytes and arrays of bytes.
--   Tests      the theorems at concrete inputs, and the golden traffic of
--              protocol/fuji_ac_protocol_handler_test.cc and sim/fuji_ac_unit_sim_test.cc, replayed.
--
-- A uint8_t is a number, and every store into one is taken modulo 256; `~mask` is the 32-bit pattern of
-- the promoted int. `IsBytes5` and `IsBytes8` say that arrays hold bytes. No definition takes fuel: the
-- endless loop of DoLoop is modelled by the number of its rounds, the list of its frames, or the list of
-- acts at a station. Facts about masks are checked by evaluation at every byte.
--
-- Not modelled: gRPC, command line parsing, logging and sleeping; RunServer, which picks a service by
-- --sim and hands it to gRPC; what a terminal device does with the attributes that Build asks for, and how a
-- unit's bytes come to read(2): a read that ends in the middle of a frame, or frames of other devices on
-- the shared wire.
pub mod Base
pub mod Types
pub mod Register
pub mod Frame
pub mod State
pub mod Handler
pub mod Sim
pub mod Controller
pub mod Server
pub mod Serial
pub mod Client
pub mod Daemon
pub mod Station
pub mod Debug
mod Tests
