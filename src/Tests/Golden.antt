-- ===== src/Tests/Golden.antt =====
-- The golden traffic of the source's tests, replayed on the model.
pub mod Replay
pub mod ReplaySim
mod Handler
mod Remote
mod Unit
mod UnitRemote
