-- ===== src/Tests.antt =====
-- The theorems at concrete inputs, and the source's own tests.
mod Golden
mod Data
mod Witnesses
mod Loop
mod Threads
mod Sessions
mod Setup
mod Exchanges
mod Stations
