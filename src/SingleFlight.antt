-- ===== src/SingleFlight.antt =====
-- src/specflow/single_flight.py: the results of runs, and the coordinator by which one run at a time
-- works on a key while others wait for its result.
pub mod RunResult
pub mod Flights
pub mod Sky
pub mod Outcomes
pub mod Claims
pub mod Releases
pub mod Ownership
mod Examples
