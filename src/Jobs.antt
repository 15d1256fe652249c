-- ===== src/Jobs.antt =====
-- The durable job queue.
pub mod Retry
pub mod Schema
pub mod Tx
pub mod Rows
pub mod Leases
pub mod Runner
pub mod Failure
pub mod Recovery
pub mod Valid
pub mod Trace
pub mod Contract
mod Scenario
mod Examples
