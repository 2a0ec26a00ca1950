-- ===== src/Tests.antt =====
-- Runs of the modelled code of linien-gateway/app at concrete inputs, a module for each component.
pub mod AutoRelock
pub mod LockIndicator
pub mod Stores
pub mod Diagnosis
pub mod Groups
pub mod Stream
pub mod Telemetry
pub mod Recovery
pub mod LockResults
pub mod Devices
pub mod LockRefinement
pub mod InfluxLine
