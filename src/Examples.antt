-- ===== src/Examples.antt =====
-- A small configuration, and the theorems at it.
pub mod Configs
mod StoreRuns
mod Matching
mod Requests
mod Refusals
mod Listeners
mod Relays
mod Guards
mod Loading
mod Machine
mod Served
mod Ends
mod Overlaps
