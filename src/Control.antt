-- ===== src/Control.antt =====
-- app/control.py: the controller that starts one incident at a time and recovers it. Each method is
-- an action on `Sys`; the proofs are in the modules below.
pub mod State
pub mod Journal
pub mod Claims
pub mod Recover
pub mod Start
pub mod Watchdog
pub mod History
mod Examples
