-- ===== src/Tests.antt =====
-- The theorems at concrete inputs.
pub mod Samples
pub mod Creations
pub mod Rollouts
pub mod Routers
pub mod Verdicts
pub mod Sweeps
pub mod Requests
pub mod Systems
pub mod Processes
pub mod Slots
pub mod Traffic
pub mod Automation
pub mod Harness
