-- ===== src/Examples.antt =====
-- Concrete inputs: tests of the definitions, and the theorems at inputs that meet their hypotheses.
pub mod Data
pub mod Run
pub mod Paths
pub mod Policies
pub mod Calls
pub mod Logs
pub mod Accounts
pub mod Updates
pub mod Processes
pub mod Links
