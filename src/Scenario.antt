-- ===== src/Scenario.antt =====
-- internal/scenario: the data the judges read, and the group judges.
pub mod Outcome
pub mod Judging
pub mod Wire
pub mod Verdict
pub mod Addresses
pub mod GroupE
pub mod GroupD
pub mod GroupF
pub mod HostRecovery
