-- ===== src/Scenario/GroupF.antt =====
-- internal/scenario/groupf_wire.go and groupf_judge.go: the option bytes of a capture, and the
-- judges of user class, IPv6-only, rapid commit and forced renewal.
pub mod Options
pub mod UserClass
pub mod Ipv6Only
pub mod RapidCommit
pub mod Nonce
pub mod ForceRenew
