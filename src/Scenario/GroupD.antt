-- ===== src/Scenario/GroupD.antt =====
-- internal/scenario/groupd_judge.go: the judges of DHCPv6 leases and of addresses from router
-- advertisements, over the messages, the reads of a container's link and the source's table.
pub mod Wire6
pub mod Link
pub mod Exchange6
pub mod Lease
pub mod Rapid6
pub mod Temporary
pub mod Slaac
pub mod NoRouter
pub mod TwoPrefixes
pub mod Silent
pub mod Routes
pub mod Withdrawn
