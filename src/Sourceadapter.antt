-- ===== src/Sourceadapter.antt =====
-- internal/sourceadapter: how the lab runs a command on a machine.
pub mod Retry
