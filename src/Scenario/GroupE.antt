-- ===== src/Scenario/GroupE.antt =====
-- internal/scenario/groupe_judge.go: the group E judges. Exchange reads the wire, Windows groups
-- ACKs, Tally counts a source's log, JudgeE1 and JudgeE2 compare them with the plugin's own books.
pub mod Exchange
pub mod Windows
pub mod Reasons
pub mod Tally
pub mod JudgeE1
pub mod JudgeE2
