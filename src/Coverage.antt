-- ===== src/Coverage.antt =====
-- internal/coverage: variant IDs (ids.go), their placements (placements.go) and the option mapping
-- (check.go).
pub mod Cutting
pub mod Ids
pub mod Placements
