-- ===== src/Scenario/Outcome.antt =====
-- internal/scenario: the readings of a verdict (verdict.go) and a judge's answer (groupf_judge.go).
-- The formatted text of a reason is a value of the judge's own type of reasons.

-- `Result`
pub data Reading : Type 0 where
  pass fail not_applicable blocked : Reading

-- `fOutcome`
pub record Outcome (R : Type 0) : Type 0 where
  pub result : Reading
  pub reason : R

abbrev pub passed : {R : Type 0} → R → Outcome R
passed r = record { result = pass; reason = r }

abbrev pub failed : {R : Type 0} → R → Outcome R
failed r = record { result = fail; reason = r }

abbrev pub stopped : {R : Type 0} → R → Outcome R
stopped r = record { result = blocked; reason = r }
