-- ===== src/Scenario/Verdict.antt =====
-- internal/scenario/verdict.go: `Write` and `ReadVerdict`, the file of one verdict. The times, the
-- paths and the files are parameters; line numbers are left out of the errors.
pub mod Folding
pub mod Lines
pub mod Reading
pub mod Evidence
pub mod RoundTrip
use docker_net_dhcp_lab.Scenario.Verdict.Evidence.{
  Fault, Files, field_missing, not_a_pair, pass_without_evidence, bad_timestamp, check_file,
  evidence_unwanted, evidence_prefix, evidence_fields, after_prefix, by_label, unrecognised,
}
use docker_net_dhcp_lab.Scenario.Judging.{check_each}
use docker_net_dhcp_lab.Scenario.Verdict.Lines.{read_lines, split_lines, print}
use docker_net_dhcp_lab.Scenario.Verdict.Folding.{clean, one_line}
use docker_net_dhcp_lab.Prelude.{
  eq_pair, ℕ, ◌≡◌, true, Option, some, List, Text, ◌++◌, codes, [], Result, ◌∷◌, Bool, need, false,
  ok, ◌==◌, err, ◌>>◌, refuse_if, ltb, ◌>>=◌, ◌||◌, not, ◌&&◌, nat_eq, has_prefix, eq_text, length,
  if◌then◌else◌, ◌^◌, ◌<◌, ◌*◌, ◌/◌,
}

-- a second and the start of the year 10000, in nanoseconds since the start of the year 1 in UTC
abbrev pub time_second : ℕ
time_second = 10 ^ 9

abbrev pub year_10000 : ℕ
year_10000 = 315537897600 * time_second

-- `UTC().Format(time.RFC3339)` of a `time.Time`, which shows whole seconds on one line, and
-- `time.Parse`, which reads a year of four digits. A time is the nanoseconds since the start of the
-- year 1, Go's zero time.
pub record Times : Type 0 where
  pub format : ℕ → Text
  pub parse : Text → Option ℕ
  pub parse-format :
      (t : ℕ) → t < year_10000 → parse (format t) ≡ some (t / time_second * time_second)
  pub one_text_line : (t : ℕ) → clean (format t) ≡ true

-- `Verdict` and `HostInfo`; the evidence is a list of labels and paths
pub record Verdict : Type 0 where
  pub scenario : Text
  pub cell : Text
  pub shape : Text
  pub result : Text
  pub reason : Text
  pub git_sha : Text
  pub isolation : Text
  pub distro : Text
  pub kernel : Text
  pub docker_version : Text
  pub timestamp : ℕ
  pub evidence : List (Text × Text)

-- `FileName`
unfoldable pub file_name : Verdict → Text
file_name v = v.cell ++ (b'-' ∷ v.shape ++ (b'-' ∷ v.scenario ++ codes ".verdict"))

-- a line that is written only for a value
abbrev pub optional : Text → Text → List (Text × Text)
optional key val = if val == [] then [] else (key, one_line val) ∷ []

-- the tests on the result and the number of evidence files
unfoldable pub check_result : Verdict → Result Fault (Unit {0})
check_result v =
    refuse_if (v.result == codes "PASS" && nat_eq (length v.evidence) 0) pass_without_evidence
    >> (refuse_if (v.result == codes "N/A" && not (nat_eq (length v.evidence) 0))
          (evidence_unwanted v.result)
        >> refuse_if (v.result == codes "BLOCKED" && not (nat_eq (length v.evidence) 0))
            (evidence_unwanted v.result))

-- the `Verdict` that `ReadVerdict` starts from
unfoldable pub empty_verdict : Verdict
empty_verdict = record {
  scenario = [];
  cell = [];
  shape = [];
  result = [];
  reason = [];
  git_sha = [];
  isolation = [];
  distro = [];
  kernel = [];
  docker_version = [];
  timestamp = 0;
  evidence = [];
}

abbrev pub lacks_name : Verdict → Bool
lacks_name v = v.scenario == [] || v.cell == [] || v.shape == [] || v.result == []

unfoldable pub as_fault : Result Text (List (Text × Text)) → Result Fault (List (Text × Text))
as_fault (err line) = err (not_a_pair line)
as_fault (ok fields) = ok fields

module _ (times : Times) where
  open times use {format, parse}

  -- the lines before the evidence
  unfoldable pub head_fields : Verdict → List (Text × Text)
  head_fields v =
      (codes "scenario", one_line v.scenario)
      ∷ (codes "cell", one_line v.cell)
      ∷ (codes "shape", one_line v.shape)
      ∷ (codes "result", one_line v.result)
      ∷ (codes "reason", one_line v.reason)
      ∷ (codes "git_sha", one_line v.git_sha)
      ∷ (optional (codes "isolation") v.isolation
          ++ (optional (codes "host.distro") v.distro
              ++ (optional (codes "host.kernel") v.kernel
                  ++ (optional (codes "host.docker_version") v.docker_version
                      ++ (codes "timestamp", format v.timestamp) ∷ []))))

  -- `Write`: the file's path and its text
  unfoldable pub write : Files → Text → Verdict → Result Fault (Text × Text)
  unfolding check_result head_fields file_name
  write files dir v =
      check_result v
      >> (check_each (check_file files) v.evidence
          >> (evidence_fields files dir (by_label v.evidence) >>= λ rels.
              ok (dir ++ (b'/' ∷ file_name v), print (head_fields v ++ rels))))

  -- the `switch` of the second loop
  unfoldable pub apply_field : Verdict → Text × Text → Result Fault Verdict
  apply_field v (key, val) =
      if key == codes "scenario"
      then ok (record v { scenario = val })
      else if key == codes "cell"
      then ok (record v { cell = val })
      else if key == codes "shape"
      then ok (record v { shape = val })
      else if key == codes "result"
      then ok (record v { result = val })
      else if key == codes "reason"
      then ok (record v { reason = val })
      else if key == codes "git_sha"
      then ok (record v { git_sha = val })
      else if key == codes "isolation"
      then ok (record v { isolation = val })
      else if key == codes "host.distro"
      then ok (record v { distro = val })
      else if key == codes "host.kernel"
      then ok (record v { kernel = val })
      else if key == codes "host.docker_version"
      then ok (record v { docker_version = val })
      else if key == codes "timestamp"
      then (need (parse val) (bad_timestamp val) >>= λ t. ok (record v { timestamp = t }))
      else if has_prefix key evidence_prefix
      then ok (record v { evidence = (after_prefix key evidence_prefix, val) ∷ v.evidence })
      else err (unrecognised key)

  unfoldable pub apply_fields : Verdict → List (Text × Text) → Result Fault Verdict
  apply_fields v [] = ok v
  apply_fields v (f ∷ fields) = apply_field v f >>= λ next. apply_fields next fields

  -- `ReadVerdict`, of the file's text
  unfoldable pub read_verdict : Text → Result Fault Verdict
  unfolding apply_fields as_fault
  read_verdict data_read = as_fault (read_lines [] (split_lines data_read)) >>= λ fields.
      apply_fields empty_verdict fields >>= λ v. refuse_if (lacks_name v) field_missing >> ok v
