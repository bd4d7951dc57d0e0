-- ===== src/Scenario/Verdict/RoundTrip.antt =====
-- `ReadVerdict` reads the verdict that `Write` wrote, with its free texts folded.
use mathlib.Core.List.{Perm}
use docker_net_dhcp_lab.Scenario.Verdict.Evidence.{
  Files, after_prefix, evidence_prefix, evidence_fields, by_label,
}
use docker_net_dhcp_lab.Scenario.Verdict.{
  Times, head_fields, write, Verdict, apply_field, optional, read_verdict, apply_fields, as_fault,
  empty_verdict, time_second, year_10000,
}
use docker_net_dhcp_lab.Scenario.Verdict.Evidence.Laws.{
  KeyLabel, EvidenceLine, evidence_fields-All, by_label-All, line_at, Relative, read_onto,
  evidence_fields-Relative, by_label-Perm,
}
use docker_net_dhcp_lab.Scenario.Verdict.Reading.{Field, read_lines-print}
use docker_net_dhcp_lab.Scenario.Verdict.Folding.{
  one_line, fold_from, trim_left, trim_right, clean-one_line,
}
use docker_net_dhcp_lab.Scenario.Verdict.Lines.{is_key, is_key_char, is_letter, print}
use docker_net_dhcp_lab.Prelude.{
  Text, List, ◌≡◌, All, text_eq, ok, true, arith, ◌++◌, has_prefix, inl, ◌∷◌, inr, Result-cases,
  refl, eq_pair, [], codes, append_assoc, ◌∙◌, ◌==◌, false, All-append, eq_text, All_map, ◌<◌, ◌/◌,
  map, ℕ, ◌*◌, subst,
}

module _ (times : Times) where
  open times use {parse-format, one_text_line}

  apply_evidence :
      (v : Verdict) (label val : Text)
      → apply_field times v (evidence_prefix ++ label, val)
        ≡ ok (record v { evidence = (label, val) ∷ v.evidence })
  unfolding apply_field text_eq has_prefix after_prefix
  apply_evidence v label val = refl

  apply_fields-evidence :
      (v : Verdict) (rels : List (Text × Text))
      → apply_fields times v (map line_at rels)
        ≡ ok (record v { evidence = read_onto v.evidence rels })
  unfolding apply_fields
  apply_fields-evidence v [] = refl
  apply_fields-evidence v ((label, rel) ∷ rels) =
      rw (apply_evidence v label rel)
        (apply_fields-evidence (record v { evidence = (label, rel) ∷ v.evidence }) rels)

  -- each line that is written only for a value
  read_isolation :
      (v : Verdict) (val : Text) (rest : List (Text × Text))
      → apply_fields times (record v { isolation = [] }) (optional (codes "isolation") val ++ rest)
        ≡ apply_fields times (record v { isolation = one_line val }) rest
  unfolding apply_fields apply_field text_eq one_line fold_from trim_left trim_right
  read_isolation v [] rest = refl
  read_isolation v (c ∷ val) rest = refl

  read_distro :
      (v : Verdict) (val : Text) (rest : List (Text × Text))
      → apply_fields times (record v { distro = [] }) (optional (codes "host.distro") val ++ rest)
        ≡ apply_fields times (record v { distro = one_line val }) rest
  unfolding apply_fields apply_field text_eq one_line fold_from trim_left trim_right
  read_distro v [] rest = refl
  read_distro v (c ∷ val) rest = refl

  read_kernel :
      (v : Verdict) (val : Text) (rest : List (Text × Text))
      → apply_fields times (record v { kernel = [] }) (optional (codes "host.kernel") val ++ rest)
        ≡ apply_fields times (record v { kernel = one_line val }) rest
  unfolding apply_fields apply_field text_eq one_line fold_from trim_left trim_right
  read_kernel v [] rest = refl
  read_kernel v (c ∷ val) rest = refl

  read_docker_version :
      (v : Verdict) (val : Text) (rest : List (Text × Text))
      → apply_fields times
          (record v { docker_version = [] })
          (optional (codes "host.docker_version") val ++ rest)
        ≡ apply_fields times (record v { docker_version = one_line val }) rest
  unfolding apply_fields apply_field text_eq one_line fold_from trim_left trim_right
  read_docker_version v [] rest = refl
  read_docker_version v (c ∷ val) rest = refl

  -- the verdict that is read: every text folded, the time cut to whole seconds, this evidence
  unfoldable pub folded : Verdict → List (Text × Text) → Verdict
  folded v evidence = record {
    scenario = one_line v.scenario;
    cell = one_line v.cell;
    shape = one_line v.shape;
    result = one_line v.result;
    reason = one_line v.reason;
    git_sha = one_line v.git_sha;
    isolation = one_line v.isolation;
    distro = one_line v.distro;
    kernel = one_line v.kernel;
    docker_version = one_line v.docker_version;
    timestamp = v.timestamp / time_second * time_second;
    evidence = evidence;
  }

  -- what is read of the first six lines
  abbrev named_only : Verdict → Verdict
  named_only v = record {
    scenario = one_line v.scenario;
    cell = one_line v.cell;
    shape = one_line v.shape;
    result = one_line v.result;
    reason = one_line v.reason;
    git_sha = one_line v.git_sha;
    isolation = [];
    distro = [];
    kernel = [];
    docker_version = [];
    timestamp = 0;
    evidence = [];
  }

  abbrev hosted : Verdict → Verdict
  hosted v = record (named_only v) {
    isolation = one_line v.isolation;
    distro = one_line v.distro;
    kernel = one_line v.kernel;
    docker_version = one_line v.docker_version;
  }

  -- the lines past the first six, before others
  abbrev tail_fields : Verdict → List (Text × Text) → List (Text × Text)
  tail_fields v fs =
      optional (codes "isolation") v.isolation
      ++ (optional (codes "host.distro") v.distro
          ++ (optional (codes "host.kernel") v.kernel
              ++ (optional (codes "host.docker_version") v.docker_version
                  ++ (codes "timestamp", times.format v.timestamp) ∷ fs)))

  read_names :
      (v : Verdict) (fs : List (Text × Text))
      → apply_fields times empty_verdict (head_fields times v ++ fs)
        ≡ apply_fields times (named_only v) (tail_fields v fs)
  unfolding apply_fields apply_field head_fields empty_verdict text_eq
  read_names v fs = simp (append_assoc)

  read_timestamp :
      (v : Verdict) (t : ℕ) (fs : List (Text × Text))
      → t < year_10000
      → apply_fields times v ((codes "timestamp", times.format t) ∷ fs)
        ≡ apply_fields times (record v { timestamp = t / time_second * time_second }) fs
  unfolding apply_fields apply_field text_eq
  read_timestamp v t fs le = rw (parse-format t le) refl

  apply_fields-head :
      (v : Verdict) (rels : List (Text × Text))
      → v.timestamp < year_10000
      → apply_fields times empty_verdict (head_fields times v ++ map line_at rels)
        ≡ ok (folded v (read_onto [] rels))
  unfolding folded
  apply_fields-head v rels le =
      read_names v (map line_at rels)
      ∙ read_isolation (named_only v) v.isolation _
      ∙ read_distro (record (named_only v) { isolation = one_line v.isolation }) v.distro _
      ∙ read_kernel
          (record (named_only v) { isolation = one_line v.isolation; distro = one_line v.distro })
          v.kernel _
      ∙ read_docker_version (record (hosted v) { docker_version = [] }) v.docker_version _
      ∙ read_timestamp (hosted v) v.timestamp (map line_at rels) le
      ∙ apply_fields-evidence
          (record (hosted v) { timestamp = v.timestamp / time_second * time_second }) rels

  optional-Field : (key val : Text) → is_key key ≡ true → All Field (optional key val)
  unfolding text_eq
  optional-Field key [] h = tt
  optional-Field key (c ∷ val) h = ((h, clean-one_line (c ∷ val)), tt)

  head_fields-Field : (v : Verdict) → All Field (head_fields times v)
  unfolding head_fields is_key is_letter is_key_char
  head_fields-Field v = (
    (refl, clean-one_line v.scenario),
    (
      (refl, clean-one_line v.cell),
      (
        (refl, clean-one_line v.shape),
        (
          (refl, clean-one_line v.result),
          (
            (refl, clean-one_line v.reason),
            (
              (refl, clean-one_line v.git_sha),
              All-append Field _ _ (optional-Field (codes "isolation") v.isolation refl) (
                  All-append Field _ _ (optional-Field (codes "host.distro") v.distro refl) (
                    All-append Field _ _ (optional-Field (codes "host.kernel") v.kernel refl) (
                      All-append Field _ _
                        (optional-Field (codes "host.docker_version") v.docker_version refl)
                        ((refl, one_text_line v.timestamp), tt)))),
            ),
          ),
        ),
      ),
    ),
  )

  -- the four texts that a verdict cannot do without
  abbrev pub Named : Verdict → Type 0
  Named v =
      ((one_line v.scenario == []) ≡ false)
      × ((one_line v.cell == []) ≡ false)
      × ((one_line v.shape == []) ≡ false)
      × ((one_line v.result == []) ≡ false)

  read_written :
      (v : Verdict) (rels : List (Text × Text))
      → Named v
      → v.timestamp < year_10000
      → All EvidenceLine (map line_at rels)
      → read_verdict times (print (head_fields times v ++ map line_at rels))
        ≡ ok (folded v (read_onto [] rels))
  unfolding read_verdict as_fault folded
  read_written v rels (a, b, c, d) le h =
      let lines = read_lines-print [] (head_fields times v ++ map line_at rels) (
        All-append Field _ _ (head_fields-Field v)
          (All_map (λ f l. (l.1, l.2)) (map line_at rels) h)) in
      rw lines (rw (apply_fields-head v rels le) (ground (arith, a, b, c, d)))

  -- What `Write` writes of a verdict, `ReadVerdict` reads back, with every free text folded to one
  -- line and trimmed, the time cut to whole seconds, and each evidence label with the path of its file
  -- relative to the directory, where the year is below 10000, the four names are not blank and every
  -- label is made of characters that a key may have.
  pub read_verdict-write :
      (files : Files) (dir path text : Text) (v : Verdict)
      → Named v
      → v.timestamp < year_10000
      → All KeyLabel v.evidence
      → write times files dir v ≡ ok (path, text)
      → (files_of rels : List (Text × Text)) × Perm v.evidence files_of
        × Relative files dir files_of rels
        × (read_verdict times text ≡ ok (folded v (read_onto [] rels)))
  unfolding write
  read_verdict-write files dir path text v named le labels h =
      elim (Result-cases (evidence_fields files dir (by_label v.evidence))) [
        | inl (e, bad) ↦ absurd (ground (arith, h, bad))
        | inr (fs, good) ↦
            let (rels, lines, related) =
              evidence_fields-Relative files dir (by_label v.evidence) fs good in
            let e : text ≡ print (head_fields times v ++ fs) = ground (arith, h, good) in
            let all_lines =
              evidence_fields-All files dir (by_label v.evidence) fs
                (by_label-All v.evidence labels) good in
            (
              by_label v.evidence,
              rels,
              by_label-Perm v.evidence,
              related,
              rw (e, lines)
                  (read_written v rels named le (subst (All EvidenceLine) lines all_lines)),
            )
      ]
