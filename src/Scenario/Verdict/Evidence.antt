-- ===== src/Scenario/Verdict/Evidence.antt =====
-- internal/scenario/verdict.go: the evidence files of a verdict, their order and their lines. The
-- paths and the files are parameters.
pub mod Laws
-- `os.Stat`, as the size of a readable file, and `filepath.Rel`
use docker_net_dhcp_lab.Scenario.Verdict.Folding.{clean}
use docker_net_dhcp_lab.Prelude.{
  Text, List, Result, ◌∷◌, codes, Bool, Option, refuse_if, need, ◌==◌, ℕ, true, ok, false, ◌||◌,
  ◌>>=◌, not, has_prefix, nat_eq, ltb, ◌&&◌, ◌>>◌, eq_text, ◌++◌, eq_pair, [], if◌then◌else◌,
}

pub record Files : Type 0 where
  pub size : Text → Option ℕ
  pub rel : Text → Text → Option Text

pub data Fault : Type 0 where
  pass_without_evidence : Fault
  evidence_unwanted : Text → Fault
  unreadable : Text → Text → Fault
  empty_file : Text → Text → Fault
  label_breaks : Text → Fault
  no_relative_path : Text → Fault
  outside : Text → Fault
  path_breaks : Text → Text → Fault
  not_a_pair : Text → Fault
  bad_timestamp : Text → Fault
  unrecognised : Text → Fault
  field_missing : Fault

-- the loop over the evidence files
unfoldable pub check_file : Files → Text × Text → Result Fault (Unit {0})
check_file files (label, path) = need (files.size path) (unreadable label path) >>= λ size.
    refuse_if (nat_eq size 0) (empty_file label path)

-- the order of `sort.Strings`
unfoldable pub text_le : Text → Text → Bool
text_le [] t = true
text_le (c ∷ s) [] = false
text_le (c ∷ s) (d ∷ t) = ltb c d || (nat_eq c d && text_le s t)

unfoldable pub put : Text × Text → List (Text × Text) → List (Text × Text)
put p [] = p ∷ []
put p (q ∷ rest) = if text_le p.0 q.0 then p ∷ q ∷ rest else q ∷ put p rest

unfoldable pub by_label : List (Text × Text) → List (Text × Text)
unfolding put text_le
by_label [] = []
by_label (p ∷ rest) = put p (by_label rest)

-- `rel == ".." || strings.HasPrefix(rel, "../") || filepath.IsAbs(rel)`
unfoldable pub is_outside : Text → Bool
is_outside rel = rel == codes ".." || has_prefix rel (codes "../") || has_prefix rel (codes "/")

abbrev pub evidence_prefix : Text
evidence_prefix = codes "evidence."

-- the line of one evidence file
unfoldable pub evidence_field : Files → Text → Text × Text → Result Fault (Text × Text)
unfolding is_outside
evidence_field files dir (label, path) =
    refuse_if (not (clean label)) (label_breaks label)
    >> (need (files.rel dir path) (no_relative_path label) >>= λ rel.
        refuse_if (is_outside rel) (outside label)
        >> (refuse_if (not (clean rel)) (path_breaks label rel)
            >> ok (evidence_prefix ++ label, rel)))

unfoldable pub evidence_fields :
    Files → Text → List (Text × Text) → Result Fault (List (Text × Text))
unfolding evidence_field
evidence_fields files dir [] = ok []
evidence_fields files dir (p ∷ rest) =
    evidence_field files dir p >>= λ f. evidence_fields files dir rest >>= λ fs. ok (f ∷ fs)

-- `strings.TrimPrefix(key, prefix)` of a key with the prefix
unfoldable pub after_prefix : Text → Text → Text
after_prefix key [] = key
after_prefix [] (p ∷ prefix) = []
after_prefix (c ∷ key) (p ∷ prefix) = after_prefix key prefix
