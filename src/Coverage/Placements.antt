-- ===== src/Coverage/Placements.antt =====
-- internal/coverage/placements.go: every variant has exactly one placement, and a placement names
-- a test that exists and runs. A problem carries what its text shows; the final sort of the texts
-- is not modelled, and `Counts` is the list of the keys it counts.
pub mod Check
pub mod Exact
pub mod Covered
use docker_net_dhcp_lab.Prelude.{
  Result, err, ok, ℕ, eq_pair, Bool, true, false, not, ◌&&◌, ◌||◌, Option, none, some, List, [],
  ◌∷◌, ◌++◌, leb, nat_eq, if◌then◌else◌, all, any, ◌==◌, contains, Text, codes, has_prefix, eq_text,
  eq_nat,
}
use docker_net_dhcp_lab.Coverage.Cutting.{cut, strip}
use docker_net_dhcp_lab.Coverage.Ids.{Kind, alias, VariantId, IdError, is_name, name_ok, parse_id}
use docker_net_dhcp_lab.Coverage.Ids.Matching.{matches, options, star}

-- `Placement`
pub record Placement : Type 0 where
  pub match : List Text
  pub home : Text
  pub status : Text
  pub ref : Text
  pub assert : Text
  pub points : List Text
  pub start_na : Text
  pub reason : Text
  pub issue : Text
  pub also : List Text

-- what the check reads of a `Variant`
pub record Variant : Type 0 where
  pub id : Text
  pub runtime : Bool

-- `LabScenario`
pub record LabScenario : Type 0 where
  pub name : Text
  pub needs : List Text

-- `Input`; `tests` and `undeclared` are sets, and `mode_path` is a map with "" for a missing key
pub record Input : Type 0 where
  pub variants : List Variant
  pub placements : List Placement
  pub tests : List Text
  pub lab : List LabScenario
  pub undeclared : List Text
  pub mode_path : Text → Text

pub data Problem : Type 0 where
  no_patterns : Problem
  bad_pattern : IdError → Problem
  mode_glob : Text → Problem
  bad_home covered_without_ref unknown_ref wrong_home untested_ref : Problem
  gated_ref : Text → Problem
  unknown_also untested_also : Text → Problem
  covered_without_assert : Problem
  bad_point : Text → Problem
  gap_without_issue na_without_reason bad_status : Problem
  no_start_point no_settled_point alias_on_unit_only : Problem
  unparsed_variant : IdError → Problem
  unplaced : Problem
  placed_often : List ℕ → Problem
  matches_nothing : Problem

-- a problem with the placement's index or the variant's ID that its text names
pub record Report : Type 0 where
  pub about : ℕ
  pub variant : Text
  pub problem : Problem

abbrev pub home_unit : Text
home_unit = codes "unit"

abbrev pub home_integration : Text
home_integration = codes "integration"

abbrev pub home_lab : Text
home_lab = codes "lab"

abbrev pub covered : Text
covered = codes "covered"

abbrev pub gap : Text
gap = codes "gap"

abbrev pub na : Text
na = codes "na"

is_digit : ℕ → Bool
is_digit c = leb b'0' c && leb c b'9'

number_ok : Text → Bool
unfolding is_digit
number_ok [] = false
number_ok (c ∷ s) = all is_digit (c ∷ s)

issue_tail : Option (Text × Text) → Bool
unfolding number_ok name_ok
issue_tail none = false
issue_tail (some (repo, n)) = name_ok repo && number_ok n

issue_parts : Option (Text × Text) → Bool
unfolding issue_tail cut
issue_parts none = false
issue_parts (some (owner, rest)) = name_ok owner && issue_tail (cut b'#' rest)

-- `issueRE.MatchString`: owner/repo#N, where no part can hold a separator
unfoldable pub issue_ok : Text → Bool
unfolding issue_parts
issue_ok s = issue_parts (cut b'/' s)

-- `strings.TrimSpace(s) == ""`, on ASCII
unfoldable pub is_blank : Text → Bool
is_blank [] = true
is_blank (c ∷ s) = (nat_eq c b' ' || (leb 9 c && leb c 13)) && is_blank s

module _ (input : Input) where
  -- `refKind`
  unfoldable pub ref_kind : Text → Text
  ref_kind ref =
      if has_prefix ref (codes "pkg/plugin/")
      then home_unit
      else if has_prefix ref (codes "test/integration/")
      then home_integration
      else if any (λ s. s.name == ref) input.lab
      then home_lab
      else []

  -- the loop over `s.Needs`
  first_undeclared : List Text → Option Text
  first_undeclared [] = none
  first_undeclared (n ∷ ns) = if contains input.undeclared n then some n else first_undeclared ns

  gated_by : Text → List LabScenario → Option Text
  unfolding first_undeclared
  gated_by ref [] = none
  gated_by ref (s ∷ ss) = elim (if s.name == ref then first_undeclared s.needs else none) [
    | some n ↦ some n
    | none ↦ gated_by ref ss
  ]

  -- `labGated`, `none` for ""
  unfoldable pub lab_gated : Text → Option Text
  unfolding gated_by
  lab_gated ref = gated_by ref input.lab

  abbrev is_some : Option Text → Bool
  is_some none = false
  is_some (some _) = true

  -- `countKey`, as the pair of home and status
  unfoldable pub count_key : Placement → Text × Text
  count_key p = (p.home, if p.status == covered && is_some (lab_gated p.ref) then gap else p.status)

  ref_problems : Placement → List Problem
  ref_problems p =
      let kind = ref_kind p.ref in
      if kind == []
      then unknown_ref ∷ []
      else if not (kind == p.home)
      then wrong_home ∷ []
      else if not (kind == home_lab) && not (contains input.tests p.ref)
      then untested_ref ∷ []
      else []

  gate_problems : Option Text → List Problem
  gate_problems none = []
  gate_problems (some n) = gated_ref n ∷ []

  also_problems : List Text → List Problem
  also_problems [] = []
  also_problems (a ∷ rest) =
      (if ref_kind a == []
        then unknown_also a ∷ []
        else if not (ref_kind a == home_lab) && not (contains input.tests a)
        then untested_also a ∷ []
        else [])
      ++ also_problems rest

  point_problems : List Text → List Problem
  point_problems [] = []
  point_problems (pt ∷ rest) =
      (if not (pt == codes "start") && not (pt == codes "settled") then bad_point pt ∷ [] else [])
      ++ point_problems rest

  -- the case `StatusCovered`, past the test of the ref
  covered_problems : Placement → List Problem
  unfolding ref_problems gate_problems also_problems point_problems
  covered_problems p =
      ref_problems p
      ++ (gate_problems (lab_gated p.ref)
          ++ (also_problems p.also
              ++ ((if p.assert == [] then covered_without_assert ∷ [] else [])
                  ++ point_problems p.points)))

  status_problems : Placement → List Problem
  unfolding covered_problems issue_ok is_blank
  status_problems p =
      if p.status == covered
      then (if p.ref == [] then covered_without_ref ∷ [] else covered_problems p)
      else if p.status == gap
      then (if not (issue_ok p.issue) then gap_without_issue ∷ [] else [])
      else if p.status == na
      then (if is_blank p.reason then na_without_reason ∷ [] else [])
      else bad_status ∷ []

  -- `checkPlacement`
  unfoldable pub check_placement : Placement → List Problem
  unfolding status_problems
  check_placement p =
      (if p.home == home_unit || p.home == home_integration || p.home == home_lab
        then []
        else bad_home ∷ [])
      ++ status_problems p
