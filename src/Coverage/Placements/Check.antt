-- ===== src/Coverage/Placements/Check.antt =====
-- internal/coverage/placements.go: `CheckVariants` and the rules that need the variant.
use docker_net_dhcp_lab.Prelude.{
  Result, err, ok, ℕ, eq_pair, ◌+◌, Bool, true, false, not, ◌&&◌, List, [], ◌∷◌, ◌++◌, map,
  if◌then◌else◌, any, ◌==◌, contains, Text, codes, eq_text, eq_nat,
}
use docker_net_dhcp_lab.Coverage.Ids.{alias, VariantId, parse_id, IdError}
use docker_net_dhcp_lab.Coverage.Ids.Matching.{kind_eq, matches, options, star}
use docker_net_dhcp_lab.Coverage.Placements.{
  Placement, Variant, Input, Problem, no_patterns, bad_pattern, mode_glob, no_start_point,
  no_settled_point, alias_on_unit_only, unparsed_variant, unplaced, placed_often, matches_nothing,
  Report, home_unit, home_integration, home_lab, covered, is_blank, ref_kind, lab_gated, is_some,
  count_key, check_placement,
}

-- `compiled`, with the label's index
pub record Compiled : Type 0 where
  pub placement : Placement
  pub index : ℕ
  pub patterns : List VariantId
  pub usable : Bool

abbrev report : ℕ → Text → Problem → Report
report i v p = record { about = i; variant = v; problem = p }

-- the result of `CheckVariants`: the problems, the counted keys, and the indices of `matched`
pub record Checked : Type 0 where
  pub problems : List Report
  pub counted : List (Text × Text)
  pub matched : List ℕ

module _ (input : Input) where
  glob_problems : List Text → List Problem
  glob_problems [] = []
  glob_problems (opt ∷ opts) =
      (if input.mode_path opt == codes "shared" then [] else mode_glob opt ∷ [])
      ++ glob_problems opts

  -- what one parsed pattern is refused for
  pattern_problems : VariantId → List Problem
  unfolding glob_problems
  pattern_problems i = if i.mode == star then glob_problems (options i) else []

  -- one round of the loop over `p.Match`: a pattern that parses is kept, with its problems
  keep_pattern :
      Result IdError VariantId → List VariantId × List Problem → List VariantId × List Problem
  unfolding pattern_problems
  keep_pattern (err e) (is, ps) = (is, bad_pattern e ∷ ps)
  keep_pattern (ok i) (is, ps) = (i ∷ is, pattern_problems i ++ ps)

  compile_patterns : List Text → List VariantId × List Problem
  unfolding keep_pattern
  compile_patterns [] = ([], [])
  compile_patterns (m ∷ ms) = keep_pattern (parse_id m) (compile_patterns ms)

  unfoldable pub match_problems : Placement → List Problem
  unfolding compile_patterns
  match_problems p = elim p.match [ [] ↦ no_patterns ∷ [] | m ∷ ms ↦ (compile_patterns (m ∷ ms)).1 ]

  abbrev is_nil : List Problem → Bool
  is_nil [] = true
  is_nil (_ ∷ _) = false

  -- the body of the first loop
  unfoldable pub compile : ℕ → Placement → Compiled
  unfolding match_problems
  compile i p = record {
    placement = p;
    index = i;
    patterns = (compile_patterns p.match).0;
    usable = is_nil (match_problems p);
  }

  unfoldable pub compile_from : ℕ → List Placement → List Compiled
  unfolding compile
  compile_from i [] = []
  compile_from i (p ∷ ps) = compile i p ∷ compile_from (i + 1) ps

  unfoldable pub reports_at : ℕ → List Problem → List Report
  reports_at i [] = []
  reports_at i (p ∷ ps) = report i [] p ∷ reports_at i ps

  -- the problems of the first loop
  unfoldable pub placement_reports : ℕ → List Placement → List Report
  unfolding reports_at match_problems check_placement
  placement_reports i [] = []
  placement_reports i (p ∷ ps) =
      reports_at i (match_problems p ++ check_placement input p) ++ placement_reports (i + 1) ps

  -- the loops over `cs` and its patterns for one ID
  abbrev pub covers : VariantId → Compiled → Bool
  covers i c = c.usable && any (λ p. matches p i) c.patterns

  unfoldable pub hits : VariantId → List Compiled → List Compiled
  hits i [] = []
  hits i (c ∷ cs) = let rest = hits i cs in if covers i c then c ∷ rest else rest

  -- one entry of `p.Also`, by its kind
  reaches_host : Text → Bool
  reaches_host a =
      if ref_kind input a == home_integration
      then contains input.tests a
      else if ref_kind input a == home_lab
      then not (is_some input (lab_gated input a))
      else false

  start_problems : Variant → Placement → List Problem
  start_problems v p =
      if v.runtime && not (contains p.points (codes "start")) && is_blank p.start_na
      then no_start_point ∷ []
      else []

  settled_problems : Variant → Placement → List Problem
  settled_problems v p =
      if v.runtime && not (contains p.points (codes "settled")) then no_settled_point ∷ [] else []

  alias_problems : Variant → VariantId → Placement → List Problem
  unfolding reaches_host
  alias_problems v i p =
      if v.runtime && kind_eq i.kind alias && p.home == home_unit
      then (if any reaches_host p.also then [] else alias_on_unit_only ∷ [])
      else []

  -- `checkVariantPlacement`
  unfoldable pub check_variant_placement : Variant → VariantId → Placement → List Problem
  unfolding start_problems settled_problems alias_problems
  check_variant_placement v i p =
      if not (p.status == covered)
      then []
      else start_problems v p ++ (settled_problems v p ++ alias_problems v i p)

  unfoldable pub reports_of : ℕ → Text → List Problem → List Report
  reports_of n v [] = []
  reports_of n v (p ∷ ps) = report n v p ∷ reports_of n v ps

  -- the `switch` on the number of hits
  unfoldable pub judge_hits : Variant → VariantId → List Compiled → List Report × List (Text × Text)
  unfolding reports_of check_variant_placement count_key
  judge_hits v i [] = (report 0 v.id unplaced ∷ [], [])
  judge_hits v i (c ∷ []) = (
    reports_of c.index v.id (check_variant_placement v i c.placement),
    count_key input c.placement ∷ [],
  )
  judge_hits v i (c ∷ d ∷ cs) =
      (report 0 v.id (placed_often (map (λ x. x.index) (c ∷ d ∷ cs))) ∷ [], [])

  -- the body of the second loop, on the parsed ID
  unfoldable pub check_variant : Variant → Result IdError VariantId → List Compiled → Checked
  unfolding judge_hits hits
  check_variant v (err e) cs = record {
    problems = report 0 v.id (unparsed_variant e) ∷ [];
    counted = [];
    matched = [];
  }
  check_variant v (ok i) cs = record {
    problems = (judge_hits v i (hits i cs)).0;
    counted = (judge_hits v i (hits i cs)).1;
    matched = map (λ c. c.index) (hits i cs);
  }

  unfoldable pub check_each : List Variant → List Compiled → Checked
  unfolding check_variant
  check_each [] cs = record { problems = []; counted = []; matched = [] }
  check_each (v ∷ vs) cs =
      let here = check_variant v (parse_id v.id) cs in
      let rest = check_each vs cs in
      record {
        problems = here.problems ++ rest.problems;
        counted = here.counted ++ rest.counted;
        matched = here.matched ++ rest.matched;
      }

  -- the third loop
  unfoldable pub idle_reports : List ℕ → List Compiled → List Report
  idle_reports matched [] = []
  idle_reports matched (c ∷ cs) =
      (if c.usable && not (contains matched c.index)
        then report c.index [] matches_nothing ∷ []
        else [])
      ++ idle_reports matched cs

  -- `CheckVariants`
  unfoldable pub check_variants : Checked
  unfolding compile_from placement_reports check_each idle_reports
  check_variants =
      let cs = compile_from 0 input.placements in
      let each = check_each input.variants cs in
      record each {
        problems =
            placement_reports 0 input.placements ++ (each.problems ++ idle_reports each.matched cs);
      }
