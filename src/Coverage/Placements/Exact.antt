-- ===== src/Coverage/Placements/Exact.antt =====
-- internal/coverage/placements.go: when `CheckVariants` reports nothing, every variant has exactly
-- one placement, every placement has a variant, and every variant is counted once.
use docker_net_dhcp_lab.Coverage.Ids.{VariantId, parse_id}
use docker_net_dhcp_lab.Coverage.Placements.{Variant, Input, check_placement}
use docker_net_dhcp_lab.Coverage.Placements.Check.{
  Compiled, covers, hits, check_variant_placement, compile_from, check_variants,
}
use docker_net_dhcp_lab.Prelude.{
  ok, ℕ, ◌+◌, ◌≡◌, refl, Bool, List, [], ◌∷◌, arith, if◌then◌else◌, length, All, eq_text, eq_nat,
  true, contains,
}

-- how many elements pass the test
unfoldable pub count_if {ℓ} : {A : Type ℓ} → (A → Bool) → List A → ℕ
count_if p [] = 0
count_if p (x ∷ xs) = (if p x then 1 else 0) + count_if p xs

module _ (input : Input) where
  -- The variant's ID parses, one usable placement covers it and no other does, the rules that
  -- need the variant find nothing in that one.
  pub record Placed (cs : List Compiled) (v : Variant) : Type 0 where
    pub id : VariantId
    pub chosen : Compiled
    pub parses : parse_id v.id ≡ ok id
    pub one : hits input id cs ≡ chosen ∷ []
    pub kept : check_variant_placement input v id chosen.placement ≡ []

  length-hits :
      (i : VariantId) (cs : List Compiled) → length (hits input i cs) ≡ count_if (covers input i) cs
  unfolding hits count_if
  length-hits i [] = refl
  length-hits i (c ∷ cs) = ground (arith, length-hits i cs)

  -- The placement's patterns are all legal, and so are its home, status and reference.
  pub record Sound (c : Compiled) : Type 0 where
    pub legal : c.usable ≡ true
    pub kept : check_placement input c.placement ≡ []

  -- the placement is one that a variant hit
  abbrev Used : List ℕ → Compiled → Type 0
  Used matched c = contains matched c.index ≡ true

  -- What a report with no problem says of the variants and the placements.
  pub record Exact : Type 0 where
    pub placed : All (Placed (compile_from input 0 input.placements)) input.variants
    pub each_counted : length (check_variants input).counted ≡ length input.variants
    pub sound : All Sound (compile_from input 0 input.placements)
    pub used : All (Used (check_variants input).matched) (compile_from input 0 input.placements)

  -- Exactly one of the placements covers a variant that is placed.
  pub Placed-count :
      (cs : List Compiled) (v : Variant) (p : Placed cs v) → count_if (covers input p.id) cs ≡ 1
  Placed-count cs v p = rw (← length-hits p.id cs, p.one) refl
