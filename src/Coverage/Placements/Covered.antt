-- ===== src/Coverage/Placements/Covered.antt =====
-- internal/coverage/placements.go: what a placement that `checkPlacement` accepts rests on.
use docker_net_dhcp_lab.Coverage.Placements.{
  Placement, Input, home_lab, covered, ref_kind, lab_gated, count_key, check_placement,
  status_problems, covered_problems, ref_problems, gate_problems, also_problems,
  covered_without_assert,
}
use docker_net_dhcp_lab.Prelude.{
  eq_nat, ◌≡◌, refl, ◌≢◌, true, Option, none, some, [], arith, text_eq_iff, contains, Text, eq_text,
  inl, inr, false, ◌∷◌, if◌then◌else◌, Bool-cases, append-eq-nil, ◌==◌, text_eq,
}

module _ (input : Input) (p : Placement) where
  -- A test or scenario of the placement's own home, which exists and runs somewhere.
  pub record Runs : Type 0 where
    pub referred : p.ref ≢ []
    pub own_home : ref_kind input p.ref ≡ p.home
    pub known : p.home ≢ home_lab → contains input.tests p.ref ≡ true
    pub ungated : lab_gated input p.ref ≡ none
    pub asserted : p.assert ≢ []

  ref_problems-nil :
      ref_problems input p ≡ []
      → (ref_kind input p.ref ≡ p.home) × (p.home ≢ home_lab → contains input.tests p.ref ≡ true)
  unfolding ref_problems
  ref_problems-nil h =
      let own : ref_kind input p.ref ≡ p.home =
        ground (arith, text_eq_iff (ref_kind input p.ref) p.home) in
      (own, λ n. ground (arith, own, text_eq_iff (ref_kind input p.ref) home_lab))

  gate_problems-nil : (o : Option Text) → gate_problems input o ≡ [] → o ≡ none
  unfolding gate_problems
  gate_problems-nil none h = refl
  gate_problems-nil (some n) h = cc

  nonempty : (t : Text) → (t == []) ≡ false → t ≢ []
  nonempty t h e = ground (arith, text_eq_iff t [])

  covered_problems-nil :
      covered_problems input p ≡ []
      → (ref_problems input p ≡ []) × (lab_gated input p.ref ≡ none) × (p.assert ≢ [])
  unfolding covered_problems
  covered_problems-nil h =
      let (a, h1) = append-eq-nil (ref_problems input p) _ h in
      let (b, h2) = append-eq-nil (gate_problems input (lab_gated input p.ref)) _ h1 in
      let (_, h3) = append-eq-nil (also_problems input p.also) _ h2 in
      let (d, _) =
        append-eq-nil (if p.assert == [] then covered_without_assert ∷ [] else []) _ h3 in
      (a, gate_problems-nil (lab_gated input p.ref) b, nonempty p.assert (ground (arith, d)))

  status_problems-covered :
      p.status ≡ covered
      → status_problems input p ≡ []
      → (p.ref ≢ []) × (covered_problems input p ≡ [])
  unfolding status_problems
  status_problems-covered s h = elim (Bool-cases (p.ref == [])) [
    | inl e ↦ absurd (ground (arith, simp (is, e) at h))
    | inr e ↦ (nonempty p.ref e, simp (is, e) at h)
  ]
    where
      is : (p.status == covered) ≡ true
      is = (text_eq_iff p.status covered).1 s

  -- A covered placement that is accepted names a ref of its own home that exists, that no
  -- undeclared capability keeps from running, and the line that asserts; it is counted as covered.
  pub check_placement-Runs :
      check_placement input p ≡ []
      → p.status ≡ covered
      → Runs × (count_key input p ≡ (p.home, covered))
  unfolding check_placement count_key text_eq
  check_placement-Runs h s =
      let (_, st) = append-eq-nil _ (status_problems input p) h in
      let (r, co) = status_problems-covered s st in
      let (rp, g, a) = covered_problems-nil co in
      let (own, tested) = ref_problems-nil rp in
      (
        record { referred = r; own_home = own; known = tested; ungated = g; asserted = a },
        rw (g, s) refl,
      )
