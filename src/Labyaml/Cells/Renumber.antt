-- ===== src/Labyaml/Cells/Renumber.antt =====
-- internal/labyaml/schema.go: `validateC9Targets` in terms of the segments of the cells.
use docker_net_dhcp_lab.Labyaml.Netip.{Prefix, Parsers, ip4, masked, eq_prefix}
use docker_net_dhcp_lab.Labyaml.Config.{Cell}
use docker_net_dhcp_lab.Labyaml.Cells.{
  owned, hits_owned, validate_c9_targets, c9_target_of, c9_octet_shift, third_octet,
}
use docker_net_dhcp_lab.Prelude.{
  ok, ◌≡◌, ◌≤◌, ◌+◌, ◌*◌, false, some, List, [], ◌∷◌, arith, any, All, ◌==◌, contains, Option-cases,
  inl, inr, All_map, Bool, subst, eq_text,
}

-- the segment with its third octet shifted
abbrev pub shifted : Prefix → Prefix
shifted p = masked (record {
  addr = record { family = ip4; value = p.addr.value + c9_octet_shift * 256 };
  bits = p.bits;
})

shifted_target :
    (p : Prefix)
    → p.addr.family ≡ ip4
    → third_octet p.addr + c9_octet_shift ≤ 254
    → c9_target_of p ≡ some (shifted p)
unfolding c9_target_of
shifted_target p four le = ground (arith, four, le)

module _ (netip : Parsers) where
  -- the prefix is the segment of none of the cells
  abbrev pub IsNoSegment : List Cell → Prefix → Type 0
  IsNoSegment cells t =
      All
        (λ (d : Cell).
          (q : Prefix) → netip.parse_prefix d.segment.subnet ≡ some q → (masked q == t) ≡ false)
        cells

  -- a cell whose third octet can be shifted is shifted to no cell's segment
  abbrev pub IsTargetFree : List Cell → Cell → Type 0
  IsTargetFree cells c =
      (p : Prefix)
      → netip.parse_prefix c.segment.subnet ≡ some p
      → p.addr.family ≡ ip4
      → third_octet p.addr + c9_octet_shift ≤ 254
      → IsNoSegment cells (shifted p)

  owned-IsNoSegment :
      (cells : List Cell) (t : Prefix)
      → contains (owned netip cells) t ≡ false
      → IsNoSegment cells t
  unfolding owned contains
  owned-IsNoSegment [] t h = tt
  owned-IsNoSegment (d ∷ cells) t h = elim (Option-cases (netip.parse_prefix d.segment.subnet)) [
    | inl e ↦ (
      λ q parsed. absurd (ground (arith, e, parsed)),
      owned-IsNoSegment cells t (ground (arith, h, e)),
    )
    | inr (p, e) ↦ (
      λ q parsed.
          (let same : p ≡ q = ground (arith, e, parsed) in
            subst (λ x. (masked x == t) ≡ false) same (ground (arith, h, e))),
      owned-IsNoSegment cells t (ground (arith, h, e)),
    )
  ]

  hits_owned-IsTargetFree :
      (cells : List Cell) (c : Cell)
      → hits_owned netip (owned netip cells) c ≡ false
      → IsTargetFree cells c
  unfolding hits_owned
  hits_owned-IsTargetFree cells c h p parsed four le =
      owned-IsNoSegment cells (shifted p)
        (let target = shifted_target p four le in ground (arith, h, parsed, target))

  any-All_false :
      (f : Cell → Bool) (cells : List Cell)
      → any f cells ≡ false
      → All (λ (c : Cell). f c ≡ false) cells
  any-All_false f [] h = tt
  any-All_false f (c ∷ cells) h = (ground arith, any-All_false f cells (ground arith))

  pub validate_c9_targets-IsTargetFree :
      (cells : List Cell) → validate_c9_targets netip cells ≡ ok tt → All (IsTargetFree cells) cells
  unfolding validate_c9_targets
  validate_c9_targets-IsTargetFree cells h =
      All_map (λ c no_hit. hits_owned-IsTargetFree cells c no_hit) cells
        (any-All_false (hits_owned netip (owned netip cells)) cells (ground arith))
