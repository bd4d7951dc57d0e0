-- ===== src/Labyaml/Cells/Accepted.antt =====
-- internal/labyaml/schema.go: what a configuration that `Validate` accepts satisfies.
use docker_net_dhcp_lab.Labyaml.Cells.Renumber.{IsTargetFree, validate_c9_targets-IsTargetFree}
use docker_net_dhcp_lab.Labyaml.Claims.Totals.{cells_claims, cell_claims}
use docker_net_dhcp_lab.Labyaml.Netip.{Prefix, Parsers, holds, overlaps, eq_prefix, prefix_beq_iff}
use docker_net_dhcp_lab.Labyaml.Config.{Cell, Config, mgmt_subnet}
use docker_net_dhcp_lab.Labyaml.Claims.{Seen, lab_range, nothing_seen, must_be_lab_range}
use docker_net_dhcp_lab.Labyaml.Claims.Laws.{IsApart, Disjoint, must_be_lab_range_inv}
use docker_net_dhcp_lab.Labyaml.Claims.Extends.{
  Extends, Extends-refl, Extends-trans, HasSubnet, Extends-HasSubnet,
}
use docker_net_dhcp_lab.Labyaml.Six.{optional_ula}
use docker_net_dhcp_lab.Labyaml.Cells.{validate_cell, validate_cells, validate}
use docker_net_dhcp_lab.Labyaml.Cells.Laws.{SourceIsGood, validate_cell-GoodCell, IsOwnPrefix}
use docker_net_dhcp_lab.Prelude.{
  Result-cases, ok, ◌≡◌, subst, inl, inr, true, false, Option, some, List, [], ◌∷◌, ◌++◌, arith,
  Bool-cases, Option-cases, All, All-append, ◌==◌, contains, EachAfter, eq_text,
}

Disjoint-get :
    (qs : List Prefix) (p q : Prefix) → Disjoint qs p → contains qs q ≡ true → overlaps p q ≡ false
unfolding contains
Disjoint-get [] p q d h = ground arith
Disjoint-get (r ∷ qs) p q (here, rest) h = elim (Bool-cases (r == q)) [
  | inl e ↦ subst (λ x. overlaps p x ≡ false) ((prefix_beq_iff r q).0 e) here
  | inr e ↦ Disjoint-get qs p q rest (ground arith)
]

module _ (netip : Parsers) where
  -- the segment of d meets no segment of the cells before it
  abbrev pub SegmentIsFree : List Cell → Cell → Type 0
  SegmentIsFree seen d =
      (q : Prefix) × (netip.parse_prefix d.segment.subnet ≡ some q)
      × All
          (λ (c : Cell).
            (p : Prefix) × (netip.parse_prefix c.segment.subnet ≡ some p) × (overlaps q p ≡ false))
          seen

  module _ (mgmt : Prefix) where
    -- a cell's segment in the lab's range and off the management network, and its source
    abbrev pub CellIsGood : Cell → Type 0
    CellIsGood c =
        (p : Prefix) × (netip.parse_prefix c.segment.subnet ≡ some p)
        × (holds lab_range p.addr ≡ true)
        × (overlaps p mgmt ≡ false)
        × ((a : Prefix) × IsOwnPrefix netip mgmt c.relay p a × SourceIsGood netip mgmt c.source p a)

    -- the cell's segment is among the claims
    abbrev Recorded : Seen → Cell → Type 0
    Recorded s c = (p : Prefix) × (netip.parse_prefix c.segment.subnet ≡ some p) × HasSubnet p s

    Recorded-Extends :
        (s d t : Seen) (cs : List Cell)
        → Extends mgmt s d t
        → All (Recorded s) cs
        → All (Recorded t) cs
    Recorded-Extends s d t [] e r = tt
    Recorded-Extends s d t (c ∷ cs) e ((p, parsed, here), r) =
        ((p, parsed, Extends-HasSubnet mgmt s d t p e here), Recorded-Extends s d t cs e r)

    free_of :
        (s : Seen) (q : Prefix) (cs : List Cell)
        → Disjoint s.subnets q
        → All (Recorded s) cs
        → All
            (λ (c : Cell).
              (p : Prefix) × (netip.parse_prefix c.segment.subnet ≡ some p)
              × (overlaps q p ≡ false))
            cs
    free_of s q [] d r = tt
    free_of s q (c ∷ cs) d ((p, parsed, here), r) =
        ((p, parsed, Disjoint-get s.subnets q p d here), free_of s q cs d r)

    pub record GoodCells (ula : Option Prefix) (seen cells : List Cell) (s t : Seen) : Type 0 where
      pub free : EachAfter SegmentIsFree seen cells
      pub good : All CellIsGood cells
      pub extends : Extends mgmt s (cells_claims netip ula cells) t

    validate_cells-GoodCells :
        (ula : Option Prefix) (seen cells : List Cell) (s t : Seen)
        → All (Recorded s) seen
        → validate_cells netip mgmt ula cells s ≡ ok t
        → GoodCells ula seen cells s t
    unfolding validate_cells
    validate_cells-GoodCells ula seen [] s t r h = record {
      free = tt;
      good = tt;
      extends = subst (Extends mgmt s nothing_seen) (ground arith) (Extends-refl mgmt s);
    }
    validate_cells-GoodCells ula seen (c ∷ cs) s t r h =
        elim (Result-cases (validate_cell netip mgmt ula c s)) [
          | inl e ↦ absurd (ground arith)
          | inr (u, e) ↦
              let g = validate_cell-GoodCell netip mgmt ula c s e in
              let rest =
                validate_cells-GoodCells ula (seen ++ c ∷ []) cs u t
                  (All-append (Recorded u) seen (c ∷ [])
                    (Recorded-Extends s (cell_claims netip ula c) u seen g.extends r)
                    ((g.subnet, g.parsed, g.claimed), tt))
                  (ground arith) in
              record {
                free = ((g.subnet, g.parsed, free_of s g.subnet seen g.free r), rest.free);
                good = (
                  (g.subnet, g.parsed, g.in_lab, g.off_mgmt, (g.addr_prefix, g.own, g.source)),
                  rest.good,
                );
                extends = Extends-trans mgmt s _ u _ t g.extends rest.extends;
              }
        ]

  nothing_seen-IsApart : (mgmt : Prefix) → IsApart mgmt nothing_seen
  nothing_seen-IsApart mgmt = record {
    bridges_new = tt;
    subnets_disjoint = tt;
    off_mgmt = tt;
    mgmt_new = tt;
    in_mgmt = tt;
    uplinks_new = tt;
    subnets6_disjoint = tt;
  }

  -- What the tests promise of a configuration: a management network in the lab's range, cells whose
  -- segments and sources are good and whose segments do not meet, claims of all cells that are apart,
  -- and no cell whose renumber target is a segment.
  pub record IsSound (c : Config) : Type 0 where
    pub mgmt : Prefix
    pub mgmt_parsed : netip.parse_prefix c.management.subnet ≡ some mgmt
    pub mgmt_in_lab : holds lab_range mgmt.addr ≡ true
    pub segments_free : EachAfter SegmentIsFree [] c.cells
    pub cells_good : All (CellIsGood mgmt) c.cells
    pub ula : Option Prefix
    pub ula_read : optional_ula netip c.ula_prefix ≡ ok ula
    pub claims_apart : IsApart mgmt (cells_claims netip ula c.cells)
    pub c9_free : All (IsTargetFree netip c.cells) c.cells

  -- A configuration that `Validate` accepts is sound: the management network is in 10.200.0.0/16;
  -- every cell's segment parses, starts in that range, and overlaps neither the management network
  -- nor the segment of an earlier cell; every source's pool, own address and partner are where they
  -- must be; among the bridges, subnets, uplinks and management addresses that the cells, their
  -- relays, sources and partners name, none is claimed twice and no two subnets overlap; and no
  -- cell's renumber target is the segment of a cell.
  pub validate-IsSound : (c : Config) → validate netip c ≡ ok tt → IsSound c
  unfolding validate
  validate-IsSound c h = elim (Option-cases (netip.parse_prefix c.management.subnet)) [
    | inl e ↦ absurd (ground arith)
    | inr (mgmt, e) ↦ elim (Result-cases (must_be_lab_range mgmt_subnet mgmt)) [
      | inl f ↦ absurd (ground arith)
      | inr (_, f) ↦ elim (Result-cases (optional_ula netip c.ula_prefix)) [
        | inl g ↦ absurd (ground arith)
        | inr (ula, g) ↦ elim (Result-cases (validate_cells netip mgmt ula c.cells nothing_seen)) [
          | inl k ↦ absurd (ground arith)
          | inr (t, k) ↦
              let cells = validate_cells-GoodCells mgmt ula [] c.cells nothing_seen t tt k in
              record {
                mgmt = mgmt;
                mgmt_parsed = e;
                mgmt_in_lab = must_be_lab_range_inv netip mgmt mgmt_subnet mgmt f;
                segments_free = cells.free;
                cells_good = cells.good;
                ula = ula;
                ula_read = g;
                claims_apart =
                    subst (IsApart mgmt) cells.extends.recorded
                      (cells.extends.apart (nothing_seen-IsApart mgmt));
                c9_free = validate_c9_targets-IsTargetFree netip c.cells (ground arith);
              }
        ]
      ]
    ]
  ]
