-- ===== src/Labyaml/Cells/Laws.antt =====
-- internal/labyaml/schema.go: what one round of `Validate`'s loop leaves behind.
use docker_net_dhcp_lab.Labyaml.Claims.Totals.{
  subnet6_claim, optional_relay_claims, segment6_claim, cell_claims, optional_source_claims,
  host_claims, add_nothing, source_claims,
}
use docker_net_dhcp_lab.Labyaml.Netip.{Prefix, Parsers, holds, overlaps}
use docker_net_dhcp_lab.Labyaml.Config.{Source, Cell, seg_bridge, seg_subnet, host_mgmt, Relay}
use docker_net_dhcp_lab.Labyaml.Claims.{
  Seen, claim_bridge, claim_subnet, claim_mgmt, lab_range, nothing_seen,
}
use docker_net_dhcp_lab.Labyaml.Claims.Laws.{
  claim_bridge_inv, IsApart, Disjoint, any-false, claim_subnet_inv,
}
use docker_net_dhcp_lab.Labyaml.Claims.Extends.{
  Extends, Extends-refl, Extends-trans, HasSubnet, claim_bridge-Extends, claim_subnet-Extends,
  claim_subnet-HasSubnet, claim_mgmt-Extends, Extends-HasSubnet,
}
use docker_net_dhcp_lab.Labyaml.Hosts.{validate_uplink, validate_relay}
use docker_net_dhcp_lab.Labyaml.Hosts.Laws.{check_relay-GoodRelay, validate_uplink-Extends}
use docker_net_dhcp_lab.Labyaml.Six.{claim_subnet6, optional_subnet6}
use docker_net_dhcp_lab.Labyaml.Pool.{validate_source}
use docker_net_dhcp_lab.Labyaml.Pool.Laws.{GoodSource, validate_source-GoodSource}
use docker_net_dhcp_lab.Labyaml.Cells.{
  check_host, check_source_v6, source_prefix, optional_source, check_hosts, validate_cell,
}
use docker_net_dhcp_lab.Prelude.{
  Result-cases, ok, ◌≡◌, sym, ap, subst, inl, inr, true, false, Option, none, some, [], ◌∷◌, ◌++◌,
  arith, Bool-cases, Option-cases, any, ◌==◌, EachAfter-concat, Text, eq_text, ◌∙◌, refl,
}

module _ (netip : Parsers) (mgmt : Prefix) where
  claim_subnet6_inv :
      (text : Text) (ula : Prefix) (s : Seen) {p : Prefix} {t : Seen}
      → claim_subnet6 netip text ula s ≡ ok (p, t)
      → (netip.parse_prefix text ≡ some p)
        × (any (λ q. overlaps p q) s.subnets6 ≡ false)
        × (t ≡ record s { subnets6 = s.subnets6 ++ p ∷ [] })
  unfolding claim_subnet6
  claim_subnet6_inv text ula s h = elim (Option-cases (netip.parse_prefix text)) [
    | inl e ↦ absurd (ground arith)
    | inr (q, e) ↦ (ground arith, ground arith, ground arith)
  ]

  claim_subnet6-Extends :
      (text : Text) (ula : Prefix) (s : Seen) {p : Prefix} {t : Seen}
      → claim_subnet6 netip text ula s ≡ ok (p, t)
      → Extends mgmt s (subnet6_claim (netip.parse_prefix text)) t
  claim_subnet6-Extends text ula s {p} {t} h =
      let (parsed, free, e) = claim_subnet6_inv text ula s h in
      rw parsed (record {
        apart = λ a. subst (IsApart mgmt) (sym e) (record {
          bridges_new = a.bridges_new;
          subnets_disjoint = a.subnets_disjoint;
          off_mgmt = a.off_mgmt;
          mgmt_new = a.mgmt_new;
          in_mgmt = a.in_mgmt;
          uplinks_new = a.uplinks_new;
          subnets6_disjoint =
              EachAfter-concat Disjoint [] s.subnets6 p a.subnets6_disjoint
                (any-false p s.subnets6 free);
        });
        recorded =
            e
            ∙ sym (ap (λ (x : Seen). record x { subnets6 = s.subnets6 ++ p ∷ [] }) (add_nothing s));
      })

  optional_subnet6-Extends :
      (text : Text) (ula : Option Prefix) (s : Seen) {o : Option Prefix} {t : Seen}
      → optional_subnet6 netip text ula s ≡ ok (o, t)
      → Extends mgmt s (segment6_claim netip ula text) t
  unfolding optional_subnet6
  optional_subnet6-Extends text none s {o} {t} h =
      subst (Extends mgmt s nothing_seen) (ground arith) (Extends-refl mgmt s)
  optional_subnet6-Extends text (some ula) s {o} {t} h = elim (Bool-cases (text == [])) [
    | inl e ↦ rw e (subst (Extends mgmt s nothing_seen) (ground arith) (Extends-refl mgmt s))
    | inr e ↦ elim (Result-cases (claim_subnet6 netip text ula s)) [
      | inl f ↦ absurd (ground arith)
      | inr ((p, u), f) ↦ rw e (
          subst (Extends mgmt s (subnet6_claim (netip.parse_prefix text))) (ground arith)
            (claim_subnet6-Extends text ula s f))
    ]
  ]

  -- where the source's own address lies: on the cell's segment, or on the relay's server segment
  abbrev pub IsOwnPrefix : Option Relay → Prefix → Prefix → Type 0
  IsOwnPrefix none seg_prefix addr_prefix = addr_prefix ≡ seg_prefix
  IsOwnPrefix (some r) seg_prefix addr_prefix =
      netip.parse_prefix r.server_segment.subnet ≡ some addr_prefix

  -- `source_prefix` with the relay apart, since it is what the test branches on
  relayed_prefix :
      (o : Option Relay) (cell : Cell) (seg_prefix : Prefix) (s : Seen) {p : Prefix} {t : Seen}
      → cell.relay ≡ o
      → source_prefix netip mgmt cell seg_prefix s ≡ ok (p, t)
      → IsOwnPrefix o seg_prefix p × Extends mgmt s (optional_relay_claims netip o) t
  unfolding source_prefix validate_relay
  relayed_prefix none cell seg_prefix s {p} {t} e h = (
    ground (arith, h, e),
    subst (Extends mgmt s nothing_seen) (ground (arith, h, e)) (Extends-refl mgmt s),
  )
  relayed_prefix (some r) cell seg_prefix s {p} {t} e h = elim (Option-cases cell.source) [
    | inl f ↦ absurd (ground arith)
    | inr (src, f) ↦
        let g =
          check_relay-GoodRelay netip mgmt r src seg_prefix s {p = p} {t = t} (ground arith) in
        (g.parsed, g.extends)
  ]

  source_prefix-Extends :
      (cell : Cell) (seg_prefix : Prefix) (s : Seen) {p : Prefix} {t : Seen}
      → source_prefix netip mgmt cell seg_prefix s ≡ ok (p, t)
      → IsOwnPrefix cell.relay seg_prefix p
        × Extends mgmt s (optional_relay_claims netip cell.relay) t
  source_prefix-Extends cell seg_prefix s h = relayed_prefix cell.relay cell seg_prefix s refl h

  -- the source, when there is one
  abbrev pub SourceIsGood : Option Source → Prefix → Prefix → Type 0
  SourceIsGood none seg_prefix addr_prefix = Unit
  SourceIsGood (some src) seg_prefix addr_prefix = GoodSource netip mgmt src seg_prefix addr_prefix

  optional_source_inv :
      (o : Option Source) (seg6 : Option Prefix) (seg_prefix addr_prefix : Prefix) (s : Seen)
      {t : Seen}
      → optional_source netip mgmt o seg6 seg_prefix addr_prefix s ≡ ok t
      → SourceIsGood o seg_prefix addr_prefix × Extends mgmt s (optional_source_claims netip o) t
  unfolding optional_source
  optional_source_inv none seg6 seg_prefix addr_prefix s {t} h =
      (tt, subst (Extends mgmt s nothing_seen) (ground arith) (Extends-refl mgmt s))
  optional_source_inv (some src) seg6 seg_prefix addr_prefix s {t} h =
      elim (Result-cases (validate_source netip mgmt src seg_prefix addr_prefix s)) [
        | inl e ↦ absurd (ground arith)
        | inr (u, e) ↦ elim (Result-cases (check_source_v6 netip src seg6)) [
          | inl f ↦ absurd (ground arith)
          | inr (_, f) ↦
              let (good, extends) =
                validate_source-GoodSource netip mgmt src seg_prefix addr_prefix s u e in
              (good, subst (Extends mgmt s (source_claims netip src)) (ground arith) extends)
        ]
      ]

  -- What an accepted cell leaves behind, given the claims before and after it.
  pub record GoodCell (ula : Option Prefix) (cell : Cell) (s t : Seen) : Type 0 where
    pub subnet : Prefix
    pub addr_prefix : Prefix
    pub parsed : netip.parse_prefix cell.segment.subnet ≡ some subnet
    pub in_lab : holds lab_range subnet.addr ≡ true
    pub off_mgmt : overlaps subnet mgmt ≡ false
    pub free : Disjoint s.subnets subnet
    pub claimed : HasSubnet subnet t
    pub own : IsOwnPrefix cell.relay subnet addr_prefix
    pub source : SourceIsGood cell.source subnet addr_prefix
    pub extends : Extends mgmt s (cell_claims netip ula cell) t

  check_hosts_inv :
      (ula : Option Prefix) (cell : Cell) (seg_prefix : Prefix) (s : Seen) {t : Seen}
      → check_hosts netip mgmt ula cell seg_prefix s ≡ ok t
      → ((p : Prefix) × IsOwnPrefix cell.relay seg_prefix p × SourceIsGood cell.source seg_prefix p)
        × Extends mgmt s (host_claims netip ula cell) t
  unfolding check_hosts
  check_hosts_inv ula cell seg_prefix s {t} h = elim (Result-cases (validate_uplink cell s)) [
    | inl e ↦ absurd (ground arith)
    | inr (a, e) ↦ elim (Result-cases (optional_subnet6 netip cell.segment.subnet6 ula a)) [
      | inl f ↦ absurd (ground arith)
      | inr ((seg6, b), f) ↦ elim (Result-cases (check_host cell.docker_host)) [
        | inl i ↦ absurd (ground arith)
        | inr (_, i) ↦
            elim (Result-cases (claim_mgmt netip mgmt host_mgmt cell.docker_host.mgmt_address b)) [
              | inl g ↦ absurd (ground arith)
              | inr (c, g) ↦ elim (Result-cases (source_prefix netip mgmt cell seg_prefix c)) [
                | inl k ↦ absurd (ground arith)
                | inr ((p, d), k) ↦
                    let (own, relayed) = source_prefix-Extends cell seg_prefix c k in
                    let (good, last) =
                      optional_source_inv cell.source seg6 seg_prefix p d {t = t} (ground arith) in
                    (
                      (p, own, good),
                      Extends-trans mgmt s _ a _ t (validate_uplink-Extends mgmt cell s e) (
                          Extends-trans mgmt a _ b _ t
                            (optional_subnet6-Extends cell.segment.subnet6 ula a f)
                            (Extends-trans mgmt b _ c _ t
                              (claim_mgmt-Extends netip mgmt host_mgmt cell.docker_host.mgmt_address
                                b g)
                              (Extends-trans mgmt c _ d _ t relayed last))),
                    )
              ]
            ]
      ]
    ]
  ]

  pub validate_cell-GoodCell :
      (ula : Option Prefix) (cell : Cell) (s : Seen) {t : Seen}
      → validate_cell netip mgmt ula cell s ≡ ok t
      → GoodCell ula cell s t
  unfolding validate_cell
  validate_cell-GoodCell ula cell s {t} h =
      elim (Result-cases (claim_bridge seg_bridge cell.segment.bridge s)) [
        | inl e ↦ absurd (ground arith)
        | inr (a, e) ↦
            elim (Result-cases (claim_subnet netip mgmt seg_subnet cell.segment.subnet a)) [
              | inl f ↦ absurd (ground arith)
              | inr ((p, b), f) ↦
                  let g = claim_subnet_inv netip mgmt seg_subnet cell.segment.subnet a f in
                  let first = claim_bridge-Extends mgmt seg_bridge cell.segment.bridge s e in
                  let ((q, own, good), last) =
                    check_hosts_inv ula cell p b {t = t} (ground arith) in
                  record {
                    subnet = p;
                    addr_prefix = q;
                    parsed = g.parsed;
                    in_lab = g.in_lab;
                    off_mgmt = g.free_of_mgmt;
                    free =
                        subst (λ qs. Disjoint qs p)
                          (ap (λ u. u.subnets)
                            (claim_bridge_inv seg_bridge cell.segment.bridge s e).1)
                          g.free;
                    claimed =
                        Extends-HasSubnet mgmt b (host_claims netip ula cell) t p last
                          (claim_subnet-HasSubnet netip mgmt seg_subnet cell.segment.subnet a f);
                    own = own;
                    source = good;
                    extends = Extends-trans mgmt s _ a _ t first (
                        Extends-trans mgmt a _ b _ t
                          (claim_subnet-Extends netip mgmt seg_subnet cell.segment.subnet a f)
                          last);
                  }
            ]
      ]
