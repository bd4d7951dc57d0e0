-- ===== src/Labyaml/Pool/Laws.antt =====
-- internal/labyaml/schema.go: what an accepted source satisfies.
use docker_net_dhcp_lab.Labyaml.Claims.Totals.{partner_claims, source_claims, mgmt_claim}
use docker_net_dhcp_lab.Labyaml.Netip.{Addr, Prefix, Parsers, holds, addr_le, eq_addr}
use docker_net_dhcp_lab.Labyaml.Config.{Peer, Source, lookup_base_image, source_mgmt}
use docker_net_dhcp_lab.Labyaml.Claims.{Seen, claim_mgmt, nothing_seen}
use docker_net_dhcp_lab.Labyaml.Claims.Extends.{
  Extends, Extends-refl, Extends-trans, claim_mgmt-Extends,
}
use docker_net_dhcp_lab.Labyaml.Hosts.{in_pool_range, validate_device}
use docker_net_dhcp_lab.Labyaml.Hosts.Laws.{
  GoodPartner, validate_partner_inv, validate_partner-Extends,
}
use docker_net_dhcp_lab.Labyaml.Pool.{check_pool, optional_partner, check_source, validate_source}
use docker_net_dhcp_lab.Prelude.{
  Result-cases, ok, ◌≡◌, subst, inl, inr, true, false, Option, none, some, arith, Option-cases,
  Text, eq_text,
}

-- A pool in order inside its segment, off the source's own address.
pub record GoodPool (seg_prefix : Prefix) (seg start end : Addr) : Type 0 where
  pub start_inside : holds seg_prefix start ≡ true
  pub end_inside : holds seg_prefix end ≡ true
  pub ordered : addr_le end start ≡ false
  pub off_seg : in_pool_range start end seg ≡ false

check_pool_inv :
    (seg_prefix : Prefix) (seg start end : Addr)
    → check_pool seg_prefix seg start end ≡ ok tt
    → GoodPool seg_prefix seg start end
unfolding check_pool
check_pool_inv seg_prefix seg start end h = record {
  start_inside = ground arith;
  end_inside = ground arith;
  ordered = ground arith;
  off_seg = ground arith;
}

module _ (netip : Parsers) (mgmt : Prefix) where
  -- the partner, when there is one
  abbrev pub PartnerIsGood : Option Peer → Addr → Addr → Addr → Prefix → Type 0
  PartnerIsGood none primary_seg start end seg_prefix = Unit
  PartnerIsGood (some p) primary_seg start end seg_prefix =
      (q : Prefix) × (netip.parse_prefix p.seg_address ≡ some q)
      × GoodPartner q.addr primary_seg start end seg_prefix

  optional_partner_inv :
      (o : Option Peer) (type : Text) (primary_seg start end : Addr) (seg_prefix : Prefix)
      (s : Seen) {t : Seen}
      → optional_partner netip mgmt o type primary_seg start end seg_prefix s ≡ ok t
      → PartnerIsGood o primary_seg start end seg_prefix × Extends mgmt s (partner_claims netip o) t
  unfolding optional_partner
  optional_partner_inv none type primary_seg start end seg_prefix s {t} h =
      (tt, subst (Extends mgmt s nothing_seen) (ground arith) (Extends-refl mgmt s))
  optional_partner_inv (some p) type primary_seg start end seg_prefix s h = (
    (validate_partner_inv netip mgmt p type primary_seg start end seg_prefix s h).1,
    validate_partner-Extends netip mgmt p type primary_seg start end seg_prefix s h,
  )

  -- An accepted source: its texts parse, its own address lies where it must, its pool and its
  -- partner are good.
  pub record GoodSource (src : Source) (seg_prefix addr_prefix : Prefix) : Type 0 where
    pub seg : Prefix
    pub start : Addr
    pub end : Addr
    pub seg_parsed : netip.parse_prefix src.seg_address ≡ some seg
    pub start_parsed : netip.parse_addr src.pool_start ≡ some start
    pub end_parsed : netip.parse_addr src.pool_end ≡ some end
    pub seg_inside : holds addr_prefix seg.addr ≡ true
    pub pool : GoodPool seg_prefix seg.addr start end
    pub peer : PartnerIsGood src.partner seg.addr start end seg_prefix

  check_source_inv :
      (src : Source) (seg_prefix addr_prefix : Prefix) (s : Seen) {t : Seen}
      → check_source netip mgmt src seg_prefix addr_prefix s ≡ ok t
      → GoodSource src seg_prefix addr_prefix × Extends mgmt s (partner_claims netip src.partner) t
  unfolding check_source
  check_source_inv src seg_prefix addr_prefix s h =
      elim (Option-cases (netip.parse_prefix src.seg_address)) [
        | inl e ↦ absurd (ground arith)
        | inr (seg, e) ↦ elim (Option-cases (netip.parse_addr src.pool_start)) [
          | inl f ↦ absurd (ground arith)
          | inr (start, f) ↦ elim (Option-cases (netip.parse_addr src.pool_end)) [
            | inl g ↦ absurd (ground arith)
            | inr (end, g) ↦ elim (Result-cases (check_pool seg_prefix seg.addr start end)) [
              | inl k ↦ absurd (ground arith)
              | inr (_, k) ↦
                  elim (Result-cases (validate_device netip src seg_prefix seg start end)) [
                    | inl d ↦ absurd (ground arith)
                    | inr (_, d) ↦
                        let (peer, extends) =
                          optional_partner_inv src.partner src.type seg.addr start end seg_prefix s
                            (ground arith) in
                        (
                          record {
                            seg = seg;
                            start = start;
                            end = end;
                            seg_parsed = e;
                            start_parsed = f;
                            end_parsed = g;
                            seg_inside = ground arith;
                            pool = check_pool_inv seg_prefix seg.addr start end k;
                            peer = peer;
                          },
                          extends,
                        )
                  ]
            ]
          ]
        ]
      ]

  pub validate_source-GoodSource :
      (src : Source) (seg_prefix addr_prefix : Prefix) (s t : Seen)
      → validate_source netip mgmt src seg_prefix addr_prefix s ≡ ok t
      → GoodSource src seg_prefix addr_prefix × Extends mgmt s (source_claims netip src) t
  unfolding validate_source
  validate_source-GoodSource src seg_prefix addr_prefix s t h =
      elim (Option-cases (lookup_base_image src.base_image)) [
        | inl e ↦ absurd (ground arith)
        | inr (image, e) ↦
            elim (Result-cases (claim_mgmt netip mgmt source_mgmt src.mgmt_address s)) [
              | inl f ↦ absurd (ground arith)
              | inr (u, f) ↦
                  let (good, extends) =
                    check_source_inv src seg_prefix addr_prefix u (ground arith) in
                  (
                    good,
                    Extends-trans mgmt s (mgmt_claim (netip.parse_prefix src.mgmt_address)) u
                        (partner_claims netip src.partner) t
                        (claim_mgmt-Extends netip mgmt source_mgmt src.mgmt_address s f) extends,
                  )
            ]
      ]
