-- ===== src/Labyaml/Hosts/Laws.antt =====
-- internal/labyaml/schema.go: what the accepted addresses of hosts satisfy, and that their claims
-- keep to the rules of the claims before.
use docker_net_dhcp_lab.Labyaml.Claims.Totals.{
  relay_claims, partner_claims, uplink_claim, bridge_claim, add, subnet_claim, mgmt_claim,
  add_nothing,
}
use docker_net_dhcp_lab.Labyaml.Netip.{Addr, Prefix, Parsers, holds, addr_lt, masked, eq_addr}
use docker_net_dhcp_lab.Labyaml.Config.{
  Peer, partner_mgmt, Source, Relay, Cell, Field, relay_client, relay_server, lookup_base_image,
  relay_bridge, relay_subnet, relay_mgmt, Fault,
}
use docker_net_dhcp_lab.Labyaml.Claims.{Seen, claim_bridge, claim_subnet, claim_mgmt, nothing_seen}
use docker_net_dhcp_lab.Labyaml.Claims.Laws.{claim_subnet_inv, IsApart, IsNew}
use docker_net_dhcp_lab.Labyaml.Claims.Extends.{
  Extends, Extends-trans, claim_bridge-Extends, claim_subnet-Extends, claim_mgmt-Extends,
  Extends-refl,
}
use docker_net_dhcp_lab.Labyaml.Hosts.{
  reserved_group_host, in_group_b_band, in_pool_range, last_octet, leg_address, check_partner,
  validate_partner, in_source_pool, is_source_seg, check_legs, check_relay, claim_relay,
  validate_uplink, broadcast,
}
use docker_net_dhcp_lab.Prelude.{
  Result-cases, ok, ok_inj, ◌≡◌, ◌⊎◌, inl, inr, true, false, some, arith, Option-cases, ◌==◌, Text,
  eq_text, sym, ap, subst, [], ◌∷◌, ◌++◌, contains, EachAfter-concat, Bool-cases, ◌∙◌,
}

-- A partner's segment address: inside the segment, off the pool and the primary's address, in no
-- band that the scenarios use, and not above the pool.
pub record GoodPartner (a primary_seg start end : Addr) (seg_prefix : Prefix) : Type 0 where
  pub inside : holds seg_prefix a ≡ true
  pub not_primary : (a == primary_seg) ≡ false
  pub off_pool : in_pool_range start end a ≡ false
  pub off_bands : in_group_b_band (last_octet a) ≡ false
  pub not_above : addr_lt end a ≡ false

check_partner_inv :
    (a primary_seg start end : Addr) (seg_prefix : Prefix)
    → check_partner a primary_seg start end seg_prefix ≡ ok tt
    → GoodPartner a primary_seg start end seg_prefix
unfolding check_partner
check_partner_inv a primary_seg start end seg_prefix h = record {
  inside = ground arith;
  not_primary = ground arith;
  off_pool = ground arith;
  off_bands = ground arith;
  not_above = ground arith;
}

validate_uplink_inv :
    (cell : Cell) (s : Seen) {t : Seen}
    → validate_uplink cell s ≡ ok t
    → ((cell.segment.uplink == []) ≡ true × (t ≡ s))
      ⊎ ((cell.segment.uplink == []) ≡ false
          × (contains s.uplinks cell.segment.uplink ≡ false)
          × (t ≡ record s { uplinks = s.uplinks ++ cell.segment.uplink ∷ [] }))
unfolding validate_uplink
validate_uplink_inv cell s h = elim (Bool-cases (cell.segment.uplink == [])) [
  | inl e ↦ inl (e, ground arith)
  | inr e ↦ inr (e, ground arith, ground arith)
]

pub validate_uplink-Extends :
    (mgmt : Prefix) (cell : Cell) (s : Seen) {t : Seen}
    → validate_uplink cell s ≡ ok t
    → Extends mgmt s (uplink_claim cell.segment.uplink) t
validate_uplink-Extends mgmt cell s {t} h = elim (validate_uplink_inv cell s h) [
  | inl (none_set, e) ↦
      rw none_set (subst (Extends mgmt s nothing_seen) (sym e) (Extends-refl mgmt s))
  | inr (set, new, e) ↦ rw set (record {
    apart = λ a. subst (IsApart mgmt) (sym e) (record {
      bridges_new = a.bridges_new;
      subnets_disjoint = a.subnets_disjoint;
      off_mgmt = a.off_mgmt;
      mgmt_new = a.mgmt_new;
      in_mgmt = a.in_mgmt;
      subnets6_disjoint = a.subnets6_disjoint;
      uplinks_new = EachAfter-concat IsNew [] s.uplinks cell.segment.uplink a.uplinks_new new;
    });
    recorded =
        e
        ∙ sym (
            ap (λ (x : Seen). record x { uplinks = s.uplinks ++ cell.segment.uplink ∷ [] })
              (add_nothing s));
  })
]

module _ (netip : Parsers) (mgmt : Prefix) where
  pub validate_partner_inv :
      (p : Peer) (type : Text) (primary_seg start end : Addr) (seg_prefix : Prefix) (s : Seen)
      {t : Seen}
      → validate_partner netip p type primary_seg start end mgmt seg_prefix s ≡ ok t
      → (claim_mgmt netip mgmt partner_mgmt p.mgmt_address s ≡ ok t)
        × ((q : Prefix) × (netip.parse_prefix p.seg_address ≡ some q)
            × GoodPartner q.addr primary_seg start end seg_prefix)
  unfolding validate_partner
  validate_partner_inv p type primary_seg start end seg_prefix s h =
      elim (Result-cases (claim_mgmt netip mgmt partner_mgmt p.mgmt_address s)) [
        | inl e ↦ absurd (ground arith)
        | inr (u, e) ↦ elim (Option-cases (netip.parse_prefix p.seg_address)) [
          | inl n ↦ absurd (ground arith)
          | inr (q, n) ↦
              elim (Result-cases (check_partner q.addr primary_seg start end seg_prefix)) [
                | inl f ↦ absurd (ground arith)
                | inr (_, f) ↦ (
                  ground arith,
                  (q, n, check_partner_inv q.addr primary_seg start end seg_prefix f),
                )
              ]
        ]
      ]

  pub validate_partner-Extends :
      (p : Peer) (type : Text) (primary_seg start end : Addr) (seg_prefix : Prefix) (s : Seen)
      {t : Seen}
      → validate_partner netip p type primary_seg start end mgmt seg_prefix s ≡ ok t
      → Extends mgmt s (partner_claims netip (some p)) t
  validate_partner-Extends p type primary_seg start end seg_prefix s h =
      claim_mgmt-Extends netip mgmt partner_mgmt p.mgmt_address s
        (validate_partner_inv p type primary_seg start end seg_prefix s h).0

  -- An accepted leg: the text parses to it, and it is a host of its segment.
  pub record GoodLeg (text : Text) (seg : Prefix) (a : Addr) : Type 0 where
    pub bits_match : netip.parse_prefix text ≡ some (record { addr = a; bits = seg.bits })
    pub inside : holds seg a ≡ true
    pub not_network : (a == (masked seg).addr) ≡ false
    pub not_broadcast : (a == broadcast seg) ≡ false

  leg_address_inv :
      (f : Field) (t : Text) (seg : Prefix) {a : Addr}
      → leg_address netip f t seg ≡ ok a
      → GoodLeg t seg a
  unfolding leg_address
  leg_address_inv f t seg {a} h = elim (Option-cases (netip.parse_prefix t)) [
    | inl e ↦ absurd (ground arith)
    | inr (p, e) ↦ record {
      bits_match = ground arith;
      inside = ground arith;
      not_network = ground arith;
      not_broadcast = ground arith;
    }
  ]

  -- The legs of an accepted relay: hosts of their segments, the client's off the pool and off the
  -- octets that the scenarios reserve, the server's not the source's own address.
  pub record GoodLegs (r : Relay) (src : Source) (seg_prefix srv_prefix : Prefix) : Type 0 where
    pub client : Addr
    pub server : Addr
    pub client_leg : GoodLeg r.client_address seg_prefix client
    pub server_leg : GoodLeg r.server_address srv_prefix server
    pub client_off_pool : in_source_pool netip src client ≡ false
    pub client_unreserved : reserved_group_host (last_octet client) ≡ false
    pub server_not_source : is_source_seg netip src server ≡ false

  check_legs_inv :
      (r : Relay) (src : Source) (seg_prefix srv_prefix : Prefix)
      → check_legs netip r src seg_prefix srv_prefix ≡ ok tt
      → GoodLegs r src seg_prefix srv_prefix
  unfolding check_legs
  check_legs_inv r src seg_prefix srv_prefix h =
      elim (Result-cases (leg_address netip relay_client r.client_address seg_prefix)) [
        | inl e ↦ absurd (ground arith)
        | inr (a, e) ↦
            elim (Result-cases (leg_address netip relay_server r.server_address srv_prefix)) [
              | inl f ↦ absurd (ground arith)
              | inr (b, f) ↦ record {
                client = a;
                server = b;
                client_leg = leg_address_inv relay_client r.client_address seg_prefix e;
                server_leg = leg_address_inv relay_server r.server_address srv_prefix f;
                client_off_pool = ground arith;
                client_unreserved = ground arith;
                server_not_source = ground arith;
              }
            ]
      ]

  -- What an accepted relay claimed, and where its legs are.
  pub record GoodRelay (r : Relay) (src : Source) (seg_prefix p : Prefix) (s t : Seen)
      : Type 0 where
    pub parsed : netip.parse_prefix r.server_segment.subnet ≡ some p
    pub legs : GoodLegs r src seg_prefix p
    pub extends : Extends mgmt s (relay_claims netip r) t

  claim_relay_inv :
      (r : Relay) (src : Source) (seg_prefix : Prefix) (s : Seen) {p : Prefix} {t : Seen}
      → claim_relay netip r src mgmt seg_prefix s ≡ ok (p, t)
      → GoodRelay r src seg_prefix p s t
  unfolding claim_relay
  claim_relay_inv r src seg_prefix s {p} {t} h =
      elim (Result-cases (claim_bridge relay_bridge r.server_segment.bridge s)) [
        | inl e ↦ absurd (ground arith)
        | inr (a, e) ↦
            elim (Result-cases (claim_subnet netip mgmt relay_subnet r.server_segment.subnet a)) [
              | inl f ↦ absurd (ground arith)
              | inr ((q, b), f) ↦
                  elim (Result-cases (claim_mgmt netip mgmt relay_mgmt r.mgmt_address b)) [
                    | inl g ↦ absurd (ground arith)
                    | inr (c, g) ↦ elim (Result-cases (check_legs netip r src seg_prefix q)) [
                      | inl l ↦ absurd (ground arith)
                      | inr (_, l) ↦
                          subst (λ (x : Prefix × Seen). GoodRelay r src seg_prefix x.0 s x.1)
                            (ok_inj {E = Fault} {a = (q, c)} (ground arith))
                            (record {
                              parsed =
                                  (claim_subnet_inv netip mgmt relay_subnet r.server_segment.subnet
                                    a f).parsed;
                              legs = check_legs_inv r src seg_prefix q l;
                              extends =
                                  Extends-trans mgmt s (bridge_claim r.server_segment.bridge) a
                                    (add (subnet_claim (netip.parse_prefix r.server_segment.subnet))
                                      (mgmt_claim (netip.parse_prefix r.mgmt_address)))
                                    c
                                    (claim_bridge-Extends mgmt relay_bridge r.server_segment.bridge
                                      s e)
                                    (Extends-trans mgmt a
                                      (subnet_claim (netip.parse_prefix r.server_segment.subnet)) b
                                      (mgmt_claim (netip.parse_prefix r.mgmt_address)) c
                                      (claim_subnet-Extends netip mgmt relay_subnet
                                        r.server_segment.subnet a f)
                                      (claim_mgmt-Extends netip mgmt relay_mgmt r.mgmt_address b
                                        g));
                            })
                    ]
                  ]
            ]
      ]

  -- A relay that `validateRelay` accepts has a server segment that parses, a client leg that is a
  -- host of the cell's segment, off the source's pool and off the octets that the scenarios reserve,
  -- and a server leg that is a host of the server segment and not the source's own address. The
  -- claims of the cells before stay apart, and exactly the relay's bridge, subnet and management
  -- address are added to them.
  pub check_relay-GoodRelay :
      (r : Relay) (src : Source) (seg_prefix : Prefix) (s : Seen) {p : Prefix} {t : Seen}
      → check_relay netip r src mgmt seg_prefix s ≡ ok (p, t)
      → GoodRelay r src seg_prefix p s t
  unfolding check_relay
  check_relay-GoodRelay r src seg_prefix s h =
      elim (Option-cases (lookup_base_image r.base_image)) [
        | inl n ↦ absurd (ground arith)
        | inr (image, n) ↦ claim_relay_inv r src seg_prefix s (ground arith)
      ]
