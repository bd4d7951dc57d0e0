-- ===== src/Tests/Labyaml.antt =====
-- internal/labyaml/schema.go: a lab of two cells, the second with a source and its partner.
use docker_net_dhcp_lab.Labyaml.Six.{
  check_fields6, validate_source6, validate_partner6, optional_ula, optional_subnet6,
}
use docker_net_dhcp_lab.Labyaml.Netip.{
  last_addr, ip4, Addr, Prefix, Parsers, holds, overlaps, addr_le, addr_beq, addr_lt, masked,
  prefix_beq, span, ip6,
}
use docker_net_dhcp_lab.Labyaml.Netip.Blocks.{IsValid, overlaps_iff}
use docker_net_dhcp_lab.Labyaml.Config.{
  seg_subnet, Relay, Segment, DockerHost, Source, Cell, Config, lookup_base_image,
}
use docker_net_dhcp_lab.Labyaml.Claims.{
  lab_range, Seen, nothing_seen, claim_mgmt, check_subnet_free, must_be_lab_range, claim_bridge,
  claim_subnet,
}
use docker_net_dhcp_lab.Labyaml.Claims.Extends.{Extends}
use docker_net_dhcp_lab.Labyaml.Hosts.{
  check_relay, claim_relay, check_legs, leg_address, in_source_pool, reserved_group_host,
  is_source_seg, in_pool_range, validate_device, validate_partner, check_partner, in_group_b_band,
  validate_uplink, broadcast,
}
use docker_net_dhcp_lab.Labyaml.Pool.{
  validate_source, is_source_type, check_source, check_pool, optional_partner,
}
use docker_net_dhcp_lab.Labyaml.Hosts.Laws.{GoodRelay, check_relay-GoodRelay}
use docker_net_dhcp_lab.Labyaml.Cells.{
  validate, c9_target_of, check_source_v6, hits_owned, owned, validate_c9_targets, validate_cells,
  validate_cell, check_hosts, check_host, source_prefix, optional_source,
}
use docker_net_dhcp_lab.Labyaml.Cells.Accepted.{IsSound, validate-IsSound}
use docker_net_dhcp_lab.Prelude.{
  ok, ℕ, ◌+◌, ◌*◌, ◌≡◌, refl, ◌↔◌, true, false, none, some, List, [], ◌∷◌, arith, contains, lookup,
  Text, codes, text_eq, has_prefix, eq_text, ◌^◌, ◌-◌,
}

-- 10.200.n.h
abbrev lab_addr : ℕ → ℕ → Addr
lab_addr n h = record { family = ip4; value = 180879360 + n * 256 + h }

abbrev lab_prefix : ℕ → ℕ → Prefix
lab_prefix n h = record { addr = lab_addr n h; bits = 24 }

-- the texts that the lab below uses
abbrev prefixes : List (Text × Prefix)
prefixes =
    (codes "10.200.255.0/24", lab_prefix 255 0)
    ∷ (codes "10.200.255.11/24", lab_prefix 255 11)
    ∷ (codes "10.200.255.12/24", lab_prefix 255 12)
    ∷ (codes "10.200.255.13/24", lab_prefix 255 13)
    ∷ (codes "10.200.255.14/24", lab_prefix 255 14)
    ∷ (codes "10.200.1.0/24", lab_prefix 1 0)
    ∷ (codes "10.200.2.0/24", lab_prefix 2 0)
    ∷ (codes "10.200.2.2/24", lab_prefix 2 2)
    ∷ (codes "10.200.2.3/24", lab_prefix 2 3)
    ∷ (codes "10.200.2.4/24", lab_prefix 2 4)
    ∷ (codes "10.200.3.0/24", lab_prefix 3 0)
    ∷ (codes "10.200.3.4/24", lab_prefix 3 4)
    ∷ (codes "10.200.255.15/24", lab_prefix 255 15)
    ∷ []

abbrev addrs : List (Text × Addr)
addrs = (codes "10.200.2.100", lab_addr 2 100) ∷ (codes "10.200.2.200", lab_addr 2 200) ∷ []

abbrev netip : Parsers
netip = record { parse_prefix = λ t. lookup t prefixes; parse_addr = λ t. lookup t addrs }

abbrev kea : Source
kea = record {
  type = codes "kea";
  base_image = codes "debian-13-generic-amd64";
  mgmt_address = codes "10.200.255.13/24";
  seg_address = codes "10.200.2.2/24";
  pool_start = codes "10.200.2.100";
  pool_end = codes "10.200.2.200";
  seg_address6 = [];
  pool6_start = [];
  pool6_end = [];
  temp6_pool = [];
  partner = some (record {
    mgmt_address = codes "10.200.255.14/24";
    seg_address = codes "10.200.2.3/24";
    seg_address6 = [];
  });
  device = none;
}

abbrev segment_of : Text → Text → Segment
segment_of bridge subnet = record { bridge = bridge; subnet = subnet; subnet6 = []; uplink = [] }

abbrev host_at : Text → DockerHost
host_at mgmt = record {
  base_image = codes "debian-13-generic-amd64";
  mgmt_address = mgmt;
  plugin_tag = codes "v1";
}

abbrev bare_cell : Cell
bare_cell = record {
  name = codes "one";
  segment = segment_of (codes "lab-br-one") (codes "10.200.1.0/24");
  source = none;
  relay = none;
  docker_host = host_at (codes "10.200.255.11/24");
}

abbrev kea_cell : Cell
kea_cell = record {
  name = codes "two";
  segment = segment_of (codes "lab-br-two") (codes "10.200.2.0/24");
  source = some kea;
  relay = none;
  docker_host = host_at (codes "10.200.255.12/24");
}

abbrev lab : Config
lab = record {
  management = record { libvirt_network = codes "lab-mgmt"; subnet = codes "10.200.255.0/24" };
  ula_prefix = [];
  cells = bare_cell ∷ kea_cell ∷ [];
}

lab_accepted : validate netip lab ≡ ok tt
unfolding validate text_eq contains lookup has_prefix c9_target_of check_source_v6 hits_owned owned
    validate_c9_targets validate_cells validate_cell check_hosts check_host source_prefix
    optional_source check_subnet_free must_be_lab_range claim_bridge claim_subnet claim_mgmt
    validate_uplink validate_device validate_partner check_partner in_group_b_band in_pool_range
    addr_beq addr_le addr_lt masked prefix_beq holds overlaps span check_pool check_source
    is_source_type optional_partner validate_source check_fields6 validate_source6 validate_partner6
    optional_ula optional_subnet6 lookup_base_image
lab_accepted = refl

validate-IsSound_example : IsSound netip lab
validate-IsSound_example = validate-IsSound netip lab lab_accepted

abbrev kea_claims : Seen
kea_claims = record nothing_seen { mgmt = lab_addr 255 13 ∷ lab_addr 255 14 ∷ [] }

-- 10.200.0.0/16
abbrev wide : Prefix
wide = record { addr = lab_addr 0 0; bits = 16 }

wide-IsValid : IsValid wide
wide-IsValid = omega arith

narrow-IsValid : (n : ℕ) → IsValid (lab_prefix n 0)
narrow-IsValid n = omega arith

overlaps_iff_example :
    (overlaps wide (lab_prefix 2 0) ≡ true)
    ↔ ((ip : Addr) × (holds wide ip ≡ true) × (holds (lab_prefix 2 0) ip ≡ true))
overlaps_iff_example = overlaps_iff wide (lab_prefix 2 0) wide-IsValid (narrow-IsValid 2)

apart : overlaps (lab_prefix 1 0) (lab_prefix 2 0) ≡ false
unfolding overlaps holds
apart = refl

inside : holds (lab_prefix 1 0) (lab_addr 1 7) ≡ true
unfolding holds
inside = refl

abbrev relay : Relay
relay = record {
  base_image = codes "debian-13-generic-amd64";
  mgmt_address = codes "10.200.255.15/24";
  client_address = codes "10.200.2.4/24";
  server_address = codes "10.200.3.4/24";
  server_segment = segment_of (codes "lab-br-srv") (codes "10.200.3.0/24");
}

abbrev relay_claims : Seen
relay_claims = record nothing_seen {
  bridges = codes "lab-br-srv" ∷ [];
  subnets = lab_prefix 3 0 ∷ [];
  mgmt = lab_addr 255 15 ∷ [];
}

relay_accepted :
    check_relay netip relay kea (lab_prefix 255 0) (lab_prefix 2 0) nothing_seen
    ≡ ok (lab_prefix 3 0, relay_claims)
unfolding check_relay claim_relay text_eq contains lookup has_prefix lookup_base_image claim_bridge
    claim_subnet claim_mgmt must_be_lab_range check_subnet_free check_legs leg_address
    in_source_pool in_pool_range reserved_group_host is_source_seg addr_beq addr_le masked broadcast
    holds span overlaps
relay_accepted = refl

check_relay-GoodRelay_example :
    GoodRelay netip
      (lab_prefix 255 0)
      relay
      kea
      (lab_prefix 2 0)
      (lab_prefix 3 0)
      nothing_seen
      relay_claims
check_relay-GoodRelay_example =
    check_relay-GoodRelay netip (lab_prefix 255 0) relay kea (lab_prefix 2 0) nothing_seen
      relay_accepted

abbrev one_subnet : Seen
one_subnet = record nothing_seen { subnets = lab_prefix 1 0 ∷ [] }

subnet_claimed :
    claim_subnet netip (lab_prefix 255 0) seg_subnet (codes "10.200.1.0/24") nothing_seen
    ≡ ok (lab_prefix 1 0, one_subnet)
unfolding claim_subnet must_be_lab_range check_subnet_free text_eq lookup holds span overlaps
subnet_claimed = refl

mgmt_in_lab : holds lab_range (lab_addr 255 0) ≡ true
unfolding holds
mgmt_in_lab = refl

-- `lastAddr` of an IPv4 prefix is an IPv6 address
last_of_ip4 : last_addr (lab_prefix 1 0) ≡ record { family = ip6; value = 2 ^ 104 - 1 }
unfolding last_addr masked
last_of_ip4 = refl
