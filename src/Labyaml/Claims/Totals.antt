-- ===== src/Labyaml/Claims/Totals.antt =====
-- internal/labyaml/schema.go: the claims that a configuration makes, read off its texts.
use docker_net_dhcp_lab.Labyaml.Netip.{Prefix, Parsers}
use docker_net_dhcp_lab.Labyaml.Config.{Peer, Source, Relay, Cell}
use docker_net_dhcp_lab.Labyaml.Claims.{Seen, nothing_seen}
use docker_net_dhcp_lab.Prelude.{
  Option, none, some, List, [], ◌∷◌, ◌++◌, ◌==◌, if◌then◌else◌, Text, eq_text, ◌≡◌, refl,
  append_nil, append_assoc,
}

-- the claims of one and of another, in this order
abbrev pub add : Seen → Seen → Seen
add s c = record {
  bridges = s.bridges ++ c.bridges;
  subnets = s.subnets ++ c.subnets;
  mgmt = s.mgmt ++ c.mgmt;
  uplinks = s.uplinks ++ c.uplinks;
  subnets6 = s.subnets6 ++ c.subnets6;
}

pub add_nothing : (s : Seen) → add s nothing_seen ≡ s
add_nothing s =
    rw
      (
        append_nil s.bridges,
        append_nil s.subnets,
        append_nil s.mgmt,
        append_nil s.uplinks,
        append_nil s.subnets6,
      )
      refl

pub add_assoc : (s c d : Seen) → add (add s c) d ≡ add s (add c d)
add_assoc s c d =
    rw
      (
        append_assoc s.bridges c.bridges d.bridges,
        append_assoc s.subnets c.subnets d.subnets,
        append_assoc s.mgmt c.mgmt d.mgmt,
        append_assoc s.uplinks c.uplinks d.uplinks,
        append_assoc s.subnets6 c.subnets6 d.subnets6,
      )
      refl

abbrev pub bridge_claim : Text → Seen
bridge_claim b = record nothing_seen { bridges = b ∷ [] }

-- of the text of a subnet
abbrev pub subnet_claim : Option Prefix → Seen
subnet_claim none = nothing_seen
subnet_claim (some p) = record nothing_seen { subnets = p ∷ [] }

abbrev pub subnet6_claim : Option Prefix → Seen
subnet6_claim none = nothing_seen
subnet6_claim (some p) = record nothing_seen { subnets6 = p ∷ [] }

-- of the text of a management address
abbrev pub mgmt_claim : Option Prefix → Seen
mgmt_claim none = nothing_seen
mgmt_claim (some p) = record nothing_seen { mgmt = p.addr ∷ [] }

abbrev pub uplink_claim : Text → Seen
uplink_claim u = if u == [] then nothing_seen else record nothing_seen { uplinks = u ∷ [] }

module _ (netip : Parsers) where
  -- an IPv6 segment is read where the configuration has a ULA prefix
  abbrev pub segment6_claim : Option Prefix → Text → Seen
  segment6_claim none text = nothing_seen
  segment6_claim (some ula) text =
      if text == [] then nothing_seen else subnet6_claim (netip.parse_prefix text)

  abbrev pub partner_claims : Option Peer → Seen
  partner_claims none = nothing_seen
  partner_claims (some p) = mgmt_claim (netip.parse_prefix p.mgmt_address)

  abbrev pub source_claims : Source → Seen
  source_claims src =
      add (mgmt_claim (netip.parse_prefix src.mgmt_address)) (partner_claims src.partner)

  abbrev pub optional_source_claims : Option Source → Seen
  optional_source_claims none = nothing_seen
  optional_source_claims (some src) = source_claims src

  abbrev pub relay_claims : Relay → Seen
  relay_claims r = add (bridge_claim r.server_segment.bridge) (
      add (subnet_claim (netip.parse_prefix r.server_segment.subnet))
        (mgmt_claim (netip.parse_prefix r.mgmt_address)))

  abbrev pub optional_relay_claims : Option Relay → Seen
  optional_relay_claims none = nothing_seen
  optional_relay_claims (some r) = relay_claims r

  -- what follows the segment's subnet
  abbrev pub host_claims : Option Prefix → Cell → Seen
  host_claims ula cell = add (uplink_claim cell.segment.uplink) (
      add (segment6_claim ula cell.segment.subnet6) (
        add (mgmt_claim (netip.parse_prefix cell.docker_host.mgmt_address))
          (add (optional_relay_claims cell.relay) (optional_source_claims cell.source))))

  abbrev pub cell_claims : Option Prefix → Cell → Seen
  cell_claims ula cell =
      add (bridge_claim cell.segment.bridge)
        (add (subnet_claim (netip.parse_prefix cell.segment.subnet)) (host_claims ula cell))

  -- the claims of all cells, in their order
  abbrev pub cells_claims : Option Prefix → List Cell → Seen
  cells_claims ula [] = nothing_seen
  cells_claims ula (c ∷ cs) = add (cell_claims ula c) (cells_claims ula cs)
