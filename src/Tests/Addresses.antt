-- ===== src/Tests/Addresses.antt =====
-- internal/scenario/groupb_addrs.go, groupc_addrs.go and internal/labyaml/vlan.go: a cell on
-- 10.200.1.0/24 with the main pool .100 to .200. The parser knows the texts of this cell.
use docker_net_dhcp_lab.Scenario.Judging.{check_each}
use docker_net_dhcp_lab.Scenario.Addresses.Bands.{
  Between, reservation_addr-Apart, in_class_pool-Between,
}
use docker_net_dhcp_lab.Scenario.Addresses.Laws.{octet}
use docker_net_dhcp_lab.Labyaml.Vlan.Laws.{vlan_subnet-Apart}
use docker_net_dhcp_lab.Labyaml.Vlan.{vlan_subnet, as4_panics}
use docker_net_dhcp_lab.Scenario.Addresses.Renumber.{Renumbered, c9_target-Renumbered}
use docker_net_dhcp_lab.Labyaml.Netip.{
  Addr, overlaps, Parsers, ip4, Prefix, ip6, addr_le, masked, holds,
}
use docker_net_dhcp_lab.Scenario.Addresses.{
  Env, reservation_addr, in_class_pool, c9_target, Target, group_b_addr, group_c_addr, name_b1,
  name_b2, user_class_last_host, in_main_pool, in_band, class_pool_first_host, class_pool_last_host,
  shape_index, class_pool,
}
use docker_net_dhcp_lab.Prelude.{
  ◌≡◌, ℕ, Text, codes, ok, some, false, Bool, err, Option, ◌∷◌, [], refl, ◌*◌, true, ◌<◌, ◌↔◌, ◌^◌,
  ◌+◌, none, if◌then◌else◌, ◌==◌, eq_text, text_eq,
}

abbrev host_of : ℕ → ℕ → Addr
host_of third last = record {
  family = ip4;
  value = 10 * 2 ^ 24 + 200 * 2 ^ 16 + third * 2 ^ 8 + last;
}

abbrev net_of : ℕ → Prefix
net_of third = record { addr = host_of third 0; bits = 24 }

abbrev known_addr : Text → Option Addr
known_addr t =
    if t == codes "start"
    then some (host_of 1 100)
    else if t == codes "end"
    then some (host_of 1 200)
    else if t == codes "source"
    then some (host_of 1 2)
    else if t == codes "leased"
    then some (host_of 1 225)
    else none

abbrev known_prefix : Text → Option Prefix
known_prefix t =
    if t == codes "one" then some (net_of 1) else if t == codes "two" then some (net_of 2) else none

abbrev parsers : Parsers
parsers = record { parse_prefix = known_prefix; parse_addr = known_addr }

abbrev printed : Addr → Text
printed a = a.value ∷ []

abbrev env : Env
env = record {
  seg_subnet = codes "one";
  seg_gateway = printed (host_of 1 2);
  source_addr = codes "source";
  pool_start = codes "start";
  pool_end = codes "end";
  shape = codes "ipvlan";
}

reserved_b1 : reservation_addr parsers printed env name_b1 ≡ ok (host_of 1 213)
unfolding reservation_addr shape_index text_eq group_b_addr addr_le masked
reserved_b1 = refl

reserved_b2 : reservation_addr parsers printed env name_b2 ≡ ok (host_of 1 218)
unfolding reservation_addr shape_index text_eq group_b_addr addr_le masked
reserved_b2 = refl

refused_pool : group_b_addr parsers printed env 150 ≡ err (in_main_pool (host_of 1 150))
unfolding group_b_addr text_eq addr_le masked
refused_pool = refl

refused_band : group_c_addr parsers printed env 205 ≡ err (in_band 205)
unfolding group_c_addr check_each
refused_band = refl

reservation_addr-Apart_example :
    ((reservation_addr parsers printed (record env { shape = codes "bridge" }) name_b2
        ≡ ok (host_of 1 213))
      → (codes "bridge" ≡ codes "ipvlan") × (name_b2 ≡ name_b1))
    × (user_class_last_host < octet (host_of 1 213))
    × (octet (host_of 1 213) < class_pool_first_host)
reservation_addr-Apart_example =
    reservation_addr-Apart parsers printed env (codes "bridge") name_b1 name_b2 (host_of 1 213)
      reserved_b1

in_the_class_pool : in_class_pool parsers printed env (codes "leased") ≡ ok true
unfolding in_class_pool class_pool group_b_addr text_eq addr_le masked
in_the_class_pool = refl

one_parses : known_prefix (codes "one") ≡ some (net_of 1)
unfolding text_eq
one_parses = refl

two_parses : known_prefix (codes "two") ≡ some (net_of 2)
unfolding text_eq
two_parses = refl

leased_parses : known_addr (codes "leased") ≡ some (host_of 1 225)
unfolding text_eq
leased_parses = refl

in_class_pool-Between_example :
    ◌≡◌ {A = Bool} true true
    ↔ Between (net_of 1) class_pool_first_host class_pool_last_host (host_of 1 225)
in_class_pool-Between_example =
    in_class_pool-Between parsers printed env (net_of 1) (codes "leased") (host_of 1 225) true
      one_parses leased_parses in_the_class_pool

abbrev moved_cell : Target
moved_cell = record {
  subnet = net_of 101;
  addr = host_of 101 2;
  first = host_of 101 100;
  last = host_of 101 200;
}

renumbers : c9_target parsers env ≡ ok moved_cell
unfolding c9_target text_eq masked holds
renumbers = refl

c9_target-Renumbered_example : Renumbered parsers env moved_cell
c9_target-Renumbered_example = c9_target-Renumbered parsers env moved_cell renumbers

vlan_one : vlan_subnet parsers (codes "one") ≡ ok (net_of 151)
unfolding vlan_subnet text_eq
vlan_one = refl

vlan_two : vlan_subnet parsers (codes "two") ≡ ok (net_of 152)
unfolding vlan_subnet text_eq
vlan_two = refl

-- an IPv6 segment reaches the panic of `As4`
vlan_panics :
    vlan_subnet
      (record {
        parse_prefix = λ t. some (record { addr = record { family = ip6; value = 7 }; bits = 64 });
        parse_addr = known_addr;
      })
      (codes "six")
    ≡ err (as4_panics (record { family = ip6; value = 7 }))
unfolding vlan_subnet
vlan_panics = refl

vlan_subnet-Apart_example :
    (overlaps (net_of 1) (net_of 152) ≡ false) × (net_of 151 ≡ net_of 152 → net_of 1 ≡ net_of 2)
vlan_subnet-Apart_example =
    vlan_subnet-Apart parsers (codes "one") (codes "two") (net_of 1) (net_of 2) (net_of 151)
      (net_of 152) one_parses two_parses refl refl vlan_one vlan_two
