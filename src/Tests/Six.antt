-- ===== src/Tests/Six.antt =====
-- internal/labyaml/schema.go: a source with an IPv6 pool and a temporary pool above it.
use docker_net_dhcp_lab.Labyaml.Netip.{
  ip6, Addr, Prefix, Parsers, holds, masked, last_addr, addr_le, addr_lt, addr_beq, prefix_beq,
  span,
}
use docker_net_dhcp_lab.Labyaml.Netip.Ranges.{holds_iff_between}
use docker_net_dhcp_lab.Labyaml.Config.{Source}
use docker_net_dhcp_lab.Labyaml.Hosts.{in_pool_range}
use docker_net_dhcp_lab.Labyaml.Six.{
  source_serves_v6, check_fields6, check_source6, check_temp6, validate_source6,
}
use docker_net_dhcp_lab.Labyaml.Six.Laws.{GoodSource6, validate_source6-GoodSource6}
use docker_net_dhcp_lab.Prelude.{
  ℕ, ◌+◌, ◌*◌, ◌^◌, ◌≡◌, refl, ◌↔◌, true, none, some, [], ◌∷◌, lookup, codes, text_eq, eq_text, ok,
}

-- fd00::n
abbrev ula_addr : ℕ → Addr
ula_addr n = record { family = ip6; value = 253 * 2 ^ 120 + n }

abbrev seg6 : Prefix
seg6 = record { addr = ula_addr 0; bits = 64 }

abbrev temp_pool : Prefix
temp_pool = record { addr = ula_addr 4096; bits = 116 }

abbrev parsers : Parsers
parsers = record {
  parse_prefix = λ t. lookup t (
      (codes "fd00::2/64", record { addr = ula_addr 2; bits = 64 })
      ∷ (codes "fd00::1000/116", temp_pool)
      ∷ []);
  parse_addr =
      λ t. lookup t ((codes "fd00::100", ula_addr 256) ∷ (codes "fd00::1ff", ula_addr 511) ∷ []);
}

abbrev kea6 : Source
kea6 = record {
  type = codes "kea";
  base_image = [];
  mgmt_address = [];
  seg_address = [];
  pool_start = [];
  pool_end = [];
  seg_address6 = codes "fd00::2/64";
  pool6_start = codes "fd00::100";
  pool6_end = codes "fd00::1ff";
  temp6_pool = codes "fd00::1000/116";
  partner = none;
  device = none;
}

kea6_accepted : validate_source6 parsers kea6 (some seg6) ≡ ok tt
unfolding validate_source6 text_eq lookup source_serves_v6 check_fields6 check_source6 check_temp6
    in_pool_range holds masked last_addr addr_le addr_lt addr_beq prefix_beq span
kea6_accepted = refl

validate_source6-GoodSource6_example : GoodSource6 parsers kea6 seg6
validate_source6-GoodSource6_example = validate_source6-GoodSource6 parsers kea6 seg6 kea6_accepted

holds_iff_between_example : (holds temp_pool (ula_addr 5000) ≡ true) ↔ (
    (addr_le (masked temp_pool).addr (ula_addr 5000) ≡ true)
    × (addr_le (ula_addr 5000) (last_addr temp_pool) ≡ true))
holds_iff_between_example = holds_iff_between temp_pool (ula_addr 5000) refl
