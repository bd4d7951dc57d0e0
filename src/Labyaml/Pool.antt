-- ===== src/Labyaml/Pool.antt =====
-- internal/labyaml/schema.go: `validateSource`.
pub mod Laws
use docker_net_dhcp_lab.Labyaml.Netip.{Addr, Prefix, Parsers, holds, addr_le}
use docker_net_dhcp_lab.Labyaml.Config.{
  Peer, Source, lookup_base_image, source_type, source_image, source_mgmt, source_seg, source_start,
  source_end, source_pool, required, unparsed, outside_segment, unknown_image, unknown_type,
  bad_order, covers_self, Fault,
}
use docker_net_dhcp_lab.Labyaml.Claims.{Seen, claim_mgmt}
use docker_net_dhcp_lab.Labyaml.Hosts.{in_pool_range, validate_device, validate_partner}
use docker_net_dhcp_lab.Prelude.{
  Result, need, ok, refuse_if, ◌>>=◌, ◌>>◌, Bool, not, ◌||◌, Option, none, some, [], ◌∷◌, any, ◌==◌,
  Text, codes, eq_text,
}

-- `sourceTypes`
unfoldable pub is_source_type : Text → Bool
is_source_type t =
    any (λ u. t == u)
      (codes "kea"
        ∷ codes "isc-dhcp"
        ∷ codes "dnsmasq"
        ∷ codes "udhcpd"
        ∷ codes "pihole"
        ∷ codes "routeros"
        ∷ codes "openwrt"
        ∷ codes "fritzbox"
        ∷ codes "windows"
        ∷ [])

-- the tests on the parsed pool
unfoldable pub check_pool : Prefix → Addr → Addr → Addr → Result Fault (Unit {0})
check_pool seg_prefix seg start end = do
  refuse_if (not (holds seg_prefix start) || not (holds seg_prefix end))
      (outside_segment source_pool)
  refuse_if (addr_le end start) (bad_order source_pool)
  refuse_if (in_pool_range start end seg) (covers_self source_pool)
  ok tt

module _ (netip : Parsers) (mgmt : Prefix) where
  -- the partner's tests, when there is one
  unfoldable pub optional_partner :
      Option Peer → Text → Addr → Addr → Addr → Prefix → Seen → Result Fault Seen
  optional_partner none type primary_seg start end seg_prefix s = ok s
  optional_partner (some p) type primary_seg start end seg_prefix s =
      validate_partner netip p type primary_seg start end mgmt seg_prefix s

  -- what follows the management address: the segment address, the pool, the device, the partner
  unfoldable pub check_source : Source → Prefix → Prefix → Seen → Result Fault Seen
  check_source src seg_prefix addr_prefix s = do
    seg ← need (netip.parse_prefix src.seg_address) (unparsed source_seg)
    refuse_if (not (holds addr_prefix seg.addr)) (outside_segment source_seg)
    start ← need (netip.parse_addr src.pool_start) (unparsed source_start)
    end ← need (netip.parse_addr src.pool_end) (unparsed source_end)
    check_pool seg_prefix seg.addr start end
    validate_device netip src seg_prefix seg start end
    optional_partner src.partner src.type seg.addr start end seg_prefix s

  -- `validateSource`
  unfoldable pub validate_source : Source → Prefix → Prefix → Seen → Result Fault Seen
  validate_source src seg_prefix addr_prefix s = do
    refuse_if (not (is_source_type src.type)) (unknown_type source_type)
    refuse_if (src.base_image == []) (required source_image)
    image ← need (lookup_base_image src.base_image) (unknown_image source_image)
    t ← claim_mgmt netip mgmt source_mgmt src.mgmt_address s
    check_source src seg_prefix addr_prefix t
