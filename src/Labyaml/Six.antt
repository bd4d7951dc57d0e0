-- ===== src/Labyaml/Six.antt =====
-- internal/labyaml/schema.go: the IPv6 half: `parseULA`, `mustBeLabRange6`, `SourceServesV6`,
-- `validateSource6` and `validatePartner6`. The segment of a cell without IPv6 is `none`.
pub mod Laws
use docker_net_dhcp_lab.Labyaml.Netip.{
  Addr, Prefix, Parsers, holds, addr_le, addr_lt, last_addr, masked, eq_addr, eq_prefix, ip6,
  family_eq, overlaps,
}
use docker_net_dhcp_lab.Labyaml.Config.{
  Peer, Source, Field, ula_field, seg_subnet6, source_seg6, source_start6, source_end6,
  source_temp6, source_pool6, partner_seg6, required, unparsed, outside_segment, overlaps_segment,
  needs_empty, bad_order, covers_self, equals_primary, not_below, not_ipv6, host_bits, outside_ula,
  needs_ula, v4_only, bad_temp6, Fault,
}
use docker_net_dhcp_lab.Labyaml.Claims.{Seen}
use docker_net_dhcp_lab.Labyaml.Hosts.{in_pool_range}
use docker_net_dhcp_lab.Prelude.{
  Result, err, need, ok, refuse_if, ◌>>=◌, ◌>>◌, ◌*◌, ◌/◌, ◌^◌, Bool, true, false, not, ◌&&◌, ◌||◌,
  Option, none, some, List, [], ◌∷◌, ◌++◌, ltb, leb, nat_eq, if◌then◌else◌, any, ◌==◌, Text, codes,
  eq_text,
}

-- `Is6() && !Is4In6()`: not in ::ffff:0:0/96
abbrev pub is_plain6 : Addr → Bool
is_plain6 a = family_eq a.family ip6 && not (nat_eq (a.value / 2 ^ 32) 65535)

-- fd00::/8
abbrev pub local_range : Prefix
local_range = record { addr = record { family = ip6; value = 253 * 2 ^ 120 }; bits = 8 }

-- `SourceServesV6`
unfoldable pub source_serves_v6 : Text → Bool
source_serves_v6 t = not (
    t == codes "udhcpd"
    || t == codes "pihole"
    || t == codes "routeros"
    || t == codes "openwrt"
    || t == codes "windows")

-- `mustBeLabRange6`
unfoldable pub must_be_lab_range6 : Field → Prefix → Prefix → Result Fault (Unit {0})
must_be_lab_range6 f p ula = do
  refuse_if (not (is_plain6 p.addr)) (not_ipv6 f)
  refuse_if (not (p == masked p)) (host_bits f)
  refuse_if (ltb p.bits ula.bits || not (holds ula p.addr)) (outside_ula f)
  ok tt

-- the loop over the four fields, for a cell with and without an IPv6 segment
unfoldable pub check_fields6 : Bool → List (Field × Text) → Result Fault (Unit {0})
check_fields6 has6 [] = ok tt
check_fields6 has6 ((f, v) ∷ rest) = do
  refuse_if (not has6 && not (v == [])) (needs_empty f)
  refuse_if (has6 && v == []) (required f)
  check_fields6 has6 rest

abbrev pub fields6 : Source → List (Field × Text)
fields6 s =
    (source_seg6, s.seg_address6)
    ∷ (source_start6, s.pool6_start)
    ∷ (source_end6, s.pool6_end)
    ∷ (source_temp6, s.temp6_pool)
    ∷ []

-- the tests on the temporary pool
unfoldable pub check_temp6 : Prefix → Prefix → Addr → Addr → Addr → Result Fault (Unit {0})
check_temp6 temp seg6 own start end = do
  refuse_if (not (temp == masked temp) || leb temp.bits seg6.bits || not (holds seg6 temp.addr))
      (bad_temp6 source_temp6)
  refuse_if (holds temp own || not (addr_lt end temp.addr || addr_lt (last_addr temp) start))
      (covers_self source_temp6)
  ok tt

module _ (netip : Parsers) where
  -- `parseULA`
  unfoldable pub parse_ula : Text → Result Fault Prefix
  parse_ula v = do
    p ← need (netip.parse_prefix v) (unparsed ula_field)
    refuse_if
        (not (is_plain6 p.addr)
          || not (p == masked p)
          || ltb p.bits local_range.bits
          || not (holds local_range p.addr))
        (outside_ula ula_field)
    ok p

  -- `ula_prefix` when it is given
  unfoldable pub optional_ula : Text → Result Fault (Option Prefix)
  optional_ula v = if v == [] then ok none else parse_ula v >>= λ p. ok (some p)

  -- a cell's `subnet6` against `ula_prefix` and the ones of the cells before
  unfoldable pub claim_subnet6 : Text → Prefix → Seen → Result Fault (Prefix × Seen)
  claim_subnet6 t ula s = do
    p ← need (netip.parse_prefix t) (unparsed seg_subnet6)
    must_be_lab_range6 seg_subnet6 p ula
    refuse_if (any (λ q. overlaps p q) s.subnets6) (overlaps_segment seg_subnet6)
    ok (p, record s { subnets6 = s.subnets6 ++ p ∷ [] })

  unfoldable pub optional_subnet6 :
      Text → Option Prefix → Seen → Result Fault (Option Prefix × Seen)
  optional_subnet6 t none s = if t == [] then ok (none, s) else err (needs_ula seg_subnet6)
  optional_subnet6 t (some ula) s =
      if t == [] then ok (none, s) else claim_subnet6 t ula s >>= λ (p, u). ok (some p, u)

  -- `validateSource6` behind its loop over the fields, with an IPv6 segment
  unfoldable pub check_source6 : Source → Prefix → Result Fault (Unit {0})
  check_source6 s seg6 = do
    seg ← need (netip.parse_prefix s.seg_address6) (unparsed source_seg6)
    refuse_if (not (nat_eq seg.bits seg6.bits) || not (holds seg6 seg.addr))
        (outside_segment source_seg6)
    start ← need (netip.parse_addr s.pool6_start) (unparsed source_start6)
    end ← need (netip.parse_addr s.pool6_end) (unparsed source_end6)
    refuse_if (not (holds seg6 start) || not (holds seg6 end)) (outside_segment source_pool6)
    refuse_if (addr_le end start) (bad_order source_pool6)
    refuse_if (in_pool_range start end seg.addr) (covers_self source_pool6)
    temp ← need (netip.parse_prefix s.temp6_pool) (unparsed source_temp6)
    check_temp6 temp seg6 seg.addr start end

  -- `validateSource6`
  unfoldable pub validate_source6 : Source → Option Prefix → Result Fault (Unit {0})
  validate_source6 s none = check_fields6 false (fields6 s)
  validate_source6 s (some seg6) = do
    refuse_if (not (source_serves_v6 s.type)) (v4_only seg_subnet6)
    check_fields6 true (fields6 s)
    check_source6 s seg6

  -- `validatePartner6`: `validateSource6` has parsed the source's own texts before
  unfoldable pub validate_partner6 : Peer → Source → Option Prefix → Result Fault (Unit {0})
  validate_partner6 p s none = refuse_if (not (p.seg_address6 == [])) (needs_empty partner_seg6)
  validate_partner6 p s (some seg6) = do
    refuse_if (p.seg_address6 == []) (required partner_seg6)
    a ← need (netip.parse_prefix p.seg_address6) (unparsed partner_seg6)
    refuse_if (not (nat_eq a.bits seg6.bits) || not (holds seg6 a.addr))
        (outside_segment partner_seg6)
    own ← need (netip.parse_prefix s.seg_address6) (unparsed source_seg6)
    refuse_if (a.addr == own.addr) (equals_primary partner_seg6)
    start ← need (netip.parse_addr s.pool6_start) (unparsed source_start6)
    temp ← need (netip.parse_prefix s.temp6_pool) (unparsed source_temp6)
    refuse_if (addr_le start a.addr || holds temp a.addr) (not_below partner_seg6)
    ok tt
