-- ===== src/Labyaml/Vlan.antt =====
-- internal/labyaml/vlan.go: `VLANSubnet`, the subnet of a cell's VLAN 100.
pub mod Laws
use docker_net_dhcp_lab.Prelude.{
  Text, ℕ, Option, Result, Bool, need, not, some, nat_eq, ◌>>=◌, ◌/◌, refuse_if, ◌||◌, ◌^◌, ◌>>◌,
  ◌%◌, ◌+◌, ltb, ok, ◌*◌, none, if◌then◌else◌,
}
use docker_net_dhcp_lab.Labyaml.Netip.{Addr, Prefix, Family, ip4, ip6, Parsers}

-- the ways to fail; `As4` panics on an address that is not IPv4, which the code meets before its test
pub data VlanFault : Type 0 where
  unparsed : Text → VlanFault
  as4_panics : Addr → VlanFault
  not_a_segment : Text → VlanFault
  past_254 : ℕ → VlanFault

-- `VLANThirdOctetOffset`
abbrev pub vlan_third_octet_offset : ℕ
vlan_third_octet_offset = 150

-- `As4`, as a number: an IPv4 address, or the last four bytes of one mapped into IPv6
abbrev pub as4 : Family → ℕ → Option ℕ
as4 ip4 n = some n
as4 ip6 n = if nat_eq (n / 2 ^ 32) 65535 then some (n % 2 ^ 32) else none

-- `a[0] != 10 || a[1] != 200 || a[3] != 0`
unfoldable pub off_segment : ℕ → Bool
off_segment n =
    not (nat_eq (n / 2 ^ 24) 10)
    || not (nat_eq (n / 2 ^ 16 % 2 ^ 8) 200)
    || not (nat_eq (n % 2 ^ 8) 0)

-- `VLANSubnet`, whose text is that of the prefix
unfoldable pub vlan_subnet : Parsers → Text → Result VlanFault Prefix
unfolding off_segment
vlan_subnet parse seg = need (parse.parse_prefix seg) (unparsed seg) >>= λ p.
    need (as4 p.addr.family p.addr.value) (as4_panics p.addr) >>= λ a.
    refuse_if (not (nat_eq p.bits 24) || off_segment a) (not_a_segment seg)
    >> (let n = a / 2 ^ 8 % 2 ^ 8 + vlan_third_octet_offset in
        refuse_if (ltb 254 n) (past_254 n)
        >> ok (record {
          addr = record { family = ip4; value = 10 * 2 ^ 24 + 200 * 2 ^ 16 + n * 2 ^ 8 };
          bits = 24;
        }))
