-- ===== src/Scenario/Addresses/Laws.antt =====
-- What `groupBAddr` grants: a host of the cell's segment that the source cannot hand out.
use docker_net_dhcp_lab.Prelude.{
  Text, ℕ, ◌%◌, ◌^◌, ◌≡◌, ok, some, true, ◌↔◌, ◌≤◌, arith, Option-cases, inl, ◌&&◌, inr, false,
  ◌==◌, eq_text,
}
use docker_net_dhcp_lab.Scenario.Addresses.{at_octet, Env, group_b_addr, is_24}
use docker_net_dhcp_lab.Labyaml.Netip.{Addr, Parsers, holds, masked, span, Prefix, ip4, addr_le}

-- the last byte
abbrev pub octet : Addr → ℕ
octet a = a.value % 2 ^ 8

-- the parsed /24, and a host octet outside the main pool that is not the gateway's
pub record Reserved (parse : Parsers) (show : Addr → Text) (e : Env) (host : ℕ) (a : Addr)
    : Type 0 where
  pub subnet : Prefix
  pub start : Addr
  pub end : Addr
  pub parsed : parse.parse_prefix e.seg_subnet ≡ some subnet
  pub narrow : is_24 subnet ≡ true
  pub low : 1 ≤ host
  pub high : host ≤ 254
  pub starts : parse.parse_addr e.pool_start ≡ some start
  pub ends : parse.parse_addr e.pool_end ≡ some end
  pub place : a ≡ at_octet subnet host
  pub unpooled : (addr_le start a && addr_le a end) ≡ false
  pub ungated : (show a == e.seg_gateway) ≡ false

module _ (parse : Parsers) (show : Addr → Text) (e : Env) (host : ℕ) (a : Addr) where
  pub group_b_addr-Reserved : group_b_addr parse show e host ≡ ok a → Reserved parse show e host a
  unfolding group_b_addr
  group_b_addr-Reserved h = elim (Option-cases (parse.parse_prefix e.seg_subnet)) [
    | inl unread ↦ absurd (ground (arith, h, unread))
    | inr (p, subnet) ↦ elim (Option-cases (parse.parse_addr e.pool_start)) [
      | inl no_start ↦ absurd (ground (arith, h, subnet, no_start))
      | inr (s, start) ↦ elim (Option-cases (parse.parse_addr e.pool_end)) [
        | inl no_end ↦ absurd (ground (arith, h, subnet, start, no_end))
        | inr (l, end) ↦ record {
          subnet = p;
          start = s;
          end = l;
          parsed = subnet;
          narrow = ground (arith, h, subnet);
          low = ground (arith, h, subnet);
          high = ground (arith, h, subnet);
          starts = start;
          ends = end;
          place = ground (arith, h, subnet, start, end);
          unpooled = ground (arith, h, subnet, start, end);
          ungated = ground (arith, h, subnet, start, end);
        }
      ]
    ]
  ]

  pub Reserved-group_b_addr : Reserved parse show e host a → group_b_addr parse show e host ≡ ok a
  unfolding group_b_addr
  Reserved-group_b_addr g =
      ground
        (arith, g.parsed, g.narrow, g.low, g.high, g.starts, g.ends, g.place, g.unpooled, g.ungated)

  -- `groupBAddr` grants exactly the hosts of a /24 segment with an octet from 1 to 254 that are
  -- outside the main pool and not the gateway.
  pub group_b_addr-ok_iff : (group_b_addr parse show e host ≡ ok a) ↔ Reserved parse show e host a
  group_b_addr-ok_iff = (group_b_addr-Reserved, Reserved-group_b_addr)

-- the address lies in the segment, at its octet
pub at_octet-holds :
    (p : Prefix) (host : ℕ)
    → is_24 p ≡ true
    → host ≤ 254
    → (holds p (at_octet p host) ≡ true) × (octet (at_octet p host) ≡ host)
unfolding at_octet holds masked span
at_octet-holds p host h le =
    let bits : p.bits ≡ 24 = ground (arith, h) in
    let fam : p.addr.family ≡ ip4 = ground (arith, h) in
    (rw (bits, fam) (ground arith), rw (bits, fam) (omega arith))
