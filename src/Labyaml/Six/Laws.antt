-- ===== src/Labyaml/Six/Laws.antt =====
-- internal/labyaml/schema.go: what the accepted IPv6 texts of a source satisfy.
use docker_net_dhcp_lab.Labyaml.Netip.{
  Addr, Prefix, Parsers, holds, addr_le, addr_lt, last_addr, masked, eq_addr, eq_prefix,
  prefix_beq_iff, ip6, Family-cases,
}
use docker_net_dhcp_lab.Labyaml.Netip.Ranges.{holds_iff_between, holds-above}
use docker_net_dhcp_lab.Labyaml.Config.{Source}
use docker_net_dhcp_lab.Labyaml.Hosts.{in_pool_range}
use docker_net_dhcp_lab.Labyaml.Six.{
  source_serves_v6, fields6, check_fields6, check_temp6, check_source6, validate_source6, ok,
}
use docker_net_dhcp_lab.Prelude.{
  ◌<◌, ◌≡◌, sym, subst, inl, inr, true, false, ◌||◌, some, arith, Bool-cases, Option-cases,
  Result-cases,
}

-- A temporary pool: a network prefix longer than the segment's and inside it, off the source's own
-- address and off every address of the pool.
pub record GoodTemp (temp seg6 : Prefix) (own start end : Addr) : Type 0 where
  pub is_network : temp ≡ masked temp
  pub longer : seg6.bits < temp.bits
  pub inside : holds seg6 temp.addr ≡ true
  pub off_own : holds temp own ≡ false
  pub off_pool : (a : Addr) → in_pool_range start end a ≡ true → holds temp a ≡ false

-- an address above the end of a range or below its start is not in it
above_end :
    (start end t a : Addr)
    → addr_lt end t ≡ true
    → addr_le t a ≡ true
    → in_pool_range start end a ≡ false
unfolding addr_lt addr_le in_pool_range
above_end start end t a h k = ground arith

below_start :
    (start end t a : Addr)
    → addr_lt t start ≡ true
    → addr_le a t ≡ true
    → in_pool_range start end a ≡ false
unfolding addr_lt addr_le in_pool_range
below_start start end t a h k = ground arith

-- `lastAddr` is below no IPv4 address, so a pool above it is of IPv6, and so is a prefix that meets it
six_of_range :
    (temp : Prefix) (start end a : Addr)
    → addr_lt (last_addr temp) start ≡ true
    → in_pool_range start end a ≡ true
    → holds temp a ≡ true
    → temp.addr.family ≡ ip6
unfolding last_addr addr_lt in_pool_range addr_le holds
six_of_range temp start end a below inside h = elim (Family-cases temp.addr.family) [
  | inr six ↦ six
  | inl four ↦ absurd (ground (arith, below, inside, h, four, Family-cases start.family))
]

off_range :
    (temp : Prefix) (start end a : Addr)
    → temp ≡ masked temp
    → (addr_lt end temp.addr || addr_lt (last_addr temp) start) ≡ true
    → in_pool_range start end a ≡ true
    → holds temp a ≡ false
off_range temp start end a net h inside = elim (Bool-cases (holds temp a)) [
  | inr e ↦ e
  | inl e ↦
      let from : addr_le temp.addr a ≡ true =
        subst (λ (p : Prefix). addr_le p.addr a ≡ true) (sym net) (holds-above temp a e) in
      elim (Bool-cases (addr_lt end temp.addr)) [
        | inl k ↦ absurd (ground (arith, above_end start end temp.addr a k from))
        | inr k ↦
            let below : addr_lt (last_addr temp) start ≡ true = ground (arith, h, k) in
            let six = six_of_range temp start end a below inside e in
            let (low, high) = (holds_iff_between temp a six).0 e in
            absurd (ground (arith, below_start start end (last_addr temp) a below high))
      ]
]

check_temp6_inv :
    (temp seg6 : Prefix) (own start end : Addr)
    → check_temp6 temp seg6 own start end ≡ ok tt
    → GoodTemp temp seg6 own start end
unfolding check_temp6
check_temp6_inv temp seg6 own start end h =
    let net : temp ≡ masked temp = (prefix_beq_iff temp (masked temp)).0 (ground arith) in
    record {
      is_network = net;
      longer = ground arith;
      inside = ground arith;
      off_own = ground arith;
      off_pool = λ a p. off_range temp start end a net (ground arith) p;
    }

module _ (netip : Parsers) where
  -- A source's IPv6 texts: an address and a pool of the segment, the pool in order and off the
  -- address, and a good temporary pool.
  pub record GoodSource6 (s : Source) (seg6 : Prefix) : Type 0 where
    pub seg : Prefix
    pub start : Addr
    pub end : Addr
    pub temp : Prefix
    pub serves : source_serves_v6 s.type ≡ true
    pub seg_parsed : netip.parse_prefix s.seg_address6 ≡ some seg
    pub start_parsed : netip.parse_addr s.pool6_start ≡ some start
    pub end_parsed : netip.parse_addr s.pool6_end ≡ some end
    pub temp_parsed : netip.parse_prefix s.temp6_pool ≡ some temp
    pub same_length : seg.bits ≡ seg6.bits
    pub seg_inside : holds seg6 seg.addr ≡ true
    pub start_inside : holds seg6 start ≡ true
    pub end_inside : holds seg6 end ≡ true
    pub ordered : addr_le end start ≡ false
    pub off_seg : in_pool_range start end seg.addr ≡ false
    pub good_temp : GoodTemp temp seg6 seg.addr start end

  check_source6_inv :
      (s : Source) (seg6 : Prefix)
      → source_serves_v6 s.type ≡ true
      → check_source6 netip s seg6 ≡ ok tt
      → GoodSource6 s seg6
  unfolding check_source6
  check_source6_inv s seg6 serves h = elim (Option-cases (netip.parse_prefix s.seg_address6)) [
    | inl e ↦ absurd (ground arith)
    | inr (seg, e) ↦ elim (Option-cases (netip.parse_addr s.pool6_start)) [
      | inl f ↦ absurd (ground arith)
      | inr (start, f) ↦ elim (Option-cases (netip.parse_addr s.pool6_end)) [
        | inl g ↦ absurd (ground arith)
        | inr (end, g) ↦ elim (Option-cases (netip.parse_prefix s.temp6_pool)) [
          | inl k ↦ absurd (ground arith)
          | inr (temp, k) ↦ record {
            seg = seg;
            start = start;
            end = end;
            temp = temp;
            serves = serves;
            seg_parsed = e;
            start_parsed = f;
            end_parsed = g;
            temp_parsed = k;
            same_length = ground arith;
            seg_inside = ground arith;
            start_inside = ground arith;
            end_inside = ground arith;
            ordered = ground arith;
            off_seg = ground arith;
            good_temp = check_temp6_inv temp seg6 seg.addr start end (ground arith);
          }
        ]
      ]
    ]
  ]

  -- A source that `validateSource6` accepts on a cell with an IPv6 segment serves IPv6 and has its
  -- address and its pool inside the segment, the pool in order and off the address, and a temporary
  -- pool that is a smaller network of the segment and shares no address with the pool or with the
  -- source's own address.
  pub validate_source6-GoodSource6 :
      (s : Source) (seg6 : Prefix)
      → validate_source6 netip s (some seg6) ≡ ok tt
      → GoodSource6 s seg6
  unfolding validate_source6
  validate_source6-GoodSource6 s seg6 h = elim (Bool-cases (source_serves_v6 s.type)) [
    | inr e ↦ absurd (ground arith)
    | inl e ↦ elim (Result-cases (check_fields6 true (fields6 s))) [
      | inl f ↦ absurd (ground arith)
      | inr (_, f) ↦ check_source6_inv s seg6 e (ground arith)
    ]
  ]
