-- ===== src/Labyaml/Vlan/Laws.antt =====
-- The VLAN subnets of the cells stay apart from every segment and from one another.
use docker_net_dhcp_lab.Prelude.{
  Text, ℕ, ◌≡◌, some, ok, Option-cases, inl, false, ◌*◌, arith, ◌^◌, inr, ◌+◌, ◌/◌, ◌≤◌, ◌%◌, ap,
  subst, sym, ◌∙◌,
}
use docker_net_dhcp_lab.Labyaml.Vlan.{vlan_subnet, off_segment, as4}
use docker_net_dhcp_lab.Labyaml.Netip.{Parsers, overlaps, Prefix, holds, span, ip4}

-- what an accepted text was: an IPv4 10.200.N.0/24, and the subnet at the moved octet
pub record Segment24 (parse : Parsers) (seg : Text) (q : Prefix) : Type 0 where
  pub p : Prefix
  pub third : ℕ
  pub four : ℕ
  pub parsed : parse.parse_prefix seg ≡ some p
  pub number : as4 p.addr.family p.addr.value ≡ some four
  pub bits : p.bits ≡ 24
  pub segment : four ≡ 10 * 2 ^ 24 + 200 * 2 ^ 16 + third * 2 ^ 8
  pub room : third + 150 ≤ 254
  pub result : q ≡ record {
    addr = record { family = ip4; value = 10 * 2 ^ 24 + 200 * 2 ^ 16 + (third + 150) * 2 ^ 8 };
    bits = 24;
  }

abbrev segment_at : ℕ → Prefix
segment_at n = record {
  addr = record { family = ip4; value = 10 * 2 ^ 24 + 200 * 2 ^ 16 + n * 2 ^ 8 };
  bits = 24;
}

far : (n m : ℕ) → n + 150 ≤ 254 → overlaps (segment_at n) (segment_at (m + 150)) ≡ false
unfolding overlaps holds span
far n m small = ground (arith, small)

segment_at_inj : (n m : ℕ) → segment_at (n + 150) ≡ segment_at (m + 150) → n ≡ m
segment_at_inj n m h = let v = ap (λ p. p.addr.value) h in omega (arith, v)

module _ (parse : Parsers) where
  vlan_subnet-Segment24 :
      (seg : Text) (q : Prefix) → vlan_subnet parse seg ≡ ok q → Segment24 parse seg q
  unfolding vlan_subnet off_segment
  vlan_subnet-Segment24 seg q h = elim (Option-cases (parse.parse_prefix seg)) [
    | inl unread ↦ absurd (ground (arith, h, unread))
    | inr (p, read) ↦ elim (Option-cases (as4 p.addr.family p.addr.value)) [
      | inl panics ↦ absurd (ground (arith, h, read, panics))
      | inr (n, four) ↦ record {
        p = p;
        third = n / 2 ^ 8 % 2 ^ 8;
        four = n;
        parsed = read;
        number = four;
        bits = ground (arith, h, read, four);
        segment = ground (arith, h, read, four);
        room = ground (arith, h, read, four);
        result = ground (arith, h, read, four);
      }
    ]
  ]

  v4_segment :
      (seg : Text) (p q : Prefix)
      → parse.parse_prefix seg ≡ some p
      → p.addr.family ≡ ip4
      → vlan_subnet parse seg ≡ ok q
      → (n : ℕ) × (n + 150 ≤ 254) × (p ≡ segment_at n) × (q ≡ segment_at (n + 150))
  v4_segment seg p q read v4 h =
      let s = vlan_subnet-Segment24 seg q h in
      let same : s.p ≡ p = ground (arith, read, s.parsed) in
      let bits : p.bits ≡ 24 = ground (arith, same, s.bits) in
      let number : as4 p.addr.family p.addr.value ≡ some s.four =
        subst (λ x. as4 x.addr.family x.addr.value ≡ some s.four) same s.number in
      let value : p.addr.value ≡ 10 * 2 ^ 24 + 200 * 2 ^ 16 + s.third * 2 ^ 8 =
        ground (arith, number, v4, s.segment) in
      (s.third, s.room, ground (arith, bits, v4, value), s.result)

  -- Of two segments that `VLANSubnet` accepts, the subnet of the one shares no address with the
  -- other, where both are IPv4 prefixes, and two of these with the same subnet are the same.
  pub vlan_subnet-Apart :
      (seg other : Text) (p o q r : Prefix)
      → parse.parse_prefix seg ≡ some p
      → parse.parse_prefix other ≡ some o
      → p.addr.family ≡ ip4
      → o.addr.family ≡ ip4
      → vlan_subnet parse seg ≡ ok q
      → vlan_subnet parse other ≡ ok r
      → (overlaps p r ≡ false) × (q ≡ r → p ≡ o)
  vlan_subnet-Apart seg other p o q r read also v4 w4 h k =
      let (n, small, is_p, is_q) = v4_segment seg p q read v4 h in
      let (m, below, is_o, is_r) = v4_segment other o r also w4 k in
      (
        rw (is_p, is_r) (far n m small),
        (λ e.
            let same : n ≡ m = segment_at_inj n m (sym is_q ∙ e ∙ is_r) in
            is_p ∙ ap segment_at same ∙ sym is_o),
      )
