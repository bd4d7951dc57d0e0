-- ===== src/Scenario/Addresses/Renumber.antt =====
-- `c9Target`: the new segment shares no address with the old one and keeps every last byte.
use docker_net_dhcp_lab.Scenario.Addresses.Laws.{octet}
use docker_net_dhcp_lab.Scenario.Addresses.{
  c9_target, moved, Env, Target, octet_shift, is_24, Fault,
}
use docker_net_dhcp_lab.Prelude.{
  ℕ, Text, ◌+◌, ◌≡◌, ◌*◌, ok, some, true, ◌^◌, Option-cases, ◌<◌, false, ◌%◌, arith, inl, inr,
  Result-cases, ok_inj, subst, refl,
}
use docker_net_dhcp_lab.Labyaml.Netip.{Prefix, overlaps, Parsers, holds, masked, ip4, Addr, span}

-- an address of the old segment, moved into the new one with its last byte
abbrev pub Moved : Parsers → Prefix → Prefix → Text → Addr → Type 0
Moved parse s t text a =
    (ip : Addr) × (parse.parse_addr text ≡ some ip)
    × (holds s ip ≡ true)
    × (holds t a ≡ true)
    × (octet a ≡ octet ip)

pub record Renumbered (parse : Parsers) (e : Env) (t : Target) : Type 0 where
  pub old : Prefix
  pub parsed : parse.parse_prefix e.seg_subnet ≡ some old
  pub narrow : is_24 t.subnet ≡ true
  pub apart : overlaps old t.subnet ≡ false
  pub source : Moved parse old t.subnet e.source_addr t.addr
  pub starts : Moved parse old t.subnet e.pool_start t.first
  pub ends : Moved parse old t.subnet e.pool_end t.last

-- the prefix of a base
abbrev prefix_at : ℕ → Prefix
prefix_at base = record { addr = record { family = ip4; value = base }; bits = 24 }

abbrev shifted : Prefix → ℕ
shifted s = (masked s).addr.value + octet_shift * 2 ^ 8

lands :
    (s : Prefix) (low : ℕ)
    → is_24 s ≡ true
    → low < 2 ^ 8
    → (holds (prefix_at (shifted s)) (record { family = ip4; value = shifted s + low }) ≡ true)
      × ((shifted s + low) % 2 ^ 8 ≡ low)
unfolding holds masked span
lands s low h lt =
    let bits : s.bits ≡ 24 = ground (arith, h) in
    let fam : s.addr.family ≡ ip4 = ground (arith, h) in
    (rw (bits, fam) (ground (arith, lt)), rw (bits, fam) (omega (arith, lt)))

stays_apart : (s : Prefix) → is_24 s ≡ true → overlaps s (prefix_at (shifted s)) ≡ false
unfolding overlaps holds masked span
stays_apart s h =
    let bits : s.bits ≡ 24 = ground (arith, h) in
    let fam : s.addr.family ≡ ip4 = ground (arith, h) in rw (bits, fam) (ground arith)

moved-Moved :
    (parse : Parsers) (s : Prefix) (text : Text) (a : Addr)
    → is_24 s ≡ true
    → moved parse s (shifted s) text ≡ ok a
    → Moved parse s (prefix_at (shifted s)) text a
unfolding moved
moved-Moved parse s text a narrow h = elim (Option-cases (parse.parse_addr text)) [
  | inl unread ↦ absurd (ground (arith, h, unread))
  | inr (ip, read) ↦
      let place : a ≡ record { family = ip4; value = shifted s + ip.value % 2 ^ 8 } =
        ground (arith, h, read) in
      let (inside, last) = lands s (ip.value % 2 ^ 8) narrow (omega arith) in
      (ip, read, ground (arith, h, read), rw place inside, rw place last)
]

-- The target that `c9Target` returns is a /24 that shares no address with the old segment, and holds
-- the source's address and the ends of the pool, moved from the old segment with their last bytes.
pub c9_target-Renumbered :
    (parse : Parsers) (e : Env) (t : Target) → c9_target parse e ≡ ok t → Renumbered parse e t
unfolding c9_target
c9_target-Renumbered parse e t h = elim (Option-cases (parse.parse_prefix e.seg_subnet)) [
  | inl unread ↦ absurd (ground (arith, h, unread))
  | inr (s, subnet) ↦ elim (Result-cases (moved parse s (shifted s) e.source_addr)) [
    | inl (f, lost) ↦ absurd (ground (arith, h, subnet, lost))
    | inr (a, source) ↦ elim (Result-cases (moved parse s (shifted s) e.pool_start)) [
      | inl (f, lost) ↦ absurd (ground (arith, h, subnet, source, lost))
      | inr (b, start) ↦ elim (Result-cases (moved parse s (shifted s) e.pool_end)) [
        | inl (f, lost) ↦ absurd (ground (arith, h, subnet, source, start, lost))
        | inr (c, end) ↦
            let narrow : is_24 s ≡ true = ground (arith, h, subnet) in
            let same : record { subnet = prefix_at (shifted s); addr = a; first = b; last = c }
                ≡ t =
              ok_inj {E = Fault} (ground (arith, h, subnet, source, start, end)) in
            subst (Renumbered parse e) same (record {
              old = s;
              parsed = subnet;
              narrow = refl;
              apart = stays_apart s narrow;
              source = moved-Moved parse s e.source_addr a narrow source;
              starts = moved-Moved parse s e.pool_start b narrow start;
              ends = moved-Moved parse s e.pool_end c narrow end;
            })
      ]
    ]
  ]
]
