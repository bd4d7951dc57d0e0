-- ===== src/Scenario/Addresses/Bands.antt =====
-- The bands of the scenarios: no two owners ever take the same address of a segment.
use docker_net_dhcp_lab.Scenario.Addresses.Laws.{
  octet, at_octet-holds, group_b_addr-Reserved, Reserved,
}
use docker_net_dhcp_lab.Prelude.{
  Text, ℕ, ◌≡◌, List, get_elem?, ok, some, Result-cases, ap, ◌+◌, ◌<◌, inl, ◌∙◌, Option-cases,
  length, arith, ◌==◌, inr, Bool-cases, text_eq_iff, ◌||◌, true, eq_text, suc, [], ◌∷◌,
  if◌then◌else◌, Bool, ◌≤◌, ◌↔◌, refl, ◌&&◌, subst,
}
use docker_net_dhcp_lab.Labyaml.Netip.{Parsers, Addr, Prefix, holds, masked, span, addr_le, ip4}
use docker_net_dhcp_lab.Scenario.Addresses.{
  index_from, shape_index, Env, reservation_addr, shapes, user_class_last_host,
  class_pool_first_host, name_b1, name_b2, in_pool, in_class_pool, in_user_class_pool, at_octet,
  class_pool, pool_between, user_class_pool, user_class_first_host, group_b_addr,
  class_pool_last_host, is_24,
}

index_from-nth :
    (i : ℕ) (names : List Text) (s : Text) (k : ℕ)
    → index_from i names s ≡ some k
    → (j : ℕ) × (k ≡ i + j) × (get_elem? names j ≡ some s) × (j < length names)
unfolding index_from
index_from-nth i [] s k h = absurd (ground (arith, h))
index_from-nth i (n ∷ names) s k h = elim (Bool-cases (n == s)) [
  | inl here ↦ (0, ground (arith, h, here), ap some ((text_eq_iff n s).0 here), omega arith)
  | inr later ↦
      let (j, e, nth, lt) = index_from-nth (i + 1) names s k (ground (arith, h, later)) in
      (suc j, omega (arith, e), nth, omega (arith, lt))
]

shape_index-nth :
    (s : Text) (i : ℕ) → shape_index s ≡ ok i → (get_elem? shapes i ≡ some s) × (i < 5)
unfolding shape_index
shape_index-nth s i h = elim (Option-cases (index_from 0 shapes s)) [
  | inl unknown ↦ absurd (ground (arith, h, unknown))
  | inr (k, found) ↦
      let (j, e, nth, lt) = index_from-nth 0 shapes s k found in
      let same : i ≡ j = ground (arith, h, found, e) in rw same (nth, lt)
]

-- which octet a reservation takes
abbrev pub reserved_octet : Text → ℕ → ℕ
reserved_octet scenario i = if scenario == name_b1 then 211 + i else 216 + i

-- a reservation is of one of the two scenarios, at the octet of its shape
pub record Reservation (parse : Parsers) (show : Addr → Text) (e : Env) (scenario : Text) (a : Addr)
    : Type 0 where
  pub index : ℕ
  pub shaped : get_elem? shapes index ≡ some e.shape
  pub below : index < 5
  pub named : (scenario == name_b1 || scenario == name_b2) ≡ true
  pub granted : Reserved parse show e (reserved_octet scenario index) a

module _ (parse : Parsers) (show : Addr → Text) where
  reservation_addr-Reservation :
      (e : Env) (scenario : Text) (a : Addr)
      → reservation_addr parse show e scenario ≡ ok a
      → Reservation parse show e scenario a
  unfolding reservation_addr
  reservation_addr-Reservation e scenario a h = elim (Result-cases (shape_index e.shape)) [
    | inl (f, unknown) ↦ absurd (ground (arith, h, unknown))
    | inr (i, found) ↦
        let (nth, lt) = shape_index-nth e.shape i found in
        elim (Bool-cases (scenario == name_b1)) [
          | inl first ↦ record {
            index = i;
            shaped = nth;
            below = lt;
            named = ground (arith, first);
            granted =
                rw first (
                  group_b_addr-Reserved parse show e (211 + i) a (ground (arith, h, found, first)));
          }
          | inr other ↦ elim (Bool-cases (scenario == name_b2)) [
            | inl second ↦ record {
              index = i;
              shaped = nth;
              below = lt;
              named = ground (arith, second);
              granted = rw other (
                  group_b_addr-Reserved parse show e (216 + i) a
                    (ground (arith, h, found, other, second)));
            }
            | inr neither ↦ absurd (ground (arith, h, found, other, neither))
          ]
        ]
  ]

  octet_reserved :
      (e : Env) (scenario : Text) (a : Addr) (r : Reservation parse show e scenario a)
      → octet a ≡ reserved_octet scenario r.index
  octet_reserved e scenario a r =
      let g = r.granted in
      ap octet g.place
      ∙ (at_octet-holds g.subnet (reserved_octet scenario r.index) g.narrow g.high).1

  -- Two reservations of one segment are the same address only for the same shape and the same
  -- scenario, and every reservation has an octet above the user-class pool's and below the class
  -- pool's.
  pub reservation_addr-Apart :
      (e : Env) (shape first second : Text) (a : Addr)
      → reservation_addr parse show e first ≡ ok a
      → ((reservation_addr parse show (record e { shape = shape }) second ≡ ok a)
          → (shape ≡ e.shape) × (second ≡ first))
        × (user_class_last_host < octet a)
        × (octet a < class_pool_first_host)
  reservation_addr-Apart e shape first second a h =
      let r = reservation_addr-Reservation e first a h in
      let o = octet_reserved e first a r in
      (
        (λ k.
            let s = reservation_addr-Reservation (record e { shape = shape }) second a k in
            let p = octet_reserved (record e { shape = shape }) second a s in
            let same : (s.index ≡ r.index) × ((second == name_b1) ≡ (first == name_b1)) =
              ground (arith, o, p, r.below, s.below) in
            (
              ground (arith, s.shaped, r.shaped, same),
              ground (
                arith,
                same,
                r.named,
                s.named,
                text_eq_iff first name_b1,
                text_eq_iff first name_b2,
                text_eq_iff second name_b1,
                text_eq_iff second name_b2,
              ),
            )),
        ground (arith, o, r.below),
        ground (arith, o, r.below),
      )

-- the addresses of a segment between two octets
abbrev pub Between : Prefix → ℕ → ℕ → Addr → Type 0
Between p first last a = (holds p a ≡ true) × (first ≤ octet a) × (octet a ≤ last)

octets_compare :
    (p : Prefix) (first last : ℕ) (a : Addr)
    → is_24 p ≡ true
    → first ≤ 254
    → last ≤ 254
    → ((addr_le (at_octet p first) a && addr_le a (at_octet p last)) ≡ true)
      ↔ Between p first last a
unfolding at_octet holds masked span addr_le
octets_compare p first last a h low high =
    let bits : p.bits ≡ 24 = ground (arith, h) in
    let fam : p.addr.family ≡ ip4 = ground (arith, h) in rw (bits, fam) (ground (arith, low, high))

module _ (parse : Parsers) (show : Addr → Text) (e : Env) where
  in_pool-Between :
      (p : Prefix) (first last : ℕ) (text : Text) (a : Addr) (b : Bool)
      → parse.parse_prefix e.seg_subnet ≡ some p
      → parse.parse_addr text ≡ some a
      → in_pool parse (pool_between parse show e first last) text ≡ ok b
      → (b ≡ true) ↔ Between p first last a
  unfolding in_pool pool_between
  in_pool-Between p first last text a b subnet read h =
      elim (Result-cases (group_b_addr parse show e first)) [
        | inl (f, refused) ↦ absurd (ground (arith, h, refused))
        | inr (f, lower) ↦ elim (Result-cases (group_b_addr parse show e last)) [
          | inl (l, refused) ↦ absurd (ground (arith, h, lower, refused))
          | inr (l, upper) ↦
              let g = group_b_addr-Reserved parse show e first f lower in
              let k = group_b_addr-Reserved parse show e last l upper in
              let p1 : g.subnet ≡ p = ground (arith, subnet, g.parsed) in
              let p2 : k.subnet ≡ p = ground (arith, subnet, k.parsed) in
              let narrow : is_24 p ≡ true = subst (λ q. is_24 q ≡ true) p1 g.narrow in
              let at_first : f ≡ at_octet p first = g.place ∙ ap (λ q. at_octet q first) p1 in
              let at_last : l ≡ at_octet p last = k.place ∙ ap (λ q. at_octet q last) p2 in
              let test : b ≡ (addr_le (at_octet p first) a && addr_le a (at_octet p last)) =
                ground (arith, h, lower, upper, read, at_first, at_last) in
              rw test (octets_compare p first last a narrow g.high k.high)
        ]
      ]

  -- `inClassPool` answers for the addresses of the segment with an octet of the class pool, whatever
  -- the comparison of addresses does elsewhere.
  pub in_class_pool-Between :
      (p : Prefix) (text : Text) (a : Addr) (b : Bool)
      → parse.parse_prefix e.seg_subnet ≡ some p
      → parse.parse_addr text ≡ some a
      → in_class_pool parse show e text ≡ ok b
      → (b ≡ true) ↔ Between p class_pool_first_host class_pool_last_host a
  unfolding in_class_pool class_pool
  in_class_pool-Between p text a b subnet read h =
      in_pool-Between p class_pool_first_host class_pool_last_host text a b subnet read h

  -- No address is in both pools of the client classes.
  pub pools-Apart :
      (text : Text) (a : Addr)
      → parse.parse_addr text ≡ some a
      → in_class_pool parse show e text ≡ ok true
      → in_user_class_pool parse show e text ≡ ok true
      → ⊥
  unfolding in_user_class_pool user_class_pool in_pool pool_between group_b_addr
  pools-Apart text a read h k = elim (Option-cases (parse.parse_prefix e.seg_subnet)) [
    | inl unread ↦ ground (arith, k, unread)
    | inr (p, subnet) ↦
        let x = (in_class_pool-Between p text a true subnet read h).0 refl in
        let y =
          (in_pool-Between p user_class_first_host user_class_last_host text a true subnet read k).0
            refl in
        ground (arith, x, y)
  ]
