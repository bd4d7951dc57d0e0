-- ===== src/Scenario/GroupD/TwoPrefixes/Laws.antt =====
-- `judgeD4` against the plugin's reference on two advertised prefixes.
use docker_net_dhcp_lab.Scenario.GroupD.Link.Laws.{OnlyAllowed, leftover-none_iff}
use docker_net_dhcp_lab.Scenario.Outcome.{pass}
use docker_net_dhcp_lab.Scenario.GroupD.Link.{find_addr6, leftover}
use docker_net_dhcp_lab.Scenario.Judging.{check_each-all_iff, close-pass_iff, check_each}
use docker_net_dhcp_lab.Scenario.GroupD.Exchange6.{asks_for_address6}
use docker_net_dhcp_lab.Scenario.GroupF.Options.{is_some}
use docker_net_dhcp_lab.Scenario.GroupD.Slaac.{D2Obs, eui64}
use docker_net_dhcp_lab.Scenario.GroupD.Wire6.{RaMsg, Dhcp6Msg}
use docker_net_dhcp_lab.Prelude.{
  Option, none, some, List, [], ◌∷◌, All, ◌≡◌, refl, ◌↔◌, Text, ok, inl, inr, Option-cases, ltb,
  text_eq_iff, arith, true, false, contains, length, Result-cases, ◌≤◌, ℕ, Bool-cases, subst, sym,
  eq_text,
}
use docker_net_dhcp_lab.Scenario.GroupD.TwoPrefixes.{
  Reason, refuse_extra, form_each, d4_first, refuse_order, judge_d4, advertised_before, first_auto,
  last_of, same_first, d4_inspect, refuse_asking, anchor_of, formed_text, d4_chain, first_shown,
  D4Obs, auto_prefixes, main_shown,
}
use docker_net_dhcp_lab.Labyaml.Netip.{prefix_beq_iff, Prefix, Addr, eq_prefix}

same_first_iff : (a b : Option Prefix) → (same_first a b ≡ true) ↔ (a ≡ b)
same_first_iff none none = ground arith
same_first_iff none (some q) = ground arith
same_first_iff (some p) none = ground arith
same_first_iff (some p) (some q) = ground (arith, prefix_beq_iff p q)

-- each prefix forms its address, and the settled link holds it
pub EachFormed : (Text → Option Text) → D2Obs → List Prefix → List Addr → Type 0
EachFormed parse_mac o [] [] = Unit
EachFormed parse_mac o (p ∷ ps) (a ∷ want) =
    (eui64 parse_mac p o.mac ≡ ok a)
    × (is_some (find_addr6 o.settled.addrs a) ≡ true)
    × EachFormed parse_mac o ps want
EachFormed parse_mac o _ _ = ⊥

-- the advertisements that could have been read first agree on the prefix that they list first
pub record FirstListed (before : List RaMsg) (start : ℕ) (p : Option Prefix) : Type 0 where
  pub last : RaMsg
  pub is_last : last_of (anchor_of before start) ≡ some last
  pub listed : first_auto last ≡ p
  pub agreed : All (λ ra. first_auto ra ≡ p) (anchor_of before start)

-- docker inspect shows the address of the main prefix, which is advertised, or of the first listed
pub Inspected : (Addr → Text) → (Text → Option Text) → D2Obs → Option Prefix → Type 0
Inspected show parse_mac o none =
    (p : Option Prefix) × FirstListed (advertised_before o) o.start.at p
    × (o.inspect ≡ formed_text show parse_mac o.mac p)
Inspected show parse_mac o (some main) =
    (contains (auto_prefixes (advertised_before o)) main ≡ true)
    × (o.inspect ≡ formed_text show parse_mac o.mac (some main))

refuse_order-ok_iff :
    (last ra : RaMsg) → (refuse_order last ra ≡ ok tt) ↔ (first_auto ra ≡ first_auto last)
unfolding refuse_order
refuse_order-ok_iff last ra = ground (arith, same_first_iff (first_auto ra) (first_auto last))

d4_first-ok_iff :
    (before : List RaMsg) (start : ℕ) (p : Option Prefix)
    → (d4_first before start ≡ ok p) ↔ FirstListed before start p
unfolding d4_first
d4_first-ok_iff before start p = (
  (λ h. elim (Option-cases (last_of (anchor_of before start))) [
    | inl empty ↦ absurd (ground (arith, h, empty))
    | inr (last, e) ↦
        (let (into, out) =
            check_each-all_iff (refuse_order last) (anchor_of before start)
              (refuse_order-ok_iff last) in
          let same : first_auto last ≡ p = ground (arith, h, e) in
          record {
            last = last;
            is_last = e;
            listed = same;
            agreed =
                subst (λ q. All (λ ra. first_auto ra ≡ q) (anchor_of before start)) same
                  (into (ground (arith, h, e)));
          })
  ]),
  λ f.
      let (into, out) =
        check_each-all_iff (refuse_order f.last) (anchor_of before start)
          (refuse_order-ok_iff f.last) in
      ground (
        arith,
        f.is_last,
        f.listed,
        out (
            subst (λ q. All (λ ra. first_auto ra ≡ q) (anchor_of before start)) (sym f.listed)
              f.agreed),
      ),
)

form_each-EachFormed :
    (parse_mac : Text → Option Text) (o : D2Obs) (ps : List Prefix) (want : List Addr)
    → form_each parse_mac o ps ≡ ok want
    → EachFormed parse_mac o ps want
unfolding form_each EachFormed
form_each-EachFormed parse_mac o [] [] h = tt
form_each-EachFormed parse_mac o [] (a ∷ want) h = absurd (ground (arith, h))
form_each-EachFormed parse_mac o (p ∷ ps) want h = elim (Result-cases (eui64 parse_mac p o.mac)) [
  | inl (e, bad) ↦ absurd (ground (arith, h, bad))
  | inr (a, good) ↦ elim (Result-cases (form_each parse_mac o ps)) [
    | inl (e, bad) ↦
        absurd (ground (arith, h, good, bad, Bool-cases (is_some (find_addr6 o.settled.addrs a))))
    | inr (rest, formed) ↦
        (let held : is_some (find_addr6 o.settled.addrs a) ≡ true = ground (arith, h, good) in
          let all : a ∷ rest ≡ want = ground (arith, h, good, formed, held) in
          subst (λ w. EachFormed parse_mac o (p ∷ ps) w) all
            (good, held, form_each-EachFormed parse_mac o ps rest formed))
  ]
]

EachFormed-form_each :
    (parse_mac : Text → Option Text) (o : D2Obs) (ps : List Prefix) (want : List Addr)
    → EachFormed parse_mac o ps want
    → form_each parse_mac o ps ≡ ok want
unfolding form_each EachFormed
EachFormed-form_each parse_mac o [] [] h = refl
EachFormed-form_each parse_mac o [] (a ∷ want) h = elim h [ ]
EachFormed-form_each parse_mac o (p ∷ ps) [] h = elim h [ ]
EachFormed-form_each parse_mac o (p ∷ ps) (a ∷ want) (good, held, rest) =
    ground (arith, good, held, EachFormed-form_each parse_mac o ps want rest)

module _ (show : Addr → Text) (parse_mac : Text → Option Text) where
  d4_inspect-ok_iff :
      (o : D2Obs) (want : List Addr) (main : Option Prefix)
      → ((r : Reason) × (d4_inspect show parse_mac o want main ≡ ok r))
        ↔ Inspected show parse_mac o main
  unfolding d4_inspect Inspected
  d4_inspect-ok_iff o want none = (
    (λ (r, h). elim (Result-cases (d4_first (advertised_before o) o.start.at)) [
      | inl (e, bad) ↦ absurd (ground (arith, h, bad))
      | inr (p, e) ↦ (
        p,
        (d4_first-ok_iff (advertised_before o) o.start.at p).0 e,
        ground (arith, h, e, text_eq_iff o.inspect (formed_text show parse_mac o.mac p)),
      )
    ]),
    λ (p, f, e). (
      first_shown want (auto_prefixes (advertised_before o)) p,
      ground (
        arith,
        (d4_first-ok_iff (advertised_before o) o.start.at p).1 f,
        e,
        text_eq_iff o.inspect (formed_text show parse_mac o.mac p),
      ),
    ),
  )
  d4_inspect-ok_iff o want (some main) = (
    (λ (r, h). (
      ground (arith, h),
      ground (arith, h, text_eq_iff o.inspect (formed_text show parse_mac o.mac (some main))),
    )),
    λ (listed, e). (
      main_shown want (auto_prefixes (advertised_before o)) main,
      ground
          (arith, listed, e, text_eq_iff o.inspect (formed_text show parse_mac o.mac (some main))),
    ),
  )

  refuse_asking-ok_iff :
      (m : Dhcp6Msg) → (refuse_asking m ≡ ok tt) ↔ (asks_for_address6 m.type ≡ false)
  unfolding refuse_asking
  refuse_asking-ok_iff m = ground arith

  extra-none_iff : (want : List Addr) (e : Option Addr) → (refuse_extra want e ≡ ok tt) ↔ (e ≡ none)
  extra-none_iff want none = ground arith
  extra-none_iff want (some a) = ground arith

  -- `judgeD4` passes exactly when no message asks for an address, at least two autonomous prefixes
  -- were advertised by the settled read, each forms an address that the link then holds, the link
  -- has no other global address, and docker inspect shows the address of the main prefix, which is
  -- one of them, or, where none is set, of the prefix that all advertisements up to the start read
  -- (all up to the settled read, where there are none) list first.
  pub judge_d4-pass_iff :
      (o : D4Obs)
      → ((judge_d4 show parse_mac o).result ≡ pass) ↔ (
          All (λ m. asks_for_address6 m.type ≡ false) o.base.msgs
          × (2 ≤ length (auto_prefixes (advertised_before o.base)))
          × ((want : List Addr) × EachFormed parse_mac o.base
                (auto_prefixes (advertised_before o.base))
                want
              × OnlyAllowed want o.base.settled.addrs)
          × Inspected show parse_mac o.base o.main)
  unfolding judge_d4 d4_chain
  judge_d4-pass_iff o =
      let b = o.base in
      let ps = auto_prefixes (advertised_before b) in
      let quiet = check_each-all_iff refuse_asking b.msgs refuse_asking-ok_iff in
      (
        (λ h.
            let (r, e) = (close-pass_iff (d4_chain show parse_mac o)).0 h in
            elim (Result-cases (form_each parse_mac b ps)) [
              | inl (f, bad) ↦ absurd (
                  ground (
                    arith,
                    e,
                    bad,
                    Result-cases (check_each refuse_asking b.msgs),
                    Bool-cases (ltb (length ps) 2),
                  ))
              | inr (want, formed) ↦ (
                quiet.0 (ground (arith, e)),
                ground (arith, e),
                (
                  want,
                  form_each-EachFormed parse_mac b ps want formed,
                  (leftover-none_iff b.settled.addrs want).0 (
                      (extra-none_iff want (leftover b.settled.addrs want)).0
                        (ground (arith, e, formed))),
                ),
                (d4_inspect-ok_iff b want o.main).0 (r, ground (arith, e, formed)),
              )
            ]),
        λ (q, two, (want, formed, only), i).
            let (r, e) = (d4_inspect-ok_iff b want o.main).1 i in
            (close-pass_iff (d4_chain show parse_mac o)).1 (
              r,
              ground (
                arith,
                e,
                quiet.1 q,
                two,
                EachFormed-form_each parse_mac b ps want formed,
                (extra-none_iff want (leftover b.settled.addrs want)).1
                    ((leftover-none_iff b.settled.addrs want).1 only),
              ),
            ),
      )
