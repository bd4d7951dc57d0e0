-- ===== src/Scenario/GroupD/Silent/Laws.antt =====
-- `judgeD3cAuto` and `judgeD3cFails` against the plugin's reference on a silent DHCPv6 server.
use docker_net_dhcp_lab.Scenario.GroupD.Slaac.Chosen.{Chosen, sightings}
use docker_net_dhcp_lab.Sourceadapter.Retry.{occurs}
use docker_net_dhcp_lab.Scenario.GroupD.Slaac.Formed.{
  Formed, slaac_formed-FormedBy, FormedBy-slaac_formed,
}
use docker_net_dhcp_lab.Scenario.Outcome.{pass}
use docker_net_dhcp_lab.Scenario.Judging.{check_each, check_each-all_iff, close-pass_iff, keep}
use docker_net_dhcp_lab.Scenario.GroupD.Link.{find_addr6, above}
use docker_net_dhcp_lab.Scenario.GroupD.NoRouter.{solicits}
use docker_net_dhcp_lab.Scenario.GroupD.Exchange6.{granting}
use docker_net_dhcp_lab.Scenario.GroupD.Slaac.{D2Obs, Auto, slaac_formed, last_auto_pio, eui64}
use docker_net_dhcp_lab.Scenario.GroupD.Wire6.{Dhcp6Msg, Addr6}
use docker_net_dhcp_lab.Labyaml.Netip.{Addr}
use docker_net_dhcp_lab.Scenario.GroupD.Silent.{
  Reason, distinct_onto, check_last, judge_d3c_fails, refuse_grant, refuse_answer, check_formed_at,
  d3c_chain, answers, judge_d3c_auto, d3c_fails_chain, check_lifetimes, solicit_xids, no_server,
  unanswered, named_silence, fell_back,
}
use docker_net_dhcp_lab.Prelude.{
  Option, none, some, List, [], ◌∷◌, All, ◌≡◌, refl, ◌↔◌, Text, ok, inl, inr, ltb, text_eq_iff,
  arith, true, false, contains, length, Result-cases, ◌≤◌, map, Bool-cases, nat_eq, ◌++◌, text_eq,
  sym, length-append, ◌||◌, eq_text, ◌==◌, codes,
}

-- there is a text, and all are the same
pub SameAll : List Text → Type 0
SameAll [] = ⊥
SameAll (x ∷ ts) = All (λ t. t ≡ x) ts

length-distinct_onto : (seen ts : List Text) → length seen ≤ length (distinct_onto seen ts)
unfolding distinct_onto
length-distinct_onto seen [] = omega arith
length-distinct_onto seen (t ∷ ts) = elim (Bool-cases (contains seen t)) [
  | inl old ↦ rw old (length-distinct_onto seen ts)
  | inr new ↦
      rw new (omega (arith, length-distinct_onto (seen ++ t ∷ []) ts, length-append seen (t ∷ [])))
]

stays_one_iff :
    (x : Text) (ts : List Text) → (length (distinct_onto (x ∷ []) ts) ≡ 1) ↔ All (λ t. t ≡ x) ts
unfolding distinct_onto contains
stays_one_iff x [] = (λ _. tt, λ _. refl)
stays_one_iff x (t ∷ ts) = elim (Bool-cases (text_eq x t)) [
  | inl same ↦ rw same (
      let (into, out) = stays_one_iff x ts in
      (λ h. (sym ((text_eq_iff x t).0 same), into h), λ (_, h). out h))
  | inr other ↦ rw other (
    (λ h. absurd (omega (arith, h, length-distinct_onto (x ∷ t ∷ []) ts))),
    λ (e, _). absurd (ground (arith, other, e, text_eq_iff x t)),
  )
]

one_text_iff : (ts : List Text) → (length (distinct_onto [] ts) ≡ 1) ↔ SameAll ts
unfolding distinct_onto contains SameAll
one_text_iff [] = (λ h. absurd (omega (arith, h)), λ h. elim h [ ])
one_text_iff (x ∷ ts) = stays_one_iff x ts

some_solicit :
    (msgs : List Dhcp6Msg) → SameAll (map (λ m. m.xid) msgs) → nat_eq (length msgs) 0 ≡ false
unfolding SameAll
some_solicit [] h = elim h [ ]
some_solicit (m ∷ msgs) h = ground arith

-- the lifetimes of the formed address, once settled, are at most those of the last advertisement
pub record NotAbove (o : D2Obs) (s : Auto) (want : Addr) : Type 0 where
  pub a : Addr6
  pub held : find_addr6 o.settled.addrs want ≡ some a
  pub valid_below : above a.valid s.pio.valid ≡ false
  pub pref_below : above a.pref s.pio.pref ≡ false

check_last-NotAbove :
    (parse_mac : Text → Option Text) (o : D2Obs) (s : Auto) (want : Addr) (a : Addr6)
    → last_auto_pio o ≡ some s
    → eui64 parse_mac s.pio.prefix o.mac ≡ ok want
    → find_addr6 o.settled.addrs want ≡ some a
    → (check_last parse_mac o (last_auto_pio o) ≡ ok tt) ↔ NotAbove o s want
unfolding check_last check_formed_at check_lifetimes
check_last-NotAbove parse_mac o s want a seen good held = (
  (λ h. record {
    a = a;
    held = held;
    valid_below = ground (arith, h, seen, good, held);
    pref_below = ground (arith, h, seen, good, held);
  }),
  λ n. ground (arith, seen, good, n.held, n.valid_below, n.pref_below),
)

refuse_grant-ok_iff : (m : Dhcp6Msg) → (refuse_grant m ≡ ok tt) ↔ (granting m ≡ false)
unfolding refuse_grant
refuse_grant-ok_iff m = ground arith

-- the address formed from the first prefix, with lifetimes that do not exceed it
abbrev pub FellBack : (Addr → Text) → (Text → Option Text) → D2Obs → Type 0
FellBack show parse_mac o =
    (s : Auto) × (last_auto_pio o ≡ some s)
    × Chosen (sightings o.settled.at o.ras) s
    × ((want : Addr) × (eui64 parse_mac s.pio.prefix o.mac ≡ ok want)
        × Formed show o s want
        × NotAbove o s want)

module _ (show : Addr → Text) (parse_mac : Text → Option Text) (o : D2Obs) (fallbacks : Text) where
  d3c_chain-FellBack :
      (r : Reason) → d3c_chain show parse_mac o fallbacks ≡ ok r → FellBack show parse_mac o
  unfolding d3c_chain
  d3c_chain-FellBack r e = elim (Result-cases (slaac_formed show parse_mac o)) [
    | inl (f, bad) ↦ absurd (
        ground (
          arith,
          e,
          bad,
          Result-cases (check_each refuse_grant o.msgs),
          Bool-cases (nat_eq (solicits o.msgs) 0),
          Bool-cases (nat_eq (length (distinct_onto [] (solicit_xids o.msgs))) 1),
        ))
    | inr (out, passes) ↦
        let (s, seen, chosen, (want, good, g)) =
          slaac_formed-FormedBy show parse_mac o out passes in
        (
          s,
          seen,
          chosen,
          (
            want,
            good,
            g,
            (check_last-NotAbove parse_mac o s want g.settled seen good g.once_settled).0
                (ground (arith, e, passes)),
          ),
        )
  ]

  -- `judgeD3cAuto` passes exactly when no Reply grants an address, there are Solicits and all are of
  -- one transaction, and the first autonomous prefix that was advertised forms the container's address
  -- as `judgeD2` wants it, with lifetimes no longer than those of its last advertisement.
  pub judge_d3c_auto-pass_iff : ((judge_d3c_auto show parse_mac o fallbacks).result ≡ pass) ↔ (
      All (λ m. granting m ≡ false) o.msgs
      × SameAll (solicit_xids o.msgs)
      × FellBack show parse_mac o)
  unfolding judge_d3c_auto d3c_chain solicits solicit_xids
  judge_d3c_auto-pass_iff =
      let ungranted = check_each-all_iff refuse_grant o.msgs refuse_grant-ok_iff in
      let one = one_text_iff (solicit_xids o.msgs) in
      let chain = close-pass_iff (d3c_chain show parse_mac o fallbacks) in
      (
        (λ h.
            let (r, e) = chain.0 h in
            (ungranted.0 (ground (arith, e)), one.0 (ground (arith, e)), d3c_chain-FellBack r e)),
        λ (u, same, (s, seen, chosen, (want, good, g, n))).
            let (out, passes) =
              FormedBy-slaac_formed show parse_mac o (s, seen, chosen, (want, good, g)) in
            chain.1 (
              fell_back (solicits o.msgs) out fallbacks,
              ground (
                arith,
                passes,
                ungranted.1 u,
                one.1 same,
                some_solicit (keep (λ m. m.type == codes "SOLICIT") o.msgs) same,
                (check_last-NotAbove parse_mac o s want g.settled seen good g.once_settled).1 n,
              ),
            ),
      )

refuse_answer-ok_iff : (e : Text) (m : Dhcp6Msg) → (refuse_answer e m ≡ ok tt) ↔ (answers m ≡ false)
unfolding refuse_answer
refuse_answer-ok_iff e m = ground arith

-- `judgeD3cFails` passes exactly when the container did not start, no Advertise or Reply is on the
-- link, and a Solicit is, or the error names the silent server.
pub judge_d3c_fails-pass_iff :
    (opts : Text) (start : Option Text) (settled : List Addr6) (msgs : List Dhcp6Msg)
    → ((judge_d3c_fails opts start settled msgs).result ≡ pass) ↔ (
        (e : Text) × (start ≡ some e)
        × All (λ m. answers m ≡ false) msgs
        × ((ltb 0 (solicits msgs) || occurs no_server e) ≡ true))
unfolding judge_d3c_fails d3c_fails_chain
judge_d3c_fails-pass_iff opts none settled msgs =
    (λ h. absurd (ground (arith, h)), λ (e, s, _, _). absurd (ground (arith, s)))
judge_d3c_fails-pass_iff opts (some e) settled msgs =
    let quiet = check_each-all_iff (refuse_answer e) msgs (refuse_answer-ok_iff e) in
    let chain = close-pass_iff (d3c_fails_chain opts (some e) settled msgs) in
    (
      (λ h.
          let (r, f) = chain.0 h in
          (
            e,
            refl,
            quiet.0 (ground (arith, f)),
            ground (arith, f, Result-cases (check_each (refuse_answer e) msgs)),
          )),
      λ (c, s, q, tied). elim (Bool-cases (ltb 0 (solicits msgs))) [
        | inl asked ↦ chain.1 (unanswered opts (solicits msgs) e, ground (arith, asked, quiet.1 q))
        | inr silent ↦ chain.1 (named_silence opts e, ground (arith, silent, quiet.1 q, tied, s))
      ],
    )
