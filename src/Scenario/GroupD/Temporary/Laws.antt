-- ===== src/Scenario/GroupD/Temporary/Laws.antt =====
-- `judgeF5` against the plugin's reference on temporary addresses.
use docker_net_dhcp_lab.Scenario.GroupD.Lease.Laws.{Leased, d1_chain_ok, d1_chain-Leased}
use docker_net_dhcp_lab.Scenario.GroupD.Exchange6.Laws.{OneClient, exchange6-ok_iff}
use docker_net_dhcp_lab.Scenario.Judging.{check_each-keep_iff_of, close-pass_iff, check_each, keep}
use docker_net_dhcp_lab.Scenario.GroupD.Link.{find_addr6, lft_within}
use docker_net_dhcp_lab.Scenario.Outcome.{pass}
use docker_net_dhcp_lab.Scenario.GroupD.Exchange6.{Exchange, exchange6, client, is_client6}
use docker_net_dhcp_lab.Scenario.GroupD.Lease.{D1Obs, d1_chain, in_table}
use docker_net_dhcp_lab.Scenario.GroupD.Wire6.{Dhcp6Msg, Ia6, Addr6, first_addr, sampled, lease_ta}
use docker_net_dhcp_lab.Labyaml.Netip.{Addr}
use docker_net_dhcp_lab.Prelude.{
  Bool, Option, Text, ◌≡◌, false, ok, [], All, some, ◌↔◌, true, ◌&&◌, arith, ltb, text_eq_iff,
  Result-cases, length, Option-cases, inl, inr, none,
}
use docker_net_dhcp_lab.Scenario.GroupD.Temporary.{
  f5_end, check_granted, check_ta, with_ta, judge_f5, f5_tests, Reason, f5_chain, asks_lease,
  without_temporary, before_slash, with_temporary,
}

-- what follows from the grant: nothing shown without one; with one, the address on the link, counted
-- down, in the source's table and on /Plugin.Health
abbrev pub Shown : (Addr → Text) → D1Obs → Exchange → Text → Option (Addr × Ia6) → Type 0
Shown show o x got none = got ≡ []
Shown show o x got (some (ta, ia)) =
    ((s : Addr6) × (find_addr6 o.settled.addrs ta ≡ some s)
      × (lft_within s.valid ia.valid x.reply.at (sampled o.settled) ≡ true)
      × (lft_within s.pref ia.pref x.reply.at (sampled o.settled) ≡ true))
    × (in_table o.leases lease_ta x.duid ta ≡ true)
    × (got ≡ show ta)

-- a temporary address is granted exactly where both sides have the feature
abbrev pub Granted : Bool → Option (Addr × Ia6) → Type 0
Granted both none = both ≡ false
Granted both (some g) = both ≡ true

-- the whole run, on the exchange of the only client
pub record Temporary (show : Addr → Text) (o : D1Obs) (present server found : Bool) (health : Text)
    (x : Exchange) : Type 0 where
  pub asked :
      All
        (λ m. is_client6 m.type ≡ true → asks_lease m ≡ true → ltb 0 (length m.ta) ≡ present)
        x.msgs
  pub granted : Granted (present && server) (first_addr x.reply.ta)
  pub leased : Leased show (with_ta (first_addr x.reply.ta) o) x
  pub listed : present ≡ true → found ≡ true
  pub shown : Shown show o x (before_slash health) (first_addr x.reply.ta)

check_ta-ok_iff :
    (present : Bool) (m : Dhcp6Msg)
    → (check_ta present m ≡ ok tt) ↔ (asks_lease m ≡ true → ltb 0 (length m.ta) ≡ present)
unfolding check_ta
check_ta-ok_iff true m = ground arith
check_ta-ok_iff false m = ground arith

check_granted-ok_iff :
    (present server : Bool) (g : Option (Addr × Ia6))
    → (check_granted present g server ≡ ok tt) ↔ Granted (present && server) g
unfolding check_granted
check_granted-ok_iff present server none = ground arith
check_granted-ok_iff present server (some (ta, ia)) = ground arith

f5_end-ok_iff :
    (show : Addr → Text) (o : D1Obs) (x : Exchange) (got : Text) (g : Option (Addr × Ia6))
    → ((r : Reason) × (f5_end show o x got g ≡ ok r)) ↔ Shown show o x got g
unfolding f5_end
f5_end-ok_iff show o x got none = (
  (λ (r, h). ground (arith, h, text_eq_iff got [])),
  λ e. (without_temporary, ground (arith, e, text_eq_iff got [])),
)
f5_end-ok_iff show o x got (some (ta, ia)) = (
  (λ (r, h). elim (Option-cases (find_addr6 o.settled.addrs ta)) [
    | inl gone ↦ absurd (ground (arith, h, gone))
    | inr (s, still) ↦ (
      (s, still, ground (arith, h, still), ground (arith, h, still)),
      ground (arith, h, still),
      ground (arith, h, still, text_eq_iff got (show ta)),
    )
  ]),
  λ ((s, still, valid, pref), tabled, e).
      (with_temporary ta, ground (arith, still, valid, pref, tabled, e, text_eq_iff got (show ta))),
)

module _ (show : Addr → Text) (o : D1Obs) (present server found : Bool) (health : Text) where
  same_msgs :
      (g : Option (Addr × Ia6)) (x : Exchange)
      → exchange6 o.msgs ≡ ok x
      → exchange6 (with_ta g o).msgs ≡ ok x
  unfolding with_ta
  same_msgs none x one = one
  same_msgs (some (ta, ia)) x one = one

  f5_tests-Temporary :
      (x : Exchange) (r : Reason)
      → exchange6 o.msgs ≡ ok x
      → f5_tests show o present server found health x ≡ ok r
      → Temporary show o present server found health x
  unfolding f5_tests client
  f5_tests-Temporary x r one h =
      let g = first_addr x.reply.ta in
      let asks =
        check_each-keep_iff_of (check_ta present) (λ m. is_client6 m.type) x.msgs
          (check_ta-ok_iff present) in
      elim (Result-cases (d1_chain show (with_ta g o))) [
        | inl (f, stops) ↦ absurd (
            ground (
              arith,
              h,
              stops,
              Result-cases (check_each (check_ta present) (keep (λ m. is_client6 m.type) x.msgs)),
              Result-cases (check_granted present g server),
            ))
        | inr (d, passes) ↦ record {
          asked = asks.0 (ground (arith, h));
          granted = (check_granted-ok_iff present server g).0 (ground (arith, h));
          leased = d1_chain-Leased show (with_ta g o) x d (same_msgs g x one) passes;
          listed = λ p. ground (arith, h, passes, p);
          shown = (f5_end-ok_iff show o x (before_slash health) g).0 (r, ground (arith, h, passes));
        }
      ]

  f5_tests_ok :
      (x : Exchange)
      → exchange6 o.msgs ≡ ok x
      → Temporary show o present server found health x
      → (r : Reason) × (f5_tests show o present server found health x ≡ ok r)
  unfolding f5_tests client
  f5_tests_ok x one t =
      let g = first_addr x.reply.ta in
      let asks =
        check_each-keep_iff_of (check_ta present) (λ m. is_client6 m.type) x.msgs
          (check_ta-ok_iff present) in
      let (r, e) = (f5_end-ok_iff show o x (before_slash health) g).1 t.shown in
      (
        r,
        ground (
          arith,
          e,
          asks.1 t.asked,
          (check_granted-ok_iff present server g).1 t.granted,
          d1_chain_ok show (with_ta g o) x t.leased,
          t.listed,
        ),
      )

  -- `judgeF5` passes exactly when the capture shows one client whose Solicits and Requests carry an
  -- IA_TA if and only if the plugin has the feature, the Reply grants a temporary address exactly when
  -- both sides have it, `judgeD1` passes with that address allowed on the link, and /Plugin.Health,
  -- the link and the source's table show the temporary address, or none where none was granted.
  pub judge_f5-pass_iff :
      ((judge_f5 show o present server found health).result ≡ pass)
      ↔ ((x : Exchange) × OneClient o.msgs x × Temporary show o present server found health x)
  unfolding judge_f5 f5_chain
  judge_f5-pass_iff = (
    (λ h.
        let (r, e) = (close-pass_iff (f5_chain show o present server found health)).0 h in
        elim (Result-cases (exchange6 o.msgs)) [
          | inl (f, stops) ↦ absurd (ground (arith, e, stops))
          | inr (x, one) ↦ (
            x,
            (exchange6-ok_iff o.msgs x).0 one,
            f5_tests-Temporary x r one (ground (arith, e, one)),
          )
        ]),
    λ (x, sole, t).
        let one = (exchange6-ok_iff o.msgs x).1 sole in
        let (r, e) = f5_tests_ok x one t in
        (close-pass_iff (f5_chain show o present server found health)).1
          (r, ground (arith, one, e)),
  )
