-- ===== src/Scenario/GroupD/Slaac/Formed.antt =====
-- `judgeD2` against the plugin's reference: what a router advertisement must have formed.
use docker_net_dhcp_lab.Scenario.GroupD.Slaac.Chosen.{Chosen, last_auto_pio-Chosen, sightings}
use docker_net_dhcp_lab.Scenario.Outcome.{pass}
use docker_net_dhcp_lab.Scenario.GroupD.Exchange6.{asks_for_address6}
use docker_net_dhcp_lab.Scenario.Judging.{check_each-all_iff, close-pass_iff}
use docker_net_dhcp_lab.Scenario.GroupD.Link.Laws.{OnlyAllowed, leftover-none_iff}
use docker_net_dhcp_lab.Scenario.GroupD.Link.{find_addr6, leftover, pio_lft}
use docker_net_dhcp_lab.Scenario.GroupF.Options.{is_some}
use docker_net_dhcp_lab.Scenario.GroupD.Wire6.{Lease6, Addr6, sampled, Dhcp6Msg}
use docker_net_dhcp_lab.Prelude.{
  Option, Text, ◌≡◌, some, true, ok, arith, ◌↔◌, none, text_eq_iff, ◌∷◌, inl, to_lower, [], inr,
  Option-cases, false, Result-cases, All, eq_text,
}
use docker_net_dhcp_lab.Scenario.GroupD.Slaac.{
  refuse_other, refuse_asking, slaac_formed, eui64, judge_d2, d2_chain, Reason, formed,
}
use docker_net_dhcp_lab.Labyaml.Netip.{Addr, eq_prefix}
use docker_net_dhcp_lab.Scenario.GroupD.Slaac.{
  refuse_lease, last_auto_pio, D2Obs, Auto, check_formed, ra_before, has_suffix,
}

-- the address of the advertised prefix and the hardware address, alone on the link in both reads,
-- after an advertisement, with lifetimes that count down, in docker inspect, and in no lease
pub record Formed (show : Addr → Text) (o : D2Obs) (s : Auto) (want : Addr) : Type 0 where
  pub settled : Addr6
  pub at_start : is_some (find_addr6 o.start.addrs want) ≡ true
  pub advertised : ra_before o.ras s.pio.prefix o.start.at ≡ true
  pub start_only : OnlyAllowed (want ∷ []) o.start.addrs
  pub settled_only : OnlyAllowed (want ∷ []) o.settled.addrs
  pub once_settled : find_addr6 o.settled.addrs want ≡ some settled
  pub valid_within :
      pio_lft settled.valid s.pio.valid s.max_valid s.last.at (sampled o.settled) ≡ true
  pub pref_within : pio_lft settled.pref s.pio.pref s.max_pref s.last.at (sampled o.settled) ≡ true
  pub inspected : o.inspect ≡ show want
  pub unleased : All (λ l. has_suffix l.duid (to_lower o.mac) ≡ false) o.leases

extra-ok_iff : (want : Addr) (e : Option Addr) → (refuse_other want e ≡ ok tt) ↔ (e ≡ none)
unfolding refuse_other
extra-ok_iff want none = ground arith
extra-ok_iff want (some a) = ground arith

refuse_lease-ok_iff :
    (mac : Text) (want : Addr) (l : Lease6)
    → (refuse_lease mac want l ≡ ok tt) ↔ (has_suffix l.duid (to_lower mac) ≡ false)
unfolding refuse_lease
refuse_lease-ok_iff mac want l = ground arith

module _ (show : Addr → Text) (o : D2Obs) (s : Auto) (want : Addr) where
  check_formed-Formed : check_formed show o s want ≡ ok tt → Formed show o s want
  unfolding check_formed
  check_formed-Formed h =
      let at_first = extra-ok_iff want (leftover o.start.addrs (want ∷ [])) in
      let later = extra-ok_iff want (leftover o.settled.addrs (want ∷ [])) in
      elim (Option-cases (find_addr6 o.settled.addrs want)) [
        | inl gone ↦ absurd (
            ground (
              arith,
              h,
              gone,
              Result-cases (refuse_other want (leftover o.start.addrs (want ∷ []))),
              Result-cases (refuse_other want (leftover o.settled.addrs (want ∷ []))),
            ))
        | inr (t, still) ↦ record {
          settled = t;
          at_start = ground (arith, h);
          advertised = ground (arith, h);
          start_only =
              (leftover-none_iff o.start.addrs (want ∷ [])).0 (at_first.0 (ground (arith, h)));
          settled_only =
              (leftover-none_iff o.settled.addrs (want ∷ [])).0 (later.0 (ground (arith, h)));
          once_settled = still;
          valid_within = ground (arith, h, still);
          pref_within = ground (arith, h, still);
          inspected = ground (arith, h, still, text_eq_iff o.inspect (show want));
          unleased =
              (check_each-all_iff (refuse_lease o.mac want) o.leases
                  (refuse_lease-ok_iff o.mac want)).0
                (ground (arith, h, still));
        }
      ]

  Formed-check_formed : Formed show o s want → check_formed show o s want ≡ ok tt
  unfolding check_formed
  Formed-check_formed g = ground (
    arith,
    g.at_start,
    g.advertised,
    g.once_settled,
    g.valid_within,
    g.pref_within,
    g.inspected,
    text_eq_iff o.inspect (show want),
    (extra-ok_iff want (leftover o.start.addrs (want ∷ []))).1
        ((leftover-none_iff o.start.addrs (want ∷ [])).1 g.start_only),
    (extra-ok_iff want (leftover o.settled.addrs (want ∷ []))).1
        ((leftover-none_iff o.settled.addrs (want ∷ [])).1 g.settled_only),
    (check_each-all_iff (refuse_lease o.mac want) o.leases (refuse_lease-ok_iff o.mac want)).1
        g.unleased,
  )

refuse_asking-ok_iff :
    (m : Dhcp6Msg) → (refuse_asking m ≡ ok tt) ↔ (asks_for_address6 m.type ≡ false)
unfolding refuse_asking
refuse_asking-ok_iff m = ground arith

-- the first autonomous prefix, the address that it forms, and what the reads show of it
abbrev pub FormedBy : (Addr → Text) → (Text → Option Text) → D2Obs → Type 0
FormedBy show parse_mac o =
    (s : Auto) × (last_auto_pio o ≡ some s)
    × Chosen (sightings o.settled.at o.ras) s
    × ((want : Addr) × (eui64 parse_mac s.pio.prefix o.mac ≡ ok want) × Formed show o s want)

module _ (show : Addr → Text) (parse_mac : Text → Option Text) (o : D2Obs) where
  pub slaac_formed-FormedBy :
      (r : Reason) → slaac_formed show parse_mac o ≡ ok r → FormedBy show parse_mac o
  unfolding slaac_formed
  slaac_formed-FormedBy r h = elim (Option-cases (last_auto_pio o)) [
    | inl none_seen ↦ absurd (ground (arith, h, none_seen))
    | inr (s, seen) ↦ elim (Result-cases (eui64 parse_mac s.pio.prefix o.mac)) [
      | inl (e, bad) ↦ absurd (ground (arith, h, seen, bad))
      | inr (want, good) ↦ (
        s,
        seen,
        last_auto_pio-Chosen o s seen,
        (want, good, check_formed-Formed show o s want (ground (arith, h, seen, good))),
      )
    ]
  ]

  pub FormedBy-slaac_formed :
      FormedBy show parse_mac o → (r : Reason) × (slaac_formed show parse_mac o ≡ ok r)
  unfolding slaac_formed
  FormedBy-slaac_formed (s, seen, chosen, (want, good, g)) =
      (formed want s.pio.prefix, ground (arith, seen, good, Formed-check_formed show o s want g))

  -- `judgeD2` passes exactly when no message asks for an address and the first autonomous prefix that
  -- was advertised by the settled read forms, with the hardware address, an address that is alone on
  -- the link in both reads, after an advertisement of the prefix, with lifetimes that count down from
  -- the last advertisement of it and stay below the largest ones, shown by docker inspect, and with no
  -- lease for the hardware address.
  pub judge_d2-pass_iff :
      ((judge_d2 show parse_mac o).result ≡ pass)
      ↔ (All (λ m. asks_for_address6 m.type ≡ false) o.msgs × FormedBy show parse_mac o)
  unfolding judge_d2 d2_chain
  judge_d2-pass_iff =
      let quiet = check_each-all_iff refuse_asking o.msgs refuse_asking-ok_iff in
      (
        (λ h.
            let (r, e) = (close-pass_iff (d2_chain show parse_mac o)).0 h in
            (quiet.0 (ground (arith, e)), slaac_formed-FormedBy r (ground (arith, e)))),
        λ (q, f).
            let (r, e) = FormedBy-slaac_formed f in
            (close-pass_iff (d2_chain show parse_mac o)).1 (r, ground (arith, e, quiet.1 q)),
      )
