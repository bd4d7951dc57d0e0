-- ===== src/Scenario/GroupD/Withdrawn/Laws.antt =====
-- `judgeD4bDrop` and `judgeD4bExpired` against the plugin's reference on a prefix that ceases.
use docker_net_dhcp_lab.Scenario.Judging.{close-pass_iff, check_each-all_iff, check_each}
use docker_net_dhcp_lab.Scenario.GroupD.Routes.{route_for}
use docker_net_dhcp_lab.Scenario.Outcome.{pass}
use docker_net_dhcp_lab.Scenario.GroupF.Options.{is_some}
use docker_net_dhcp_lab.Scenario.GroupD.Link.{is_forever, above}
use docker_net_dhcp_lab.Scenario.GroupD.Wire6.{Addr6, Read, RaMsg, sampled}
use docker_net_dhcp_lab.Labyaml.Netip.{Prefix, Parsers, eq_prefix}
use docker_net_dhcp_lab.Scenario.GroupD.Withdrawn.{
  refuse_uncut, refuse_route, refuse_carrying, check_left, counts_down, check_second,
  judge_d4b_drop, find_formed, refuse_lost, judge_d4b_expired, last_seen, outlasts, not_positive,
  expired_chain, two_hours, drop_chain, min_span, int_leb, last_read, zero_advertised, expired,
  kept,
}
use docker_net_dhcp_lab.Prelude.{
  Option, none, some, List, ◌∷◌, All, ◌≡◌, refl, ◌↔◌, Text, ok, inl, inr, Option-cases, ltb, arith,
  true, false, ℕ, Result-cases, ◌+◌, Bool, any, Bool-cases, ◌==◌, eq_text,
}

-- the address is on the link: its lifetime is finite, above zero and below that of the first read
pub record Falling (found : Option Addr6) (r0 last : Read) (x : Addr6) : Type 0 where
  pub y : Addr6
  pub at_first : found ≡ some y
  pub alive : not_positive x.valid ≡ false
  pub long_enough : ltb last.at (sampled r0 + min_span) ≡ false
  pub fell : int_leb y.valid x.valid ≡ false

-- the address left, and the last read that held it showed a lifetime that has run out since
pub record RanOut (seen : Option (Addr6 × ℕ)) (last : Read) : Type 0 where
  pub y : Addr6
  pub from : ℕ
  pub was_held : seen ≡ some (y, from)
  pub finite : is_forever y.valid ≡ false
  pub ran_out : outlasts y.valid from (sampled last) ≡ false

module _ (parse_mac : Text → Option Text) (mac : Text) (second : Prefix) where
  pub Followed : Read → Read → List Read → Option Addr6 → Type 0
  Followed r0 last reads (some x) = Falling (find_formed parse_mac mac second r0.addrs) r0 last x
  Followed r0 last reads none = RanOut (last_seen parse_mac mac second none reads) last

  counts_down-ok_iff :
      (r0 last : Read) (x : Addr6)
      → (counts_down parse_mac mac second r0 last x ≡ ok tt)
        ↔ Falling (find_formed parse_mac mac second r0.addrs) r0 last x
  unfolding counts_down
  counts_down-ok_iff r0 last x = (
    (λ h. elim (Option-cases (find_formed parse_mac mac second r0.addrs)) [
      | inl gone ↦ absurd (ground (arith, h, gone, Bool-cases (not_positive x.valid)))
      | inr (y, e) ↦ record {
        y = y;
        at_first = e;
        alive = ground (arith, h, e);
        long_enough = ground (arith, h, e);
        fell = ground (arith, h, e);
      }
    ]),
    λ f. ground (arith, f.at_first, f.alive, f.long_enough, f.fell),
  )

  check_left-ok_iff :
      (last : Read) (seen : Option (Addr6 × ℕ))
      → (check_left second last seen ≡ ok tt) ↔ RanOut seen last
  unfolding check_left
  check_left-ok_iff last none =
      (λ h. absurd (ground (arith, h)), λ r. absurd (ground (arith, r.was_held)))
  check_left-ok_iff last (some (y, from)) = (
    (λ h. record {
      y = y;
      from = from;
      was_held = refl;
      finite = ground (arith, h);
      ran_out = ground (arith, h);
    }),
    λ r. ground (arith, r.was_held, r.finite, r.ran_out),
  )

  check_second-ok_iff :
      (r0 last : Read) (reads : List Read) (found : Option Addr6)
      → (check_second parse_mac mac second r0 last reads found ≡ ok tt)
        ↔ Followed r0 last reads found
  unfolding check_second Followed
  check_second-ok_iff r0 last reads (some x) = counts_down-ok_iff r0 last x
  check_second-ok_iff r0 last reads none =
      check_left-ok_iff last (last_seen parse_mac mac second none reads)

-- no lifetime is left, or a finite one of at most two hours
pub Cut : Option Addr6 → Type 0
Cut none = Unit
Cut (some x) = (is_forever x.valid ≡ false) × (above x.valid two_hours ≡ false)

refuse_uncut-ok_iff :
    (second : Prefix) (found : Option Addr6) → (refuse_uncut second found ≡ ok tt) ↔ Cut found
unfolding Cut
refuse_uncut-ok_iff second none = (λ _. tt, λ _. refl)
refuse_uncut-ok_iff second (some x) = ground arith

refuse_route-ok_iff :
    (second : Prefix) (route : Option Text) → (refuse_route second route ≡ ok tt) ↔ (route ≡ none)
refuse_route-ok_iff second none = ground arith
refuse_route-ok_iff second (some line) = ground arith

refuse_lost-ok_iff :
    (second : Prefix) (kept : Bool) (route : Option Text)
    → (refuse_lost second kept route ≡ ok tt) ↔ (kept ≡ true → is_some route ≡ true)
refuse_lost-ok_iff second false route = ground arith
refuse_lost-ok_iff second true none = ground arith
refuse_lost-ok_iff second true (some line) = ground arith

refuse_carrying-ok_iff :
    (second : Prefix) (ra : RaMsg)
    → (refuse_carrying second ra ≡ ok tt) ↔ (any (λ p. p.prefix == second) ra.pios ≡ false)
unfolding refuse_carrying
refuse_carrying-ok_iff second ra = ground arith

module _ (k : Parsers) (parse_mac : Text → Option Text) (ras : List RaMsg) (routes : Text)
    (second : Prefix) (mac : Text) where
  -- `judgeD4bExpired` passes exactly when an advertisement carries the prefix with a lifetime of zero,
  -- its address is gone or has a finite lifetime of at most two hours, and no route leads to it.
  pub judge_d4b_expired-pass_iff :
      (as_read : List Addr6)
      → ((judge_d4b_expired k parse_mac ras as_read routes second mac).result ≡ pass) ↔ (
          (zero_advertised second ras ≡ true)
          × Cut (find_formed parse_mac mac second as_read)
          × (route_for k routes second ≡ none))
  unfolding judge_d4b_expired expired_chain
  judge_d4b_expired-pass_iff as_read =
      let chain = close-pass_iff (expired_chain k parse_mac ras as_read routes second mac) in
      let uncut = refuse_uncut-ok_iff second (find_formed parse_mac mac second as_read) in
      let route = refuse_route-ok_iff second (route_for k routes second) in
      (
        (λ h.
            let (r, e) = chain.0 h in
            (
              ground (arith, e),
              uncut.0 (ground (arith, e, Bool-cases (zero_advertised second ras))),
              route.0 (
                  ground (
                    arith,
                    e,
                    Bool-cases (zero_advertised second ras),
                    Result-cases (refuse_uncut second (find_formed parse_mac mac second as_read)),
                  )),
            )),
        λ (z, c, g). chain.1 (expired second, ground (arith, z, uncut.1 c, route.1 g)),
      )

  -- `judgeD4bDrop`, on at least one advertisement and one read after the drop, passes exactly when no
  -- advertisement carries the second prefix, the last read holds the address of the first prefix, that
  -- of the second counts down or has left as its lifetime ran out, and the route to it is kept where
  -- the plugin keeps it.
  pub judge_d4b_drop-pass_iff :
      (r : Read) (rs : List Read) (p : Prefix) (route_kept : Bool) (ra : RaMsg)
      → ((judge_d4b_drop k parse_mac (ra ∷ ras) (r ∷ rs) routes p second mac route_kept).result
          ≡ pass)
        ↔ (All (λ m. any (λ o. o.prefix == second) m.pios ≡ false) (ra ∷ ras)
            × (is_some (find_formed parse_mac mac p (last_read r rs).addrs) ≡ true)
            × Followed parse_mac mac second r
                (last_read r rs)
                (r ∷ rs)
                (find_formed parse_mac mac second (last_read r rs).addrs)
            × (route_kept ≡ true → is_some (route_for k routes second) ≡ true))
  unfolding judge_d4b_drop drop_chain
  judge_d4b_drop-pass_iff r rs p route_kept ra =
      let last = last_read r rs in
      let found = find_formed parse_mac mac second last.addrs in
      let chain =
        close-pass_iff
          (drop_chain k parse_mac (ra ∷ ras) (r ∷ rs) routes p second mac route_kept) in
      let dropped =
        check_each-all_iff (refuse_carrying second) (ra ∷ ras) (refuse_carrying-ok_iff second) in
      let followed = check_second-ok_iff parse_mac mac second r last (r ∷ rs) found in
      let lost = refuse_lost-ok_iff second route_kept (route_for k routes second) in
      (
        (λ h.
            let (c, e) = chain.0 h in
            elim (Option-cases (find_formed parse_mac mac p last.addrs)) [
              | inl gone ↦ absurd (
                  ground
                    (arith, e, gone, Result-cases (check_each (refuse_carrying second) (ra ∷ ras))))
              | inr (a, held) ↦ (
                dropped.0 (ground (arith, e, held)),
                ground (arith, held),
                followed.0 (ground (arith, e, held)),
                lost.0 (ground (arith, e, held)),
              )
            ]),
        λ (d, held, f, l). elim (Option-cases (find_formed parse_mac mac p last.addrs)) [
          | inl gone ↦ absurd (ground (arith, held, gone))
          | inr (a, e) ↦
              chain.1
                (kept second route_kept, ground (arith, e, dropped.1 d, followed.1 f, lost.1 l))
        ],
      )
