-- ===== src/Scenario/GroupD/Lease/Laws.antt =====
-- `judgeD1` against the plugin's reference: what a capture, a table and two reads must show.
use docker_net_dhcp_lab.Scenario.Judging.{close-pass_iff}
use docker_net_dhcp_lab.Scenario.Outcome.{pass}
use docker_net_dhcp_lab.Scenario.GroupD.Exchange6.Laws.{OneClient, exchange6-ok_iff}
use docker_net_dhcp_lab.Labyaml.Netip.{eq_addr}
use docker_net_dhcp_lab.Scenario.GroupD.Link.Laws.{
  leftover-none_iff, lft_within-finite, OnlyAllowed, finite_above,
}
use docker_net_dhcp_lab.Scenario.GroupD.Link.{find_addr6, above, leftover, lft_within}
use docker_net_dhcp_lab.Scenario.GroupD.Wire6.{RaMsg, Ia6, Addr6, sampled, first_addr, lease_na}
use docker_net_dhcp_lab.Labyaml.Netip.{Addr, addr_beq_iff}
use docker_net_dhcp_lab.Prelude.{
  List, Option, ◌≡◌, contains, ok, ◌||◌, ◌↔◌, Option-cases, any, arith, none, inl, some, ltb, inr,
  ◌&&◌, false, Result-cases, ◌==◌, true, [], ◌∷◌, ◌++◌, Bool-cases, contains_single,
  contains-append, eq_text, nat_eq, Text, length, text_eq_iff,
}
use docker_net_dhcp_lab.Scenario.GroupD.Exchange6.{Exchange, exchange6}
use docker_net_dhcp_lab.Scenario.GroupD.Lease.{
  routers_onto, check_link, D1Obs, refuse_extra, allowed_by, check_route, judge_d1, d1_tests,
  Reason, leased, d1_chain, check_gateway, in_table, refuse_silent,
}

contains-routers_onto :
    (seen : List Addr) (ras : List RaMsg) (a : Addr)
    → contains (routers_onto seen ras) a
      ≡ (contains seen a || any (λ ra. ltb 0 ra.router_lifetime && ra.src == a) ras)
unfolding routers_onto
contains-routers_onto seen [] a = ground arith
contains-routers_onto seen (ra ∷ ras) a = elim (Bool-cases (ltb 0 ra.router_lifetime)) [
  | inr ended ↦ ground (arith, ended, contains-routers_onto seen ras a)
  | inl lives ↦ elim (Bool-cases (contains seen ra.src)) [
    | inl old ↦ ground (arith, lives, old, contains-routers_onto seen ras a, addr_beq_iff ra.src a)
    | inr new ↦ ground (
      arith,
      lives,
      new,
      contains-routers_onto (seen ++ ra.src ∷ []) ras a,
      contains-append seen (ra.src ∷ []) a,
      contains_single ra.src a,
    )
  ]
]

-- the leased address on the link: a host route, with lifetimes that the Reply allows, finite and
-- counted down once settled, and no global address beside the allowed ones in either read
pub record OnLink (o : D1Obs) (x : Exchange) (a : Addr) (na : Ia6) : Type 0 where
  pub first : Addr6
  pub second : Addr6
  pub at_start : find_addr6 o.start.addrs a ≡ some first
  pub host_route : first.bits ≡ 128
  pub valid_allowed : above first.valid na.valid ≡ false
  pub pref_allowed : above first.pref na.pref ≡ false
  pub start_only : OnlyAllowed (allowed_by a o.extra_ta) o.start.addrs
  pub settled_only : OnlyAllowed (allowed_by a o.extra_ta) o.settled.addrs
  pub once_settled : find_addr6 o.settled.addrs a ≡ some second
  pub valid_within : lft_within second.valid na.valid x.reply.at (sampled o.settled) ≡ true
  pub pref_within : lft_within second.pref na.pref x.reply.at (sampled o.settled) ≡ true

refuse_extra-ok_iff : (e : Option Addr) → (refuse_extra e ≡ ok tt) ↔ (e ≡ none)
unfolding refuse_extra
refuse_extra-ok_iff none = ground arith
refuse_extra-ok_iff (some a) = ground arith

check_link-OnLink :
    (o : D1Obs) (x : Exchange) (a : Addr) (na : Ia6) → check_link o x a na ≡ ok tt → OnLink o x a na
unfolding check_link
check_link-OnLink o x a na h = elim (Option-cases (find_addr6 o.start.addrs a)) [
  | inl absent ↦ absurd (ground (arith, h, absent))
  | inr (s, here) ↦
      let allowed = allowed_by a o.extra_ta in
      let none_extra = refuse_extra-ok_iff (leftover o.start.addrs allowed) in
      let none_later = refuse_extra-ok_iff (leftover o.settled.addrs allowed) in
      elim (Option-cases (find_addr6 o.settled.addrs a)) [
        | inl gone ↦ absurd (
            ground (
              arith,
              h,
              here,
              gone,
              Result-cases (refuse_extra (leftover o.start.addrs allowed)),
              Result-cases (refuse_extra (leftover o.settled.addrs allowed)),
            ))
        | inr (t, still) ↦ record {
          first = s;
          second = t;
          at_start = here;
          host_route = ground (arith, h, here);
          valid_allowed = ground (arith, h, here, finite_above s.valid na.valid);
          pref_allowed = ground (arith, h, here, finite_above s.pref na.pref);
          start_only =
              (leftover-none_iff o.start.addrs allowed).0 (none_extra.0 (ground (arith, h, here)));
          settled_only =
              (leftover-none_iff o.settled.addrs allowed).0
                (none_later.0 (ground (arith, h, here)));
          once_settled = still;
          valid_within = ground (arith, h, here, still);
          pref_within = ground (arith, h, here, still);
        }
      ]
]

OnLink-check_link :
    (o : D1Obs) (x : Exchange) (a : Addr) (na : Ia6) → OnLink o x a na → check_link o x a na ≡ ok tt
unfolding check_link refuse_extra
OnLink-check_link o x a na g =
    let allowed = allowed_by a o.extra_ta in
    ground (
      arith,
      g.at_start,
      g.host_route,
      g.valid_allowed,
      g.pref_allowed,
      g.once_settled,
      g.valid_within,
      g.pref_within,
      (leftover-none_iff o.start.addrs allowed).1 g.start_only,
      (leftover-none_iff o.settled.addrs allowed).1 g.settled_only,
      lft_within-finite g.second.valid na.valid x.reply.at (sampled o.settled) g.valid_within,
      lft_within-finite g.second.pref na.pref x.reply.at (sampled o.settled) g.pref_within,
    )

-- the default route goes by a router that the capture shows with a lifetime, and the ping answered
pub record Routed (o : D1Obs) : Type 0 where
  pub via : Addr
  pub route : o.route ≡ some via
  pub advertised : any (λ ra. ltb 0 ra.router_lifetime && ra.src == via) o.ras ≡ true
  pub answered : o.ping_error ≡ none

-- a list that holds something is not empty
filled : (xs : List Addr) (a : Addr) → contains xs a ≡ true → nat_eq (length xs) 0 ≡ false
unfolding contains
filled [] a h = absurd (ground (arith, h))
filled (x ∷ xs) a h = ground arith

check_route-Routed : (o : D1Obs) (a : Addr) → check_route o a ≡ ok tt → Routed o
unfolding check_route check_gateway refuse_silent contains
check_route-Routed o a h = elim (Option-cases o.route) [
  | inl unset ↦ absurd (ground (arith, h, unset))
  | inr (via, e) ↦ elim (Option-cases o.ping_error) [
    | inr (text, silent) ↦ absurd (ground (arith, h, e, silent))
    | inl fine ↦ record {
      via = via;
      route = e;
      advertised = ground (arith, h, e, contains-routers_onto [] o.ras via);
      answered = fine;
    }
  ]
]

Routed-check_route : (o : D1Obs) (a : Addr) → Routed o → check_route o a ≡ ok tt
unfolding check_route check_gateway refuse_silent contains
Routed-check_route o a g =
    let found : contains (routers_onto [] o.ras) g.via ≡ true =
      ground (arith, g.advertised, contains-routers_onto [] o.ras g.via) in
    ground (arith, g.route, g.answered, found, filled (routers_onto [] o.ras) g.via found)

-- the exchange of the only client, its address in the table, on the link, in docker inspect, and the
-- default route
pub record Leased (show : Addr → Text) (o : D1Obs) (x : Exchange) : Type 0 where
  pub a : Addr
  pub na : Ia6
  pub client : OneClient o.msgs x
  pub first : first_addr x.reply.na ≡ some (a, na)
  pub tabled : in_table o.leases lease_na x.duid a ≡ true
  pub on_link : OnLink o x a na
  pub inspected : o.inspect ≡ show a
  pub routed : Routed o

module _ (show : Addr → Text) (o : D1Obs) (x : Exchange) where
  d1_tests-Leased : (r : Reason) → OneClient o.msgs x → d1_tests show o x ≡ ok r → Leased show o x
  unfolding d1_tests
  d1_tests-Leased r one h = elim (Option-cases (first_addr x.reply.na)) [
    | inl bare ↦ absurd (ground (arith, h, bare))
    | inr ((a, na), e) ↦ record {
      a = a;
      na = na;
      client = one;
      first = e;
      tabled = ground (arith, h, e);
      on_link = check_link-OnLink o x a na (ground (arith, h, e));
      inspected = ground (arith, h, e, text_eq_iff o.inspect (show a));
      routed = check_route-Routed o a (ground (arith, h, e));
    }
  ]

  d1_tests_ok : (g : Leased show o x) → d1_tests show o x ≡ ok (leased g.a x.duid)
  unfolding d1_tests
  d1_tests_ok g = ground (
    arith,
    g.first,
    g.tabled,
    OnLink-check_link o x g.a g.na g.on_link,
    g.inspected,
    text_eq_iff o.inspect (show g.a),
    Routed-check_route o g.a g.routed,
  )

  pub d1_chain-Leased :
      (r : Reason) → exchange6 o.msgs ≡ ok x → d1_chain show o ≡ ok r → Leased show o x
  unfolding d1_chain
  d1_chain-Leased r one h =
      d1_tests-Leased r ((exchange6-ok_iff o.msgs x).0 one) (ground (arith, h, one))

  pub d1_chain_ok : (g : Leased show o x) → d1_chain show o ≡ ok (leased g.a x.duid)
  unfolding d1_chain
  d1_chain_ok g = rw ((exchange6-ok_iff o.msgs x).1 g.client) (d1_tests_ok g)

-- `judgeD1` passes exactly when the capture shows one client and a Reply that grants it an address,
-- the source's table holds that address for its DUID, the link holds it as a /128 with lifetimes that
-- the Reply allows and, once settled, counted down, and no other global address, docker inspect shows
-- it, the default route goes by a router that advertised a lifetime, and the address answers.
pub judge_d1-pass_iff :
    (show : Addr → Text) (o : D1Obs)
    → ((judge_d1 show o).result ≡ pass) ↔ ((x : Exchange) × Leased show o x)
unfolding judge_d1 d1_chain
judge_d1-pass_iff show o = (there, back)
  where
    there : (judge_d1 show o).result ≡ pass → (x : Exchange) × Leased show o x
    there h =
        let (r, e) = (close-pass_iff (d1_chain show o)).0 h in
        elim (Result-cases (exchange6 o.msgs)) [
          | inl (f, stops) ↦ absurd (ground (arith, e, stops))
          | inr (x, one) ↦ (x, d1_chain-Leased show o x r one e)
        ]

    back : (x : Exchange) × Leased show o x → (judge_d1 show o).result ≡ pass
    back (x, g) = (close-pass_iff (d1_chain show o)).1 (leased g.a x.duid, d1_chain_ok show o x g)
