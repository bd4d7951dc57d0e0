-- ===== src/Scenario/GroupD/Lease.antt =====
-- internal/scenario/groupd_judge.go: `judgeD1` and `judgeD1Persistent`, a DHCPv6 lease in the
-- source's table, on the container's link, in docker inspect and on the wire. The exchange that the
-- code returns beside the outcome is that of `exchange6`. The text of an address is a parameter.
pub mod Laws
pub mod Persistent
use docker_net_dhcp_lab.Scenario.GroupD.Link.{find_addr6, is_forever, above, leftover, lft_within}
use docker_net_dhcp_lab.Scenario.Outcome.{Outcome}
use docker_net_dhcp_lab.Prelude.{
  Text, List, Option, Bool, ok, [], ℕ, err, ◌∷◌, none, ◌==◌, need, ℤ, some, refuse_if, any, true,
  codes, ◌&&◌, ltb, not, nat_eq, length, ◌>>=◌, contains, ◌||◌, eq_text, leb, ◌>>◌, false, ◌++◌,
  if◌then◌else◌,
}
use docker_net_dhcp_lab.Scenario.GroupD.Wire6.{
  lease_ta, lease_pd, LeaseType, RaMsg, Ia6, Lease6, Dhcp6Msg, Read, first_addr, lease_na, sampled,
}
use docker_net_dhcp_lab.Scenario.Judging.{Test, Judged, as_reason, fails, close, blocks}
use docker_net_dhcp_lab.Scenario.GroupD.Exchange6.{
  Reason as ExchangeReason, Exchange, exchange6, client, granting,
}
use docker_net_dhcp_lab.Labyaml.Netip.{Addr, eq_addr}

-- `d1Obs`; an error of the ping is its text
pub record D1Obs : Type 0 where
  pub msgs : List Dhcp6Msg
  pub ras : List RaMsg
  pub leases : List Lease6
  pub start : Read
  pub settled : Read
  pub inspect : Text
  pub route : Option Addr
  pub ping_error : Option Text
  pub extra_ta : Option Addr

pub data Reason : Type 0 where
  exchange_fault : ExchangeReason → Reason
  not_in_table : LeaseType → Option Addr → Text → Reason
  absent_at_start : Addr → Reason
  not_host_route : Addr → ℕ → Reason
  above_reply : Addr → ℤ → ℤ → Reason
  also_carries : Addr → Reason
  gone_once_settled : Addr → Reason
  still_forever : Addr → ℤ → ℤ → Reason
  not_counted_down : Addr → ℤ → ℤ → Reason
  inspect_differs : Text → Addr → Reason
  no_router : ℕ → Reason
  no_default_route : List Addr → Reason
  other_router : Addr → List Addr → Reason
  unanswered : Addr → Text → Reason
  leased : Addr → Text → Reason
  never_attached : Text → Reason

abbrev pub type_eq : LeaseType → LeaseType → Bool
type_eq lease_na lease_na = true
type_eq lease_ta lease_ta = true
type_eq lease_pd lease_pd = true
type_eq _ _ = false

-- the loop over the source's table
unfoldable pub in_table : List Lease6 → LeaseType → Text → Addr → Bool
in_table leases type duid a =
    any (λ l. type_eq l.type type && l.duid == duid && l.address == a) leases

abbrev pub allowed_by : Addr → Option Addr → List Addr
allowed_by a none = a ∷ []
allowed_by a (some ta) = a ∷ ta ∷ []

-- `routers`, on what the loop has appended
unfoldable pub routers_onto : List Addr → List RaMsg → List Addr
routers_onto seen [] = seen
routers_onto seen (ra ∷ ras) =
    if ltb 0 ra.router_lifetime && not (contains seen ra.src)
    then routers_onto (seen ++ ra.src ∷ []) ras
    else routers_onto seen ras

unfoldable pub refuse_extra : Option Addr → Test Reason
refuse_extra none = ok tt
refuse_extra (some a) = err (fails (also_carries a))

-- the tests on the two reads of the link
unfoldable pub check_link : D1Obs → Exchange → Addr → Ia6 → Test Reason
unfolding refuse_extra
check_link o x a na =
    let allowed = allowed_by a o.extra_ta in
    need (find_addr6 o.start.addrs a) (fails (absent_at_start a)) >>= λ s.
    refuse_if (not (nat_eq s.bits 128)) (fails (not_host_route a s.bits))
    >> (refuse_if
          ((not (is_forever s.valid) && above s.valid na.valid)
            || (not (is_forever s.pref) && above s.pref na.pref))
          (fails (above_reply a s.valid s.pref))
        >> (refuse_extra (leftover o.start.addrs allowed)
            >> (refuse_extra (leftover o.settled.addrs allowed)
                >> (need (find_addr6 o.settled.addrs a) (fails (gone_once_settled a)) >>= λ t.
                    refuse_if (is_forever t.valid || is_forever t.pref)
                      (fails (still_forever a t.valid t.pref))
                    >> refuse_if
                        (not (lft_within t.valid na.valid x.reply.at (sampled o.settled))
                          || not (lft_within t.pref na.pref x.reply.at (sampled o.settled)))
                        (fails (not_counted_down a t.valid t.pref))))))

unfoldable pub check_gateway : Option Addr → List Addr → Test Reason
check_gateway none routers = err (fails (no_default_route routers))
check_gateway (some via) routers =
    refuse_if (not (contains routers via)) (fails (other_router via routers))

unfoldable pub refuse_silent : Addr → Option Text → Test Reason
refuse_silent a none = ok tt
refuse_silent a (some e) = err (fails (unanswered a e))

-- the tests on the default route and the ping
unfoldable pub check_route : D1Obs → Addr → Test Reason
unfolding check_gateway refuse_silent
check_route o a =
    let routers = routers_onto [] o.ras in
    refuse_if (nat_eq (length routers) 0) (blocks (no_router (length o.ras)))
    >> (check_gateway o.route routers >> refuse_silent a o.ping_error)

-- the code reads an invalid address as one that no lease has
abbrev pub addr_of : Option (Addr × Ia6) → Option Addr
addr_of none = none
addr_of (some (a, ia)) = some a

unfoldable pub d1_tests : (Addr → Text) → D1Obs → Exchange → Judged Reason
unfolding check_link check_route
d1_tests show o x =
    need (first_addr x.reply.na) (fails (not_in_table lease_na none x.duid)) >>= λ (a, na).
    refuse_if (not (in_table o.leases lease_na x.duid a))
      (fails (not_in_table lease_na (some a) x.duid))
    >> (check_link o x a na
        >> (refuse_if (not (o.inspect == show a)) (fails (inspect_differs o.inspect a))
            >> (check_route o a >> ok (leased a x.duid))))

unfoldable pub d1_chain : (Addr → Text) → D1Obs → Judged Reason
unfolding d1_tests
d1_chain show o = as_reason exchange_fault (exchange6 o.msgs) >>= d1_tests show o

-- `judgeD1`
unfoldable pub judge_d1 : (Addr → Text) → D1Obs → Outcome Reason
unfolding d1_chain
judge_d1 show o = close (d1_chain show o)

-- `leaseAt`, the time of the first Reply that grants an address
unfoldable pub lease_at : List Dhcp6Msg → Option ℕ
lease_at [] = none
lease_at (m ∷ msgs) = if granting m then some m.at else lease_at msgs

-- without such a Reply `leaseAt` is the zero time, before every other
abbrev pub after_lease : Option ℕ → ℕ → Bool
after_lease none t = true
after_lease (some at) t = ltb at t

-- a Confirm, Renew or Rebind after the lease and no later than the settled read
unfoldable pub attaches : Option ℕ → ℕ → Dhcp6Msg → Bool
attaches at end m =
    (m.type == codes "CONFIRM" || m.type == codes "RENEW" || m.type == codes "REBIND")
    && after_lease at m.at
    && leb m.at end

unfoldable pub persistent_chain : (Addr → Text) → D1Obs → Judged Reason
unfolding attaches
persistent_chain show o = as_reason exchange_fault (exchange6 o.msgs) >>= λ x.
    refuse_if (not (any (attaches (lease_at x.msgs) (sampled o.settled)) (client x)))
      (fails (never_attached x.duid))
    >> d1_chain show o

-- `judgeD1Persistent`
unfoldable pub judge_d1_persistent : (Addr → Text) → D1Obs → Outcome Reason
unfolding persistent_chain
judge_d1_persistent show o = close (persistent_chain show o)
