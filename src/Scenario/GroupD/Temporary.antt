-- ===== src/Scenario/GroupD/Temporary.antt =====
-- internal/scenario/groupd_judge.go: `judgeF5`, a temporary address beside the lease.
pub mod Laws
use docker_net_dhcp_lab.Scenario.GroupD.Link.{find_addr6, lft_within}
use docker_net_dhcp_lab.Scenario.GroupD.Rapid6.{differs}
use docker_net_dhcp_lab.Scenario.Outcome.{Outcome}
use docker_net_dhcp_lab.Scenario.Judging.{Test, Judged, close, as_reason, fails, check_each, blocks}
use docker_net_dhcp_lab.Prelude.{
  Text, Bool, Option, ◌==◌, ℤ, refuse_if, some, codes, ◌&&◌, ◌||◌, not, [], eq_text, ◌>>=◌, ◌>>◌,
  ltb, ok, length, need, none, ◌∷◌, nat_eq, if◌then◌else◌,
}
use docker_net_dhcp_lab.Scenario.GroupD.Wire6.{Dhcp6Msg, Ia6, first_addr, sampled, lease_ta}
use docker_net_dhcp_lab.Scenario.GroupD.Exchange6.{
  Reason as ExchangeReason, Exchange, exchange6, client,
}
use docker_net_dhcp_lab.Scenario.GroupD.Lease.{Reason as LeaseReason, D1Obs, d1_chain, in_table}
use docker_net_dhcp_lab.Labyaml.Netip.{Addr}

pub data Reason : Type 0 where
  exchange_fault : ExchangeReason → Reason
  lease_fault : LeaseReason → Reason
  ia_ta_is : Text → Bool → Reason
  unexpected : Addr → Bool → Bool → Reason
  not_granted : Reason
  no_health_entry : Reason
  shown_ungranted : Text → Reason
  without_temporary : Reason
  not_on_link : Addr → Reason
  not_counted_down : Addr → ℤ → ℤ → Reason
  not_in_table : Addr → Text → Reason
  health_differs : Text → Addr → Reason
  with_temporary : Addr → Reason

-- `strings.Cut(healthTA, "/")`, the part before
unfoldable pub before_slash : Text → Text
before_slash [] = []
before_slash (c ∷ s) = let rest = before_slash s in if nat_eq c b'/' then [] else c ∷ rest

-- a Solicit or a Request
unfoldable pub asks_lease : Dhcp6Msg → Bool
asks_lease m = m.type == codes "SOLICIT" || m.type == codes "REQUEST"

unfoldable pub check_ta : Bool → Dhcp6Msg → Test Reason
check_ta present m =
    refuse_if (asks_lease m && differs (ltb 0 (length m.ta)) present)
      (fails (ia_ta_is m.type present))

-- what the source granted: nothing it was not asked for, and not nothing where it has a pool
unfoldable pub check_granted : Bool → Option (Addr × Ia6) → Bool → Test Reason
check_granted present none server = refuse_if (present && server) (fails not_granted)
check_granted present (some (ta, ia)) server =
    refuse_if (not (present && server)) (blocks (unexpected ta present server))

-- `o.ExtraTA = ta.Addr`
unfoldable pub with_ta : Option (Addr × Ia6) → D1Obs → D1Obs
with_ta none o = o
with_ta (some (ta, ia)) o = record o { extra_ta = some ta }

unfoldable pub f5_end :
    (Addr → Text) → D1Obs → Exchange → Text → Option (Addr × Ia6) → Judged Reason
f5_end show o x got none =
    refuse_if (not (got == [])) (fails (shown_ungranted got)) >> ok without_temporary
f5_end show o x got (some (ta, ia)) =
    need (find_addr6 o.settled.addrs ta) (fails (not_on_link ta)) >>= λ s.
    refuse_if
      (not (lft_within s.valid ia.valid x.reply.at (sampled o.settled))
        || not (lft_within s.pref ia.pref x.reply.at (sampled o.settled)))
      (fails (not_counted_down ta s.valid s.pref))
    >> (refuse_if (not (in_table o.leases lease_ta x.duid ta)) (fails (not_in_table ta x.duid))
        >> (refuse_if (not (got == show ta)) (fails (health_differs got ta))
            >> ok (with_temporary ta)))

unfoldable pub f5_tests :
    (Addr → Text) → D1Obs → Bool → Bool → Bool → Text → Exchange → Judged Reason
unfolding check_ta check_granted f5_end
f5_tests show o present server found health x =
    let granted = first_addr x.reply.ta in
    check_each (check_ta present) (client x)
    >> (check_granted present granted server
        >> (as_reason lease_fault (d1_chain show (with_ta granted o)) >>= λ leased.
            refuse_if (present && not found) (fails no_health_entry)
            >> f5_end show o x (before_slash health) granted))

unfoldable pub f5_chain : (Addr → Text) → D1Obs → Bool → Bool → Bool → Text → Judged Reason
unfolding f5_tests
f5_chain show o present server found health =
    as_reason exchange_fault (exchange6 o.msgs) >>= f5_tests show o present server found health

-- `judgeF5`
unfoldable pub judge_f5 : (Addr → Text) → D1Obs → Bool → Bool → Bool → Text → Outcome Reason
unfolding f5_chain
judge_f5 show o present server found health = close (f5_chain show o present server found health)
