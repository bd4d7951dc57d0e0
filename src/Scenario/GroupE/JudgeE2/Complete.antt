-- ===== src/Scenario/GroupE/JudgeE2/Complete.antt =====
-- internal/scenario/groupe_judge.go: `judgeE2` passes wherever what a PASS asserts holds.
use docker_net_dhcp_lab.Scenario.Wire.{DhcpMsg}
use docker_net_dhcp_lab.Scenario.Outcome.{pass}
use docker_net_dhcp_lab.Scenario.GroupE.Exchange.{WireExchange, wire_exchanges}
use docker_net_dhcp_lab.Scenario.GroupE.Reasons.{
  Counter, leases_obtained, leases_renewed, lease_changed, renewals_unanswered, dhcp_timeouts,
  naks_received, releases_sent,
}
use docker_net_dhcp_lab.Scenario.GroupE.Tally.{e_tally, e_wire_release_excess, wire_releases}
use docker_net_dhcp_lab.Scenario.GroupE.Tally.Aligned.{e_aligned_iff, e_unclassified_iff}
use docker_net_dhcp_lab.Scenario.GroupE.JudgeE2.Views.{v4, views_disagree_iff, e2_names}
use docker_net_dhcp_lab.Scenario.GroupE.JudgeE2.{
  E2Obs, delta, counter_block, counters_block, eq_fault, flat_fault, is_nak, nak_faults,
  grant_faults, count_faults, flat_faults, address_faults, e2_faults, judge_counters, judge_e2,
}
use docker_net_dhcp_lab.Scenario.GroupE.JudgeE2.Laws.{Counted, Matches, E2Holds, judge_e2-pass}
use docker_net_dhcp_lab.Prelude.{
  ℕ, ◌≤◌, ◌≡◌, refl, ◌↔◌, false, none, List, [], ◌∷◌, arith, any, All, eq_self, ne-eq-false, Text,
  eq_text, pos, not, ◌||◌, ◌==◌, text_eq_iff,
}

counter_block-Counted :
    (o : E2Obs) (c : Counter)
    → Counted o c
    → counter_block c (o.before (v4 c)) (o.after (v4 c)) ≡ none
unfolding counter_block
counter_block-Counted o c k = rw (k.at_first, k.at_last) (ground (arith, k.grown))

counters_block-Counted :
    (o : E2Obs) (cs : List Counter) → All (Counted o) cs → counters_block o cs ≡ none
unfolding counters_block
counters_block-Counted o [] h = refl
counters_block-Counted o (c ∷ cs) (k, ks) =
    ground (arith, counter_block-Counted o c k, counters_block-Counted o cs ks)

eq_fault-none : (o : E2Obs) (c : Counter) (n : ℕ) → delta o c ≡ n → eq_fault o c n ≡ []
unfolding eq_fault
eq_fault-none o c n h = ground arith

flat_fault-none : (o : E2Obs) (c : Counter) → delta o c ≡ 0 → flat_fault o c ≡ []
unfolding flat_fault
flat_fault-none o c h = ground arith

excess-none :
    (ms : List DhcpMsg) (n : ℕ) → wire_releases ms ≤ n → e_wire_release_excess ms (pos n) ≡ []
unfolding e_wire_release_excess
excess-none ms n h = ground arith

nak_faults-none : (ms : List DhcpMsg) → any (λ m. is_nak m.type) ms ≡ false → nak_faults ms ≡ []
unfolding nak_faults
nak_faults-none [] h = refl
nak_faults-none (m ∷ ms) h = ground (arith, nak_faults-none ms)

grant_faults-none :
    (a : Text) (xs : List WireExchange) → All (λ x. x.ip ≡ a) xs → grant_faults a xs ≡ []
unfolding grant_faults
grant_faults-none a [] h = refl
grant_faults-none a (x ∷ xs) (k, ks) = rw (k, eq_self a) (grant_faults-none a xs ks)

address_faults-none :
    (o : E2Obs) (xs : List WireExchange)
    → o.addr_before ≡ o.addr_after
    → All (λ x. x.ip ≡ o.address) xs
    → address_faults o xs ≡ []
unfolding address_faults
address_faults-none o xs e h = rw (e, eq_self o.addr_after, grant_faults-none o.address xs h) refl

count_faults-none :
    (o : E2Obs) → Matches o → count_faults o (e_tally o.server) (wire_exchanges o.wire) ≡ []
unfolding count_faults
count_faults-none o m =
    rw
      (
        eq_fault-none o leases_obtained _ m.obtained,
        eq_fault-none o leases_renewed _ m.renewals,
        eq_fault-none o releases_sent _ m.released,
        excess-none o.wire _ m.sent,
      )
      (eq_fault-none o naks_received _ m.refused)

flat_faults-none : (o : E2Obs) → Matches o → flat_faults o ≡ []
unfolding flat_faults
flat_faults-none o m =
    rw
      (
        flat_fault-none o dhcp_timeouts m.no_timeout,
        flat_fault-none o renewals_unanswered m.answered,
      )
      (flat_fault-none o lease_changed m.unchanged)

Matches-e2_faults :
    (o : E2Obs) → Matches o → e2_faults o (e_tally o.server) (wire_exchanges o.wire) ≡ []
unfolding e2_faults
Matches-e2_faults o m =
    rw
      (
        count_faults-none o m,
        nak_faults-none o.wire m.no_nak,
        flat_faults-none o m,
        (e_unclassified_iff (wire_exchanges o.wire)).1 m.classified,
        address_faults-none o (wire_exchanges o.wire) m.kept m.granted,
      )
      ((views_disagree_iff o.after o.health).1 m.one_view)

judge_counters-Matches :
    (o : E2Obs)
    → E2Holds o
    → (judge_counters
        (counters_block o e2_names)
        o
        (e_tally o.server)
        (wire_exchanges o.wire)).result
      ≡ pass
unfolding judge_counters
judge_counters-Matches o h =
    rw
      (
        counters_block-Counted o e2_names h.counted,
        (e_aligned_iff (e_tally o.server).acks (wire_exchanges o.wire)).1 h.witnessed,
        Matches-e2_faults o h.agrees,
      )
      refl

judge_e2_complete : (o : E2Obs) → E2Holds o → (judge_e2 o).result ≡ pass
unfolding judge_e2
judge_e2_complete o h = simp same (judge_counters-Matches o h)
  where
    same : (o.instance_before == [] || not (o.instance_before == o.instance_after)) ≡ false
    same = ground (
      arith,
      ne-eq-false o.instance_before [] h.running,
      (text_eq_iff o.instance_before o.instance_after).1 h.same_instance,
    )

-- `judgeE2` passes exactly when one plugin instance ran through the window, all seven counters were
-- read twice and did not fall, the witnesses bear each other out, and the counters, the addresses
-- and the two views match what the log and the wire show.
pub judge_e2-pass_iff : (o : E2Obs) → ((judge_e2 o).result ≡ pass) ↔ E2Holds o
judge_e2-pass_iff o = (judge_e2-pass o, judge_e2_complete o)
