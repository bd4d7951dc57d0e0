-- ===== src/Scenario/GroupE/JudgeE2.antt =====
-- internal/scenario/groupe_judge.go: `judgeE2`, the plugin's counters against the source's log and
-- the wire. A counter is read as decimal digits, so it is a natural number.
pub mod Views
pub mod Laws
pub mod Complete
use docker_net_dhcp_lab.Prelude.{
  ℕ, ◌-◌, Bool, true, false, not, ◌||◌, Option, none, some, List, [], ◌∷◌, ◌++◌, ltb, nat_eq,
  if◌then◌else◌, ◌==◌, Text, eq_text, pos,
}
use docker_net_dhcp_lab.Scenario.Wire.{MsgType, nak, DhcpMsg, ServerEvent}
use docker_net_dhcp_lab.Scenario.Outcome.{Outcome, passed, failed, stopped}
use docker_net_dhcp_lab.Scenario.GroupE.Exchange.{bound, renew, WireExchange, wire_exchanges}
use docker_net_dhcp_lab.Scenario.GroupE.Reasons.{
  conclude, Counter, leases_obtained, leases_renewed, lease_changed, renewals_unanswered,
  dhcp_timeouts, naks_received, releases_sent, Fault, moved, nak_on_wire, not_flat, address_changed,
  granted_other, Reason, instance_changed, series_missing, restarted, faults, e2_story,
}
use docker_net_dhcp_lab.Scenario.GroupE.Tally.{
  Tally, e_tally, e_wire_release_excess, e_count, e_unclassified, e_aligned,
}
use docker_net_dhcp_lab.Scenario.GroupE.JudgeE2.Views.{
  Key, v4, Series, value_of, views_disagree, e2_names,
}

-- `e2Obs`
pub record E2Obs : Type 0 where
  pub server : List ServerEvent
  pub wire : List DhcpMsg
  pub before : Series
  pub after : Series
  pub health : Series
  pub instance_before : Text
  pub instance_after : Text
  pub addr_before : Text
  pub addr_after : Text
  pub address : Text

-- `delta[n]`, once the loop over the counters has let both readings through
abbrev pub delta : E2Obs → Counter → ℕ
delta o c = value_of (o.after (v4 c)) - value_of (o.before (v4 c))

-- one round of the loop over `e2Names`: the early return, if there is one
counter_block : Counter → Option ℕ → Option ℕ → Option Reason
counter_block c (some b) (some a) = if ltb a b then some (restarted c b a) else none
counter_block c _ _ = some (series_missing c)

unfoldable pub counters_block : E2Obs → List Counter → Option Reason
unfolding counter_block
counters_block o [] = none
counters_block o (c ∷ cs) = elim (counter_block c (o.before (v4 c)) (o.after (v4 c))) [
  | some r ↦ some r
  | none ↦ counters_block o cs
]

-- the closure `eq`
eq_fault : E2Obs → Counter → ℕ → List Fault
eq_fault o c want = if nat_eq (delta o c) want then [] else moved c (delta o c) want ∷ []

flat_fault : E2Obs → Counter → List Fault
flat_fault o c = if nat_eq (delta o c) 0 then [] else not_flat c (delta o c) ∷ []

abbrev is_nak : MsgType → Bool
is_nak nak = true
is_nak _ = false

nak_faults : List DhcpMsg → List Fault
nak_faults [] = []
nak_faults (m ∷ ms) = if is_nak m.type then nak_on_wire ∷ [] else nak_faults ms

grant_faults : Text → List WireExchange → List Fault
grant_faults address [] = []
grant_faults address (x ∷ xs) =
    if not (x.ip == address) then granted_other x.ip address ∷ [] else grant_faults address xs

-- the counters against the log and the wire
count_faults : E2Obs → Tally → List WireExchange → List Fault
unfolding eq_fault e_count e_wire_release_excess
count_faults o t ex =
    eq_fault o leases_obtained (e_count ex bound)
    ++ (eq_fault o leases_renewed (e_count ex renew)
        ++ (eq_fault o releases_sent t.releases
            ++ (e_wire_release_excess o.wire (pos (delta o releases_sent))
                ++ eq_fault o naks_received t.naks)))

flat_faults : E2Obs → List Fault
unfolding flat_fault
flat_faults o =
    flat_fault o dhcp_timeouts ++ (flat_fault o renewals_unanswered ++ flat_fault o lease_changed)

address_faults : E2Obs → List WireExchange → List Fault
unfolding grant_faults
address_faults o ex =
    (if not (o.addr_before == o.addr_after)
      then address_changed o.addr_before o.addr_after ∷ []
      else [])
    ++ grant_faults o.address ex

unfoldable pub e2_faults : E2Obs → Tally → List WireExchange → List Fault
unfolding count_faults nak_faults flat_faults address_faults
e2_faults o t ex =
    count_faults o t ex
    ++ (nak_faults o.wire
        ++ (flat_faults o
            ++ (e_unclassified ex ++ (address_faults o ex ++ views_disagree o.after o.health))))

judge_aligned : Option (Outcome Reason) → E2Obs → Tally → List WireExchange → Outcome Reason
unfolding conclude
judge_aligned (some b) o t ex = b
judge_aligned none o t ex =
    conclude (e2_faults o t ex)
      (passed (e2_story (delta o leases_obtained) (delta o leases_renewed) (delta o releases_sent)))

judge_counters : Option Reason → E2Obs → Tally → List WireExchange → Outcome Reason
unfolding judge_aligned
judge_counters (some r) o t ex = stopped r
judge_counters none o t ex = judge_aligned (e_aligned t.acks ex) o t ex

-- `judgeE2`
unfoldable pub judge_e2 : E2Obs → Outcome Reason
unfolding judge_counters
judge_e2 o =
    if o.instance_before == [] || not (o.instance_before == o.instance_after)
    then stopped (instance_changed o.instance_before o.instance_after)
    else judge_counters (counters_block o e2_names) o (e_tally o.server) (wire_exchanges o.wire)
