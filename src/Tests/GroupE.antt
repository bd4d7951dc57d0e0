-- ===== src/Tests/GroupE.antt =====
-- internal/scenario/groupe_judge.go: a window with a bound lease, one renewal and a release.
use docker_net_dhcp_lab.Scenario.Wire.{
  MsgType, discover, request, ack, release, DhcpMsg, ServerEvent, LedgerEntry,
}
use docker_net_dhcp_lab.Scenario.Outcome.{pass, fail, blocked, stopped}
use docker_net_dhcp_lab.Scenario.GroupE.Exchange.{
  bound, renew, discover_start, unicast_renewal, WireExchange, wire_exchanges,
}
use docker_net_dhcp_lab.Scenario.GroupE.Exchange.Laws.{Follows, wire_exchanges-Follows}
use docker_net_dhcp_lab.Scenario.GroupE.Windows.{
  Group, window_groups, align_groups, server_groups, exchange_groups,
}
use docker_net_dhcp_lab.Scenario.GroupE.Windows.Laws.{
  lines_of, stamps, Apart, window_groups-lines_of, window_groups-Apart,
}
use docker_net_dhcp_lab.Scenario.GroupE.Reasons.{
  Counter, leases_obtained, leases_renewed, releases_sent, no_wire_ack,
}
use docker_net_dhcp_lab.Scenario.GroupE.Tally.{e_tally, e_aligned, release_key, e_unclassified}
use docker_net_dhcp_lab.Scenario.GroupE.Tally.Aligned.{Witnessed, e_aligned_iff, e_aligned-blocked}
use docker_net_dhcp_lab.Scenario.GroupE.JudgeE1.{
  E1Obs, judge_e1, read_ledger, e1_faults, wire_story,
}
use docker_net_dhcp_lab.Scenario.GroupE.JudgeE1.Laws.{E1Holds, judge_e1-pass_iff}
use docker_net_dhcp_lab.Scenario.GroupE.JudgeE2.{E2Obs, judge_e2, counters_block, e2_faults}
use docker_net_dhcp_lab.Scenario.GroupE.JudgeE2.Views.{v4, v6, both, Series, views_disagree}
use docker_net_dhcp_lab.Scenario.GroupE.JudgeE2.Laws.{E2Holds}
use docker_net_dhcp_lab.Scenario.GroupE.JudgeE2.Complete.{judge_e2-pass_iff}
use docker_net_dhcp_lab.Prelude.{
  ℕ, ◌*◌, ◌≡◌, refl, ◌↔◌, false, none, some, List, [], ◌∷◌, ◌++◌, map, contains, count, lookup,
  Text, codes, text_eq, has_prefix, to_lower, eq_text, pos,
}

abbrev lease : Text
lease = codes "10.200.1.50"

abbrev second : ℕ
second = 1000000000

abbrev message : ℕ → MsgType → Text → Text → DhcpMsg
message at type xid yiaddr = record {
  at = at;
  type = type;
  xid = xid;
  server = [];
  requested = [];
  ciaddr = [];
  yiaddr = yiaddr;
  dst = codes "255.255.255.255";
}

abbrev wire : List DhcpMsg
wire =
    message second discover (codes "x1") []
    ∷ message second request (codes "x1") []
    ∷ message second ack (codes "x1") lease
    ∷ (record (message (100 * second) request (codes "x2") []) {
      ciaddr = lease;
      dst = codes "10.200.1.2";
    })
    ∷ message (100 * second) ack (codes "x2") lease
    ∷ message (101 * second) ack (codes "x2") lease
    ∷ message (200 * second) release (codes "x3") []
    ∷ []

abbrev line : ℕ → MsgType → Text → ServerEvent
line at type tid = record {
  at = at;
  type = type;
  mac = codes "02:00:00:00:00:01";
  ip = lease;
  tid = tid;
}

abbrev log : List ServerEvent
log =
    line second ack []
    ∷ line (100 * second) ack []
    ∷ line (200 * second) release (codes "0x3")
    ∷ line (200 * second) release (codes "0X3")
    ∷ []

abbrev entry : Text → LedgerEntry
entry kind = record { kind = kind; ip = lease }

abbrev e1_obs : E1Obs
e1_obs = record {
  server = log;
  ledger = entry (codes "bound") ∷ entry (codes "renew") ∷ entry (codes "stopped") ∷ [];
  ledger_absent = false;
  wire = wire;
  releases_sent = pos 1;
}

e1_passes : (judge_e1 e1_obs).result ≡ pass
unfolding judge_e1 text_eq contains lookup has_prefix to_lower e_aligned e_tally release_key
    wire_exchanges align_groups server_groups exchange_groups read_ledger e1_faults e_unclassified
    wire_story
e1_passes = refl

e1_without_renewal_fails :
    (judge_e1 (record e1_obs { ledger = entry (codes "bound") ∷ [] })).result ≡ fail
unfolding judge_e1 text_eq contains lookup has_prefix to_lower e_aligned e_tally release_key
    wire_exchanges align_groups server_groups exchange_groups read_ledger e1_faults e_unclassified
e1_without_renewal_fails = refl

judge_e1-pass_iff_example : ((judge_e1 e1_obs).result ≡ pass) ↔ E1Holds e1_obs
judge_e1-pass_iff_example = judge_e1-pass_iff e1_obs

abbrev at_zero : Series
at_zero (v4 c) = some 0
at_zero (v6 c) = some 0
at_zero (both c) = some 0

abbrev one_each : Counter → ℕ
one_each leases_obtained = 1
one_each leases_renewed = 1
one_each releases_sent = 1
one_each _ = 0

abbrev at_end : Series
at_end (v4 c) = some (one_each c)
at_end (v6 c) = some 0
at_end (both c) = some (one_each c)

abbrev e2_obs : E2Obs
e2_obs = record {
  server = log;
  wire = wire;
  before = at_zero;
  after = at_end;
  health = at_end;
  instance_before = codes "i1";
  instance_after = codes "i1";
  addr_before = lease;
  addr_after = lease;
  address = lease;
}

e2_passes : (judge_e2 e2_obs).result ≡ pass
unfolding judge_e2 text_eq contains lookup has_prefix to_lower counters_block e_aligned e_tally
    release_key wire_exchanges align_groups server_groups exchange_groups e2_faults e_unclassified
    views_disagree
e2_passes = refl

e2_moved_counter_fails : (judge_e2 (record e2_obs { after = at_zero })).result ≡ fail
unfolding judge_e2 text_eq contains lookup has_prefix to_lower counters_block e_aligned e_tally
    release_key wire_exchanges align_groups server_groups exchange_groups e2_faults
e2_moved_counter_fails = refl

judge_e2-pass_iff_example : ((judge_e2 e2_obs).result ≡ pass) ↔ E2Holds e2_obs
judge_e2-pass_iff_example = judge_e2-pass_iff e2_obs

abbrev first_exchange : WireExchange
first_exchange = record {
  xid = codes "x1";
  class = bound;
  ip = lease;
  start = discover_start;
  at = second;
  unseen = false;
}

abbrev second_exchange : WireExchange
second_exchange = record {
  xid = codes "x2";
  class = renew;
  ip = lease;
  start = unicast_renewal;
  at = 100 * second;
  unseen = false;
}

two_exchanges : wire_exchanges wire ≡ (first_exchange ∷ []) ++ second_exchange ∷ []
unfolding wire_exchanges text_eq contains lookup
two_exchanges = refl

wire_exchanges-Follows_example : Follows (first_exchange ∷ []) second_exchange
wire_exchanges-Follows_example =
    wire_exchanges-Follows wire (first_exchange ∷ []) [] second_exchange two_exchanges

abbrev stamped : List (Text × ℕ)
stamped = (lease, second) ∷ (lease, 2 * second) ∷ (lease, 100 * second) ∷ []

abbrev early : Group
early = record { ip = lease; first = second; lines = 2 }

abbrev late : Group
late = record { ip = lease; first = 100 * second; lines = 1 }

two_groups : window_groups stamped ≡ (early ∷ []) ++ late ∷ []
unfolding window_groups text_eq lookup
two_groups = refl

window_groups-lines_of_example :
    lines_of lease (window_groups stamped) ≡ count lease (map (λ x. x.0) stamped)
window_groups-lines_of_example = window_groups-lines_of stamped lease

window_groups-Apart_example : Apart (stamps (early ∷ [])) (lease, 100 * second)
window_groups-Apart_example = window_groups-Apart stamped (early ∷ []) [] late two_groups

e_aligned_iff_example :
    (e_aligned (e_tally log).acks (wire_exchanges wire) ≡ none)
    ↔ Witnessed (e_tally log).acks (wire_exchanges wire)
e_aligned_iff_example = e_aligned_iff (e_tally log).acks (wire_exchanges wire)

nothing_captured : e_aligned (line second ack [] ∷ []) [] ≡ some (stopped no_wire_ack)
unfolding e_aligned
nothing_captured = refl

e_aligned-blocked_example : (stopped no_wire_ack).result ≡ blocked
e_aligned-blocked_example =
    e_aligned-blocked (line second ack [] ∷ []) [] (stopped no_wire_ack) nothing_captured
