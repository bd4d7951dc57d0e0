-- ===== src/Scenario/GroupE/Tally.antt =====
-- internal/scenario/groupe_judge.go: what a source's log counts, and what both judges share.
pub mod Laws
pub mod Aligned
use docker_net_dhcp_lab.Prelude.{
  ℕ, ◌+◌, Bool, true, false, not, Option, none, some, List, [], ◌∷◌, ◌++◌, nat_eq, if◌then◌else◌, ℤ,
  exceeds, ◌==◌, contains, Text, to_lower, eq_text, eq_pair,
}
use docker_net_dhcp_lab.Scenario.Wire.{MsgType, ack, release, decline, nak, DhcpMsg, ServerEvent}
use docker_net_dhcp_lab.Scenario.Outcome.{Outcome, stopped}
use docker_net_dhcp_lab.Scenario.GroupE.Exchange.{
  Class, bound, renew, resume, other, Start, WireExchange, wire_exchanges,
}
use docker_net_dhcp_lab.Scenario.GroupE.Windows.{
  Group, server_groups, exchange_groups, align_groups,
}
use docker_net_dhcp_lab.Scenario.GroupE.Reasons.{
  Fault, unclassified, release_excess, Reason, no_server_ack, no_wire_ack, unseen, disagree,
  no_renewal,
}

-- The results and the `seen` set of `eTally`.
pub record Tally : Type 0 where
  pub acks : List ServerEvent
  pub releases : ℕ
  pub declines : ℕ
  pub naks : ℕ
  pub seen : List (Text × Text)

-- the key of a release: Kea's transaction id and the hardware address, in lower case
unfoldable pub release_key : ServerEvent → Text × Text
release_key ev = (to_lower ev.tid, to_lower ev.mac)

-- the RELEASE case
unfoldable pub tally_release : Tally → ServerEvent → Tally
tally_release t ev =
    if ev.tid == []
    then record t { releases = t.releases + 1 }
    else if contains t.seen (release_key ev)
    then t
    else record t { releases = t.releases + 1; seen = t.seen ++ release_key ev ∷ [] }

unfoldable pub tally_type : MsgType → Tally → ServerEvent → Tally
unfolding tally_release
tally_type ack t ev = record t { acks = t.acks ++ ev ∷ [] }
tally_type release t ev = tally_release t ev
tally_type decline t ev = record t { declines = t.declines + 1 }
tally_type nak t ev = record t { naks = t.naks + 1 }
tally_type _ t ev = t

unfoldable pub tally_from : Tally → List ServerEvent → Tally
unfolding tally_type
tally_from t [] = t
tally_from t (ev ∷ evs) = tally_from (tally_type ev.type t ev) evs

abbrev pub tally_init : Tally
tally_init = record { acks = []; releases = 0; declines = 0; naks = 0; seen = [] }

-- `eTally`
unfoldable pub e_tally : List ServerEvent → Tally
unfolding tally_from
e_tally = tally_from tally_init

abbrev release_frame : MsgType → ℕ
release_frame release = 1
release_frame _ = 0

-- the loop of `eWireReleaseExcess`
unfoldable pub wire_releases : List DhcpMsg → ℕ
wire_releases [] = 0
wire_releases (m ∷ ms) = release_frame m.type + wire_releases ms

-- `eWireReleaseExcess`, no text being no fault
unfoldable pub e_wire_release_excess : List DhcpMsg → ℤ → List Fault
unfolding wire_releases
e_wire_release_excess wire sent =
    let n = wire_releases wire in if exceeds n sent then release_excess n sent ∷ [] else []

abbrev pub class_eq : Class → Class → Bool
class_eq bound bound = true
class_eq renew renew = true
class_eq resume resume = true
class_eq other other = true
class_eq _ _ = false

-- `eCount`
unfoldable pub e_count : List WireExchange → Class → ℕ
e_count [] c = 0
e_count (x ∷ xs) c = (if class_eq x.class c then 1 else 0) + e_count xs c

-- `eUnclassified`
unfoldable pub e_unclassified : List WireExchange → List Fault
e_unclassified [] = []
e_unclassified (x ∷ xs) =
    if class_eq x.class other
    then unclassified x.xid x.ip x.start ∷ e_unclassified xs
    else e_unclassified xs

-- the transaction of the first ACK whose request the capture lacks
unfoldable pub first_unseen : List WireExchange → Option Text
first_unseen [] = none
first_unseen (x ∷ xs) = if x.unseen then some x.xid else first_unseen xs

-- the last two tests of `eAligned`
align_block : List Group → List Group → List WireExchange → Option (Outcome Reason)
unfolding e_count
align_block sg wg ex =
    if not (align_groups sg wg)
    then some (stopped (disagree sg wg))
    else if nat_eq (e_count ex renew) 0
    then some (stopped no_renewal)
    else none

seen_block : Option Text → List ServerEvent → List WireExchange → Option (Outcome Reason)
unfolding align_block
seen_block (some xid) acks ex = some (stopped (unseen xid))
seen_block none acks ex = align_block (server_groups acks) (exchange_groups ex) ex

wire_block : List ServerEvent → List WireExchange → Option (Outcome Reason)
unfolding seen_block first_unseen
wire_block acks [] = some (stopped no_wire_ack)
wire_block acks (x ∷ xs) = seen_block (first_unseen (x ∷ xs)) acks (x ∷ xs)

-- `eAligned`: its `blk`, for the tallied ACKs and the exchanges of the wire
unfoldable pub e_aligned : List ServerEvent → List WireExchange → Option (Outcome Reason)
unfolding wire_block
e_aligned [] ex = some (stopped no_server_ack)
e_aligned (a ∷ acks) ex = wire_block (a ∷ acks) ex
