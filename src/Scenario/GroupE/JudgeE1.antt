-- ===== src/Scenario/GroupE/JudgeE1.antt =====
-- internal/scenario/groupe_judge.go: `judgeE1`, the plugin's audit ledger against the source's log.
pub mod Laws
use docker_net_dhcp_lab.Prelude.{
  ℕ, eq_pair, ◌+◌, Bool, true, false, not, ◌||◌, Option, none, some, List, [], ◌∷◌, ◌++◌, ltb,
  nat_eq, if◌then◌else◌, ℤ, is_pos, length, ◌==◌, Text, codes, has_prefix, eq_text,
}
use docker_net_dhcp_lab.Scenario.Wire.{DhcpMsg, ServerEvent, LedgerEntry}
use docker_net_dhcp_lab.Scenario.Outcome.{Outcome, passed, failed, stopped}
use docker_net_dhcp_lab.Scenario.GroupE.Exchange.{
  Class, bound, renew, resume, other, WireExchange, wire_exchanges,
}
use docker_net_dhcp_lab.Scenario.GroupE.Windows.{server_groups}
use docker_net_dhcp_lab.Scenario.GroupE.Reasons.{
  conclude, Fault, release_ledgered, counts_differ, order_differs, declined, releases_not_one,
  releases_differ, Reason, ledger_absent, unknown_kind, faults, e1_story,
}
use docker_net_dhcp_lab.Scenario.GroupE.Tally.{
  Tally, e_tally, e_wire_release_excess, e_count, e_unclassified, e_aligned,
}

-- `e1Obs`
pub record E1Obs : Type 0 where
  pub server : List ServerEvent
  pub ledger : List LedgerEntry
  pub ledger_absent : Bool
  pub wire : List DhcpMsg
  pub releases_sent : ℤ

-- `gotKinds` and `gotIPs`, which grow together, as one list of pairs
abbrev pub Story : Type 0
Story = List (Text × Text)

abbrev pub kind_bound : Text
kind_bound = codes "bound"

abbrev pub kind_renew : Text
kind_renew = codes "renew"

-- the constant that a class is in the source
abbrev pub class_text : Class → Text
class_text bound = kind_bound
class_text renew = kind_renew
class_text resume = codes "resume"
class_text other = codes "other"

-- What the loop over the ledger yields: an early return, or the story and the faults.
pub data LedgerRead : Type 0 where
  unreadable : Text → LedgerRead
  read : Story → List Fault → LedgerRead

abbrev add_entry : Text × Text → LedgerRead → LedgerRead
add_entry p (unreadable k) = unreadable k
add_entry p (read s fs) = read (p ∷ s) fs

abbrev add_fault : Fault → LedgerRead → LedgerRead
add_fault f (unreadable k) = unreadable k
add_fault f (read s fs) = read s (f ∷ fs)

unfoldable pub read_ledger : List LedgerEntry → LedgerRead
read_ledger [] = read [] []
read_ledger (l ∷ ls) =
    let rest = read_ledger ls in
    if has_prefix l.kind (codes "release")
    then add_fault (release_ledgered l.kind) rest
    else if l.kind == kind_bound || l.kind == kind_renew
    then add_entry (l.kind, l.ip) rest
    else if l.kind == codes "stopped" || l.kind == codes "stop_failed"
    then rest
    else unreadable l.kind

-- `wantKinds` and `wantIPs`
abbrev story_class : Class → Bool
story_class bound = true
story_class renew = true
story_class _ = false

unfoldable pub wire_story : List WireExchange → Story
wire_story [] = []
wire_story (x ∷ xs) =
    let rest = wire_story xs in
    if story_class x.class then (class_text x.class, x.ip) ∷ rest else rest

-- `countKind`
unfoldable pub count_kind : Story → Text → ℕ
count_kind [] k = 0
count_kind ((j, ip) ∷ s) k = (if j == k then 1 else 0) + count_kind s k

-- `strings.Join` with ", " of the pairs
join_pairs : Story → Text
join_pairs [] = []
join_pairs ((k, ip) ∷ []) = k ++ b' ' ∷ ip
join_pairs ((k, ip) ∷ p ∷ s) = k ++ b' ' ∷ ip ++ b',' ∷ b' ' ∷ join_pairs (p ∷ s)

-- `pairSeq`
unfoldable pub pair_seq : Story → Text
unfolding join_pairs
pair_seq s = b'[' ∷ join_pairs s ++ b']' ∷ []

-- the `switch` on the counts and the order
story_faults : Story → Story → ℕ → ℕ → List Fault
unfolding count_kind pair_seq
story_faults got want bounds renews =
    let gb = count_kind got kind_bound in
    let gr = count_kind got kind_renew in
    if not (nat_eq gb bounds) || not (nat_eq gr renews)
    then counts_differ gb gr bounds renews ∷ []
    else if not (pair_seq got == pair_seq want)
    then order_differs (pair_seq got) (pair_seq want) ∷ []
    else []

-- the tests on declines and releases
count_faults : Tally → ℤ → List Fault
count_faults t sent =
    (if ltb 0 t.declines then declined t.declines ∷ [] else [])
    ++ ((if not (nat_eq t.releases 1) then releases_not_one t.releases ∷ [] else [])
        ++ (if not (is_pos t.releases sent) then releases_differ t.releases sent ∷ [] else []))

unfoldable pub e1_faults : E1Obs → Tally → List WireExchange → Story → List Fault
unfolding story_faults count_faults e_wire_release_excess e_count
e1_faults o t ex got =
    e_unclassified ex
    ++ (story_faults got (wire_story ex) (e_count ex bound) (e_count ex renew)
        ++ (count_faults t o.releases_sent ++ e_wire_release_excess o.wire o.releases_sent))

judge_story : E1Obs → Tally → List WireExchange → LedgerRead → Outcome Reason
unfolding conclude
judge_story o t ex (unreadable k) = stopped (unknown_kind k)
judge_story o t ex (read got fs) =
    conclude (fs ++ e1_faults o t ex got)
      (passed (e1_story (pair_seq got) (length (server_groups t.acks))))

judge_aligned :
    Option (Outcome Reason) → E1Obs → Tally → List WireExchange → LedgerRead → Outcome Reason
unfolding judge_story
judge_aligned (some b) o t ex l = b
judge_aligned none o t ex l = judge_story o t ex l

-- `judgeE1`
unfoldable pub judge_e1 : E1Obs → Outcome Reason
unfolding judge_aligned
judge_e1 o =
    let t = e_tally o.server in
    let ex = wire_exchanges o.wire in
    if o.ledger_absent
    then stopped ledger_absent
    else judge_aligned (e_aligned t.acks ex) o t ex (read_ledger o.ledger)
