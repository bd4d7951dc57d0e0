-- ===== src/Scenario/GroupF/RapidCommit/Laws.antt =====
-- `judgeF3Wire` against the exchanges that RFC 4039 and the plugin's reference describe.
use docker_net_dhcp_lab.Scenario.Outcome.{pass}
use docker_net_dhcp_lab.Scenario.Judging.{
  keep, refuse_if-ok_iff, check_each-all_iff, close-pass_iff,
}
use docker_net_dhcp_lab.Scenario.GroupF.RapidCommit.{
  predates, exchange, sequence, f3_exchange, four, f3_present, two, f3_without, carries, f3_rapid,
  f3_plain, Reason, judge_f3_wire, four_after_rapid, f3_chain, four_messages, two_messages,
}
use docker_net_dhcp_lab.Prelude.{
  Bool, List, All, ◌≡◌, ◌↔◌, inl, inr, true, false, some, [], ◌∷◌, arith, Bool-cases, ◌==◌, eq_self,
  Text, eq_text, ok, text_eq_iff, Option-cases, text_eq_self,
}
use docker_net_dhcp_lab.Scenario.GroupF.Options.{
  find_first, OptMsg, is_ack, has, is_discover, is_offer,
}

-- the first ACK that the code dereferences is there
pub find_first-exchange :
    (msgs : List OptMsg) (a : OptMsg)
    → find_first is_ack msgs ≡ some a
    → find_first is_ack (exchange a.xid msgs) ≡ some a
unfolding find_first exchange keep
find_first-exchange [] a h = ground arith
find_first-exchange (m ∷ msgs) a h = elim (Bool-cases (is_ack m)) [
  | inl yes_ack ↦ ground (arith, yes_ack, eq_self m.xid)
  | inr other ↦ ground (arith, other, find_first-exchange msgs a)
]

-- what the exchange looks like, by the feature and by the server
abbrev pub Rapid : Bool → Bool → List OptMsg → OptMsg → OptMsg → Type 0
Rapid false server ex d a = All (λ m. has m 80 ≡ false) ex × (sequence ex ≡ four)
Rapid true true ex d a = (has d 80 ≡ true) × (sequence ex ≡ two) × (has a 80 ≡ true)
Rapid true false ex d a =
    (has d 80 ≡ true) × (sequence ex ≡ four) × (carries (find_first is_offer ex) 80 ≡ false)

-- the exchange that the first ACK ends: its first DISCOVER, and the option and the messages in it
pub record Exchanged (present server : Bool) (msgs : List OptMsg) : Type 0 where
  pub ack : OptMsg
  pub disc : OptMsg
  pub ends : find_first is_ack msgs ≡ some ack
  pub named : (ack.xid == []) ≡ false
  pub starts : find_first is_discover (exchange ack.xid msgs) ≡ some disc
  pub rapid : Rapid present server (exchange ack.xid msgs) disc ack

predates-ok_iff : (m : OptMsg) → (predates m ≡ ok tt) ↔ (has m 80 ≡ false)
unfolding predates
predates-ok_iff m = refuse_if-ok_iff (has m 80) _

f3_rules :
    (present server : Bool) (xid : Text) (ex : List OptMsg) (d a : OptMsg) (r : Reason)
    → find_first is_ack ex ≡ some a
    → find_first is_discover ex ≡ some d
    → f3_exchange present server xid ex ≡ ok r
    → Rapid present server ex d a
unfolding f3_exchange f3_present f3_without f3_rapid f3_plain carries
f3_rules false server xid ex d a r _ hd h =
    ground
      (arith, h, hd, text_eq_iff (sequence ex) four, check_each-all_iff predates ex predates-ok_iff)
f3_rules true true xid ex d a r ha hd h = ground (arith, h, hd, ha, text_eq_iff (sequence ex) two)
f3_rules true false xid ex d a r ha hd h = ground (arith, h, hd, text_eq_iff (sequence ex) four)

f3_passes :
    (present server : Bool) (xid : Text) (ex : List OptMsg) (d a : OptMsg)
    → find_first is_ack ex ≡ some a
    → find_first is_discover ex ≡ some d
    → Rapid present server ex d a
    → (r : Reason) × (f3_exchange present server xid ex ≡ ok r)
unfolding f3_exchange f3_present f3_without f3_rapid f3_plain carries
f3_passes false server xid ex d a _ hd g = (
  four_messages xid,
  ground (
    arith,
    g,
    hd,
    text_eq_iff (sequence ex) four,
    check_each-all_iff predates ex predates-ok_iff,
  ),
)
f3_passes true true xid ex d a ha hd g =
    (two_messages xid, ground (arith, g, hd, ha, text_eq_iff (sequence ex) two))
f3_passes true false xid ex d a ha hd g =
    (four_after_rapid xid, ground (arith, g, hd, text_eq_iff (sequence ex) four))

-- `judgeF3Wire` passes exactly when the capture has an ACK with an xid, the exchange of that xid has
-- a DISCOVER, and the exchange follows the rules: without the feature four messages and no option
-- 80; with it, option 80 in the DISCOVER, and two messages with option 80 in the ACK from a server
-- that knows it, or four messages and no option 80 in the OFFER from one that does not.
pub judge_f3_wire-pass_iff :
    (present server : Bool) (msgs : List OptMsg)
    → ((judge_f3_wire present server msgs).result ≡ pass) ↔ Exchanged present server msgs
unfolding judge_f3_wire f3_chain
judge_f3_wire-pass_iff present server msgs = (there, back)
  where
    there : (judge_f3_wire present server msgs).result ≡ pass → Exchanged present server msgs
    there h =
        let (r, e) = (close-pass_iff (f3_chain present server msgs)).0 h in
        elim (Option-cases (find_first is_ack msgs)) [
          | inl silent ↦ absurd (ground (arith, e, silent, text_eq_self []))
          | inr (a, ha) ↦
              let f : f3_exchange present server a.xid (exchange a.xid msgs) ≡ ok r =
                ground (arith, e, ha) in
              elim (Option-cases (find_first is_discover (exchange a.xid msgs))) [
                | inl no_start ↦ absurd (ground (arith, f, no_start))
                | inr (d, hd) ↦ record {
                  ack = a;
                  disc = d;
                  ends = ha;
                  named = ground (arith, e, ha);
                  starts = hd;
                  rapid =
                      f3_rules present server a.xid (exchange a.xid msgs) d a r
                        (find_first-exchange msgs a ha) hd f;
                }
              ]
        ]

    back : Exchanged present server msgs → (judge_f3_wire present server msgs).result ≡ pass
    back g =
        let (r, e) =
          f3_passes present server g.ack.xid (exchange g.ack.xid msgs) g.disc g.ack
            (find_first-exchange msgs g.ack g.ends) g.starts g.rapid in
        (close-pass_iff (f3_chain present server msgs)).1 (r, ground (arith, g.ends, g.named, e))
