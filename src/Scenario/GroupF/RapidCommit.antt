-- ===== src/Scenario/GroupF/RapidCommit.antt =====
-- internal/scenario/groupf_judge.go: `judgeF3Wire`, option 80 and the two or four messages of the
-- exchange that the first ACK ends.
pub mod Laws
use docker_net_dhcp_lab.Scenario.Outcome.{Outcome}
use docker_net_dhcp_lab.Scenario.Judging.{Test, Judged, keep, check_each, fails, blocks, close}
use docker_net_dhcp_lab.Scenario.GroupF.Options.{
  join_words, has, OptMsg, collapse, is_discover, is_ack, is_offer, find_first,
}
use docker_net_dhcp_lab.Prelude.{
  Option, Text, Bool, ℕ, false, not, none, some, List, [], map, if◌then◌else◌, ◌==◌, ◌>>=◌, ◌>>◌,
  refuse_if, need, codes, eq_text, ok,
}

pub data Reason : Type 0 where
  no_ack : Reason
  no_discover_for : Text → List Text → Reason
  option_80_unexpected : Text → Text → Reason
  without_rapid_commit : Text → Text → Reason
  four_messages : Text → Reason
  no_option_80 : Text → Reason
  not_two_messages : Text → Text → Reason
  not_echoed : Text → Reason
  two_messages : Text → Reason
  not_unchanged : Text → Text → Reason
  server_answers : Text → Reason
  four_after_rapid : Text → Reason

-- the messages of one xid
unfoldable pub exchange : Text → List OptMsg → List OptMsg
exchange xid msgs = keep (λ m. m.xid == xid) msgs

-- `seq`, joined
unfoldable pub sequence : List OptMsg → Text
unfolding join_words collapse
sequence ex = join_words (collapse (map (λ m. m.type) ex))

abbrev pub four : Text
four = codes "DISCOVER OFFER REQUEST ACK"

abbrev pub two : Text
two = codes "DISCOVER ACK"

-- `m != nil && m.Has(code)`
unfoldable pub carries : Option OptMsg → ℕ → Bool
unfolding has
carries none code = false
carries (some m) code = has m code

unfoldable pub predates : OptMsg → Test Reason
unfolding has
predates m = refuse_if (has m 80) (blocks (option_80_unexpected m.type m.xid))

unfoldable pub f3_without : Text → List OptMsg → Judged Reason
f3_without xid ex =
    check_each predates ex
    >> (refuse_if (not (sequence ex == four)) (fails (without_rapid_commit xid (sequence ex)))
        >> ok (four_messages xid))

-- The ACK that the code dereferences is the first of the exchange, which has one.
unfoldable pub f3_rapid : Text → List OptMsg → Judged Reason
f3_rapid xid ex =
    refuse_if (not (sequence ex == two)) (fails (not_two_messages xid (sequence ex)))
    >> (refuse_if (not (carries (find_first is_ack ex) 80)) (fails (not_echoed xid))
        >> ok (two_messages xid))

unfoldable pub f3_plain : Text → List OptMsg → Judged Reason
f3_plain xid ex =
    refuse_if (not (sequence ex == four)) (fails (not_unchanged xid (sequence ex)))
    >> (refuse_if (carries (find_first is_offer ex) 80) (blocks (server_answers xid))
        >> ok (four_after_rapid xid))

unfoldable pub f3_present : Bool → Text → OptMsg → List OptMsg → Judged Reason
unfolding has f3_rapid f3_plain
f3_present server_rapid xid disc ex =
    refuse_if (not (has disc 80)) (fails (no_option_80 xid))
    >> (if server_rapid then f3_rapid xid ex else f3_plain xid ex)

unfoldable pub f3_exchange : Bool → Bool → Text → List OptMsg → Judged Reason
unfolding f3_without f3_present
f3_exchange present server_rapid xid ex =
    need (find_first is_discover ex)
      (blocks (no_discover_for xid (collapse (map (λ m. m.type) ex))))
    >>= λ disc. if present then f3_present server_rapid xid disc ex else f3_without xid ex

-- `ackXID`, empty without an ACK
abbrev pub xid_of : Option OptMsg → Text
xid_of none = []
xid_of (some m) = m.xid

unfoldable pub f3_chain : Bool → Bool → List OptMsg → Judged Reason
unfolding f3_exchange
f3_chain present server_rapid msgs =
    let xid = xid_of (find_first is_ack msgs) in
    refuse_if (xid == []) (blocks no_ack)
    >> f3_exchange present server_rapid xid (exchange xid msgs)

-- `judgeF3Wire`
unfoldable pub judge_f3_wire : Bool → Bool → List OptMsg → Outcome Reason
unfolding f3_chain
judge_f3_wire present server_rapid msgs = close (f3_chain present server_rapid msgs)
