-- ===== src/Scenario/GroupF/Ipv6Only.antt =====
-- internal/scenario/groupf_judge.go: `judgeF2aWire`, `judgeF2bWire` and `judgeF2bControl`, option
-- 108 and the parameter request list (option 55) that asks for it.
pub mod Laws
use docker_net_dhcp_lab.Scenario.Outcome.{Outcome}
use docker_net_dhcp_lab.Scenario.GroupF.Options.{
  has, OptMsg, prl_asks, is_offer, client_msgs, is_request, is_ack, bytes_of, none_of, option_of,
  find_first,
}
use docker_net_dhcp_lab.Scenario.Judging.{Judged, Test, Halt, close, check_each, fails, blocks}
use docker_net_dhcp_lab.Prelude.{
  Text, List, eq_pair, ℕ, ◌+◌, Bool, not, ◌&&◌, ◌||◌, [], ◌∷◌, map, nat_eq, if◌then◌else◌, any,
  ◌==◌, contains, Result, ◌>>=◌, ◌>>◌, refuse_if, need, codes, eq_text, ok, err,
}

pub data Reason : Type 0 where
  asks_108 : Text → Text → Text → Reason
  no_request_list : Reason
  no_ack : Reason
  none_asked : ℕ → Reason
  other_client_got_108 : Text → Text → Reason
  no_offer_with_108 : Reason
  other_value : Text → Text → Text → Reason
  no_request_after : Text → Reason
  no_ack_after : Text → Reason
  ignored : Text → Text → Reason
  control_silent : Reason
  control_got_108 : Text → Text → Reason
  control_clean : Reason

-- the parameter request list names option 108
unfoldable pub asks_108_in : OptMsg → Bool
asks_108_in m = prl_asks (bytes_of (option_of 55 m)) 108

refuse_asking : OptMsg → Test Reason
unfolding asks_108_in
refuse_asking m =
    refuse_if (asks_108_in m) (fails (asks_108 m.type m.xid (bytes_of (option_of 55 m))))

-- the first loop of `judgeF2aWire`, which counts the messages with a list
unfoldable pub count_prl : List OptMsg → Result (Halt Reason) ℕ
unfolding has refuse_asking
count_prl [] = ok 0
count_prl (m ∷ cm) =
    let rest = count_prl cm in
    if has m 55 then refuse_asking m >> (rest >>= λ n. ok (n + 1)) else rest

-- its second loop: what a server sent unasked
unfoldable pub sent_unasked : List OptMsg → List (Text × Text)
unfolding has
sent_unasked [] = []
sent_unasked (m ∷ msgs) =
    let rest = sent_unasked msgs in
    if (is_offer m || is_ack m) && has m 108 then (m.type, m.xid) ∷ rest else rest

unfoldable pub f2a_chain : List OptMsg → Judged Reason
unfolding count_prl
f2a_chain msgs = count_prl (client_msgs msgs) >>= λ n.
    refuse_if (nat_eq n 0) (blocks no_request_list)
    >> (refuse_if (none_of msgs (codes "ACK")) (blocks no_ack) >> ok (none_asked n))

-- the note of an outcome, the messages it names
note_of : Judged Reason → List (Text × Text) → List (Text × Text)
note_of (err e) sent = []
note_of (ok r) sent = sent

-- `judgeF2aWire`; an empty note is an empty list
unfoldable pub judge_f2a_wire : List OptMsg → Outcome Reason × List (Text × Text)
unfolding f2a_chain note_of
judge_f2a_wire msgs = (close (f2a_chain msgs), note_of (f2a_chain msgs) (sent_unasked msgs))

-- the loops of `judgeF2bWire`
unfoldable pub never_asks : OptMsg → Test Reason
unfolding has asks_108_in
never_asks m =
    refuse_if (has m 55 && asks_108_in m)
      (fails (asks_108 m.type m.xid (bytes_of (option_of 55 m))))

unfoldable pub in_scope : List Text → OptMsg → Test Reason
unfolding has
in_scope xids m =
    refuse_if (has m 108 && not (contains xids m.xid)) (blocks (other_client_got_108 m.type m.xid))

unfoldable pub offers_108 : OptMsg → Bool
unfolding has
offers_108 m = is_offer m && has m 108

-- `m.XID == offered.XID && m.Type == "REQUEST"`, and the same for an ACK
abbrev pub requests_in : Text → OptMsg → Bool
requests_in xid m = m.xid == xid && is_request m

abbrev pub acks_in : Text → OptMsg → Bool
acks_in xid m = m.xid == xid && is_ack m

unfoldable pub f2b_after : List OptMsg → Text → OptMsg → Judged Reason
f2b_after msgs want offered =
    let got = bytes_of (option_of 108 offered) in
    refuse_if (not (got == want)) (blocks (other_value offered.xid got want))
    >> (refuse_if (not (any (requests_in offered.xid) msgs)) (fails (no_request_after offered.xid))
        >> (refuse_if (not (any (acks_in offered.xid) msgs)) (fails (no_ack_after offered.xid))
            >> ok (ignored offered.xid want)))

unfoldable pub f2b_chain : List OptMsg → List OptMsg → Text → Judged Reason
unfolding f2b_after offers_108
f2b_chain msgs all_msgs want =
    check_each never_asks (client_msgs msgs)
    >> (check_each (in_scope (map (λ m. m.xid) msgs)) all_msgs
        >> (need (find_first offers_108 msgs) (blocks no_offer_with_108) >>= f2b_after msgs want))

-- `judgeF2bWire`
unfoldable pub judge_f2b_wire : List OptMsg → List OptMsg → Text → Outcome Reason
unfolding f2b_chain
judge_f2b_wire msgs all_msgs want = close (f2b_chain msgs all_msgs want)

unfoldable pub clean_108 : OptMsg → Test Reason
unfolding has
clean_108 m = refuse_if (has m 108) (blocks (control_got_108 m.type m.xid))

unfoldable pub f2b_control_chain : List OptMsg → Judged Reason
f2b_control_chain control =
    refuse_if (none_of control (codes "ACK")) (blocks control_silent)
    >> (check_each clean_108 control >> ok control_clean)

-- `judgeF2bControl`
unfoldable pub judge_f2b_control : List OptMsg → Outcome Reason
unfolding f2b_control_chain
judge_f2b_control control = close (f2b_control_chain control)
