-- ===== src/Tests/GroupF.antt =====
-- internal/scenario/groupf_judge.go: captures of one identity with the options that the judges read.
use docker_net_dhcp_lab.Scenario.Judging.{keep, check_each}
use docker_net_dhcp_lab.Scenario.GroupF.Nonce.Laws.{Granted, judge_f8_ack-pass_iff}
use docker_net_dhcp_lab.Scenario.GroupF.UserClass.Laws.{CarriesClass, judge_f1_wire-pass_iff}
use docker_net_dhcp_lab.Scenario.GroupF.Ipv6Only.Laws.{Ignores, judge_f2b_wire-pass_iff}
use docker_net_dhcp_lab.Scenario.GroupF.RapidCommit.Laws.{Exchanged, judge_f3_wire-pass_iff}
use docker_net_dhcp_lab.Scenario.GroupF.ForceRenew.Laws.{Forced, judge_f8-pass_iff}
use docker_net_dhcp_lab.Scenario.Outcome.{fail, pass, blocked, passed}
use docker_net_dhcp_lab.Scenario.GroupF.Options.{
  OptMsg, none_of, client_msgs, user_class_bytes, prl_asks, find_first, of_type,
}
use docker_net_dhcp_lab.Scenario.Wire.{MsgType, DhcpMsg, request, other_type, ack}
use docker_net_dhcp_lab.Scenario.GroupF.UserClass.{judge_f1_wire}
use docker_net_dhcp_lab.Prelude.{
  ℕ, Text, List, true, false, ◌∷◌, codes, ◌≡◌, [], ◌↔◌, refl, some, text_eq, lookup, contains,
  eq_text,
}
use docker_net_dhcp_lab.Scenario.GroupF.Ipv6Only.{
  judge_f2a_wire, judge_f2b_control, judge_f2b_wire, none_asked, sent_unasked, never_asks, in_scope,
  clean_108,
}
use docker_net_dhcp_lab.Scenario.GroupF.ForceRenew.{
  judge_f8, F8Obs, obeyed, f8_find, requests_within,
}
use docker_net_dhcp_lab.Scenario.GroupF.Nonce.{judge_f8_control, judge_f8_ack, last_of}
use docker_net_dhcp_lab.Scenario.GroupF.RapidCommit.{
  judge_f3_wire, two_messages, exchange, sequence, carries,
}

abbrev optioned : Text → Text → List (ℕ × Text) → OptMsg
optioned type xid opts = record { at = 0; type = type; xid = xid; opts = opts }

abbrev red : Text
red = codes "red"

abbrev classed : List OptMsg
classed =
    optioned (codes "DISCOVER") (codes "x1") ((77, 3 ∷ red) ∷ [])
    ∷ optioned (codes "OFFER") (codes "x1") []
    ∷ optioned (codes "REQUEST") (codes "x1") ((77, 3 ∷ red) ∷ [])
    ∷ []

passes_class : (judge_f1_wire true red classed).result ≡ pass
unfolding judge_f1_wire none_of keep client_msgs text_eq check_each lookup user_class_bytes
passes_class = refl

fails_class : (judge_f1_wire true (codes "blue") classed).result ≡ fail
unfolding judge_f1_wire none_of keep client_msgs text_eq check_each lookup user_class_bytes
fails_class = refl

blocked_class : (judge_f1_wire false red classed).result ≡ blocked
unfolding judge_f1_wire none_of keep client_msgs text_eq check_each lookup
blocked_class = refl

judge_f1_wire-pass_iff_example :
    ((judge_f1_wire true red classed).result ≡ pass) ↔ CarriesClass true red classed
judge_f1_wire-pass_iff_example = judge_f1_wire-pass_iff true red classed

abbrev with_list : List OptMsg
with_list =
    optioned (codes "DISCOVER") (codes "x1") ((55, 1 ∷ 3 ∷ 6 ∷ []) ∷ [])
    ∷ optioned (codes "OFFER") (codes "x1") ((108, 0 ∷ 0 ∷ 7 ∷ 8 ∷ []) ∷ [])
    ∷ optioned (codes "REQUEST") (codes "x1") ((55, 1 ∷ 3 ∷ 6 ∷ []) ∷ [])
    ∷ optioned (codes "ACK") (codes "x1") []
    ∷ []

noted : judge_f2a_wire with_list ≡ (passed (none_asked 2), (codes "OFFER", codes "x1") ∷ [])
unfolding judge_f2a_wire client_msgs keep text_eq lookup prl_asks none_of sent_unasked
noted = refl

ignored_108 : (judge_f2b_wire with_list with_list (0 ∷ 0 ∷ 7 ∷ 8 ∷ [])).result ≡ pass
unfolding judge_f2b_wire check_each client_msgs keep text_eq never_asks lookup prl_asks in_scope
    contains find_first
ignored_108 = refl

judge_f2b_wire-pass_iff_example :
    ((judge_f2b_wire with_list with_list (0 ∷ 0 ∷ 7 ∷ 8 ∷ [])).result ≡ pass)
    ↔ Ignores with_list with_list (0 ∷ 0 ∷ 7 ∷ 8 ∷ [])
judge_f2b_wire-pass_iff_example = judge_f2b_wire-pass_iff with_list with_list (0 ∷ 0 ∷ 7 ∷ 8 ∷ [])

control_fails : (judge_f2b_control with_list).result ≡ blocked
unfolding judge_f2b_control none_of keep text_eq check_each clean_108 lookup
control_fails = refl

abbrev rapid : List OptMsg
rapid =
    optioned (codes "DISCOVER") (codes "x1") ((80, []) ∷ [])
    ∷ optioned (codes "DISCOVER") (codes "x1") ((80, []) ∷ [])
    ∷ optioned (codes "ACK") (codes "x1") ((80, []) ∷ [])
    ∷ []

in_two : judge_f3_wire true true rapid ≡ passed (two_messages (codes "x1"))
unfolding judge_f3_wire text_eq find_first exchange keep lookup sequence carries
in_two = refl

not_in_four : (judge_f3_wire true false rapid).result ≡ fail
unfolding judge_f3_wire text_eq find_first exchange keep lookup sequence
not_in_four = refl

judge_f3_wire-pass_iff_example :
    ((judge_f3_wire true true rapid).result ≡ pass) ↔ Exchanged true true rapid
judge_f3_wire-pass_iff_example = judge_f3_wire-pass_iff true true rapid

abbrev nonce : Text
nonce = 1 ∷ 2 ∷ 3 ∷ []

abbrev with_nonce : List OptMsg
with_nonce =
    optioned (codes "DISCOVER") (codes "x1") ((145, 1 ∷ []) ∷ [])
    ∷ optioned (codes "REQUEST") (codes "x1") ((145, 1 ∷ []) ∷ [])
    ∷ optioned (codes "ACK") (codes "x1") ((54, 10 ∷ 200 ∷ 1 ∷ 2 ∷ []) ∷ (90, nonce) ∷ [])
    ∷ []

granted_nonce : (judge_f8_ack true with_nonce nonce).1.result ≡ pass
unfolding judge_f8_ack last_of of_type keep text_eq lookup client_msgs check_each
granted_nonce = refl

control_in_the_scope : (judge_f8_control with_nonce).result ≡ blocked
unfolding judge_f8_control none_of keep text_eq check_each lookup
control_in_the_scope = refl

judge_f8_ack-pass_iff_example :
    ((judge_f8_ack true with_nonce nonce).1.result ≡ pass) ↔ Granted true with_nonce nonce
judge_f8_ack-pass_iff_example = judge_f8_ack-pass_iff true with_nonce nonce

abbrev here : Text
here = codes "10.200.1.50"

abbrev server : Text
server = codes "10.200.1.2"

abbrev on_wire : ℕ → MsgType → Text → Text → DhcpMsg
on_wire at type xid dst = record {
  at = at;
  type = type;
  xid = xid;
  server = [];
  requested = [];
  ciaddr = here;
  yiaddr = here;
  dst = dst;
}

abbrev forcing : MsgType
forcing = other_type (codes "FORCERENEW")

abbrev run : F8Obs
run = record {
  present = true;
  lease = here;
  addr = here;
  server = server;
  own = here ∷ [];
  bind = 10;
  unsigned = record { mode = codes "unsigned"; xid = codes "f1" };
  badkey = record { mode = codes "badkey"; xid = codes "f2" };
  signed = record { mode = codes "signed"; xid = codes "f3" };
  msgs =
      on_wire 20 forcing (codes "f1") here
      ∷ on_wire 30 forcing (codes "f2") here
      ∷ on_wire 40 forcing (codes "f3") here
      ∷ on_wire 41 request (codes "r1") server
      ∷ on_wire 42 ack (codes "r1") here
      ∷ [];
  opts =
      optioned (codes "FORCERENEW") (codes "f1") []
      ∷ optioned (codes "FORCERENEW") (codes "f2") ((90, nonce) ∷ [])
      ∷ optioned (codes "FORCERENEW") (codes "f3") ((90, nonce) ∷ [])
      ∷ [];
  bound_expiry = some 130;
  unsigned_expiry = some 130;
  badkey_expiry = some 130;
  signed_expiry = some 161;
  addr_after = here;
  signed_wait = 20;
  relay_mac = [];
  relay_msgs = [];
}

obeyed_run : judge_f8 run ≡ passed (obeyed (codes "r1"))
unfolding judge_f8 f8_find text_eq find_first lookup check_each keep requests_within contains
obeyed_run = refl

-- a REQUEST between the two wrong messages fails the client
acted_run :
    (judge_f8 (record run { msgs = on_wire 25 request (codes "r0") server ∷ run.msgs })).result
    ≡ fail
unfolding judge_f8 f8_find text_eq find_first lookup check_each keep requests_within
acted_run = refl

judge_f8-pass_iff_example : ((judge_f8 run).result ≡ pass) ↔ Forced run
judge_f8-pass_iff_example = judge_f8-pass_iff run
