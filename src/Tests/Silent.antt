-- ===== src/Tests/Silent.antt =====
-- internal/scenario/groupd2_judge.go: a segment that advertises DHCPv6 and whose server is silent.
use docker_net_dhcp_lab.Scenario.GroupD.TwoPrefixes.{has_auto_pio}
use docker_net_dhcp_lab.Labyaml.Netip.{addr_beq, masked, prefix_beq, span}
use docker_net_dhcp_lab.Scenario.GroupD.Link.{
  find_addr6, leftover, counted_down, first_outside, globals, pio_lft,
}
use docker_net_dhcp_lab.Scenario.Judging.{check_each, keep}
use docker_net_dhcp_lab.Sourceadapter.Retry.{occurs}
use docker_net_dhcp_lab.Scenario.GroupD.NoRouter.{solicits}
use docker_net_dhcp_lab.Scenario.GroupD.Exchange6.{granting}
use docker_net_dhcp_lab.Scenario.Outcome.{blocked, fail, pass}
use docker_net_dhcp_lab.Scenario.GroupD.Slaac.{
  D2Obs, slaac_formed, last_auto_pio, eui64, ra_before, check_formed, eui64_of, flip_local,
  has_suffix, interface_id, refuse_lease, take_pio, take_pios, take_ras,
}
use docker_net_dhcp_lab.Scenario.GroupD.Wire6.{Dhcp6Msg, has_addr, sampled}
use docker_net_dhcp_lab.Prelude.{
  Option, Text, List, ℕ, some, [], ◌∷◌, false, codes, ◌≡◌, map, true, refl, ◌↔◌, All, has_prefix,
  text_eq, contains, to_lower, eq_text,
}
use docker_net_dhcp_lab.Scenario.GroupD.Silent.{
  judge_d3c_fails, judge_ra_flags, judge_d3c_auto, answers, solicit_xids, distinct_onto,
  check_formed_at, check_last, check_lifetimes, d3c_chain, refuse_grant,
}
use docker_net_dhcp_lab.Scenario.GroupD.Silent.Laws.{SameAll, FellBack, judge_d3c_auto-pass_iff}
use docker_net_dhcp_lab.Tests.TwoPrefixes.{
  own_mac, six_codes, value_text, formed_in, lists, read_at,
}

abbrev sends : Text → Text → Dhcp6Msg
sends type xid = record {
  at = 7;
  type = type;
  xid = xid;
  client_duid = [];
  rapid = false;
  na = [];
  ta = [];
  pd = [];
}

abbrev solicits_of : List ℕ → List Dhcp6Msg
solicits_of xids = map (λ x. sends (codes "SOLICIT") (x ∷ [])) xids

abbrev falls_back : List ℕ → D2Obs
falls_back xids = record {
  msgs = solicits_of xids;
  ras = lists 5 (3 ∷ []) ∷ [];
  leases = [];
  mac = own_mac;
  start = read_at 10 (3 ∷ []);
  settled = read_at 30 (3 ∷ []);
  inspect = value_text (formed_in 3);
}

one_transaction : (judge_d3c_auto value_text six_codes (falls_back (1 ∷ 1 ∷ [])) []).result ≡ pass
unfolding judge_d3c_auto check_each granting text_eq solicits keep distinct_onto solicit_xids
    contains slaac_formed last_auto_pio eui64 find_addr6 addr_beq masked ra_before prefix_beq
    leftover span to_lower counted_down first_outside globals pio_lft check_formed_at check_last
    check_lifetimes d3c_chain refuse_grant check_formed eui64_of flip_local has_suffix interface_id
    refuse_lease take_pio take_pios take_ras has_addr sampled
one_transaction = refl

solicits_again : (judge_d3c_auto value_text six_codes (falls_back (1 ∷ 2 ∷ [])) []).result ≡ fail
unfolding judge_d3c_auto check_each granting text_eq solicits keep distinct_onto solicit_xids
    contains
solicits_again = refl

never_solicits : (judge_d3c_auto value_text six_codes (falls_back []) []).result ≡ fail
unfolding judge_d3c_auto check_each solicits keep
never_solicits = refl

flags_proven : (judge_ra_flags (lists 5 (3 ∷ []) ∷ []) false true).result ≡ pass
unfolding judge_ra_flags check_each has_auto_pio
flags_proven = refl

flags_other : (judge_ra_flags (lists 5 (3 ∷ []) ∷ []) true true).result ≡ blocked
unfolding judge_ra_flags check_each
flags_other = refl

abbrev text_of_error : Option Text
text_of_error = some (codes "no DHCPv6 server answered in time")

names_the_server : (judge_d3c_fails [] text_of_error [] []).result ≡ pass
unfolding judge_d3c_fails check_each solicits keep occurs has_prefix
names_the_server = refl

other_error : (judge_d3c_fails [] (some (codes "timeout")) [] []).result ≡ blocked
unfolding judge_d3c_fails check_each solicits keep occurs has_prefix
other_error = refl

server_answers :
    (judge_d3c_fails [] text_of_error [] (sends (codes "ADVERTISE") [] ∷ [])).result ≡ blocked
unfolding judge_d3c_fails check_each answers text_eq
server_answers = refl

judge_d3c_auto-pass_iff_example :
    ((judge_d3c_auto value_text six_codes (falls_back (1 ∷ 1 ∷ [])) []).result ≡ pass) ↔ (
      All (λ m. granting m ≡ false) (falls_back (1 ∷ 1 ∷ [])).msgs
      × SameAll (solicit_xids (falls_back (1 ∷ 1 ∷ [])).msgs)
      × FellBack value_text six_codes (falls_back (1 ∷ 1 ∷ [])))
judge_d3c_auto-pass_iff_example =
    judge_d3c_auto-pass_iff value_text six_codes (falls_back (1 ∷ 1 ∷ [])) []
