-- ===== src/Scenario/GroupD/Rapid6.antt =====
-- internal/scenario/groupd_judge.go: `judgeF4Wire`, option 14 and the two or four messages of a
-- DHCPv6 exchange, with the Confirm that the persistent client may append.
pub mod Laws
use docker_net_dhcp_lab.Scenario.Outcome.{Outcome}
use docker_net_dhcp_lab.Scenario.Judging.{Test, Judged, close, check_each, fails}
use docker_net_dhcp_lab.Scenario.GroupD.Exchange6.{Exchange, types, client}
use docker_net_dhcp_lab.Prelude.{
  Bool, List, ◌==◌, Text, not, codes, false, ◌∷◌, refuse_if, eq_text, [], ◌&&◌, true, ◌>>◌, any,
  if◌then◌else◌, ok,
}
use docker_net_dhcp_lab.Scenario.GroupD.Wire6.{Dhcp6Msg}

pub data Reason : Type 0 where
  option_14_is : Bool → Bool → List Text → Reason
  no_solicit : Text → List Text → Reason
  not_two_messages : List Text → Reason
  not_echoed : Reason
  two_messages : Bool → Reason
  not_four_messages : List Text → Reason
  four_messages : Bool → Bool → Reason

abbrev pub is_solicit : Dhcp6Msg → Bool
is_solicit m = m.type == codes "SOLICIT"

-- `slices.Equal`
unfoldable pub texts_eq : List Text → List Text → Bool
texts_eq [] [] = true
texts_eq (s ∷ ss) (t ∷ ts) = s == t && texts_eq ss ts
texts_eq _ _ = false

abbrev pub two : List Text
two = codes "SOLICIT" ∷ codes "REPLY" ∷ []

abbrev pub four : List Text
four = codes "SOLICIT" ∷ codes "ADVERTISE" ∷ codes "REQUEST" ∷ codes "REPLY" ∷ []

abbrev pub confirmation : List Text
confirmation = codes "CONFIRM" ∷ codes "REPLY" ∷ []

-- `lease` and `confirm`: the sequence without the Confirm and Reply at its end
unfoldable pub split_confirm : List Text → List Text × Bool
unfolding texts_eq
split_confirm [] = ([], false)
split_confirm (t ∷ ts) =
    let rest = split_confirm ts in
    if texts_eq (t ∷ ts) confirmation then ([], true) else (t ∷ rest.0, rest.1)

-- `!=` of two flags
abbrev pub differs : Bool → Bool → Bool
differs true b = not b
differs false b = b

unfoldable pub check_14 : Bool → List Text → Dhcp6Msg → Test Reason
check_14 present seq m =
    refuse_if (is_solicit m && differs m.rapid present) (fails (option_14_is m.rapid present seq))

unfoldable pub f4_lease : Bool → Bool → Exchange → List Text → List Text × Bool → Judged Reason
unfolding texts_eq
f4_lease present server_rapid x seq (lease, confirm) =
    if present && server_rapid
    then refuse_if (not (texts_eq lease two)) (fails (not_two_messages seq))
      >> (refuse_if (not x.reply.rapid) (fails not_echoed) >> ok (two_messages confirm))
    else refuse_if (not (texts_eq lease four)) (fails (not_four_messages seq))
      >> ok (four_messages present confirm)

unfoldable pub f4_chain : Bool → Bool → Exchange → Judged Reason
unfolding check_14 f4_lease
f4_chain present server_rapid x =
    let seq = types x.msgs in
    check_each (check_14 present seq) (client x)
    >> (refuse_if (not (any is_solicit (client x))) (fails (no_solicit x.duid seq))
        >> f4_lease present server_rapid x seq (split_confirm seq))

-- `judgeF4Wire`
unfoldable pub judge_f4_wire : Bool → Bool → Exchange → Outcome Reason
unfolding f4_chain
judge_f4_wire present server_rapid x = close (f4_chain present server_rapid x)
