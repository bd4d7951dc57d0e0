-- ===== src/Scenario/GroupD/Silent.antt =====
-- internal/scenario/groupd2_judge.go: `judgeRAFlags`, `judgeD3cAuto` and `judgeD3cFails`, a segment
-- that advertises DHCPv6 and whose server is silent. An error of a call is the text it shows.
pub mod Laws
use docker_net_dhcp_lab.Sourceadapter.Retry.{occurs}
use docker_net_dhcp_lab.Scenario.GroupD.Exchange6.{granting}
use docker_net_dhcp_lab.Scenario.GroupD.Link.{find_addr6, above, globals}
use docker_net_dhcp_lab.Scenario.GroupD.TwoPrefixes.{has_auto_pio}
use docker_net_dhcp_lab.Scenario.Outcome.{Outcome}
use docker_net_dhcp_lab.Scenario.Judging.{
  Test, Judged, keep, blocks, check_each, close, fails, as_reason,
}
use docker_net_dhcp_lab.Scenario.GroupD.Wire6.{Dhcp6Msg, RaMsg, Pio, Addr6}
use docker_net_dhcp_lab.Labyaml.Netip.{Addr}
use docker_net_dhcp_lab.Scenario.GroupD.Slaac.{
  Reason as FormReason, slaac_formed, D2Obs, Auto, eui64, last_auto_pio,
}
use docker_net_dhcp_lab.Scenario.GroupD.NoRouter.{solicits}
use docker_net_dhcp_lab.Prelude.{
  Bool, true, false, Option, none, some, List, ℕ, Text, [], ◌∷◌, ok, err, ◌>>◌, ◌>>=◌, map,
  refuse_if, ◌==◌, not, codes, length, ◌++◌, if◌then◌else◌, Result, ltb, contains, ◌||◌, nat_eq,
  eq_text, ℤ,
}

pub data Reason : Type 0 where
  no_advertisement : Bool → Bool → Reason
  flags_differ : RaMsg → Bool → Bool → Reason
  flags_seen : Bool → Bool → ℕ → Reason
  lease_granted : Reason
  no_solicit : Reason
  transactions : List Text → Reason
  slaac_fault : FormReason → Reason
  above_last : Addr → ℤ → ℤ → ℕ → ℕ → Reason
  fell_back : ℕ → FormReason → Text → Reason
  container_started : Text → List Addr6 → Reason
  was_answered : Text → Text → Reason
  unanswered : Text → ℕ → Text → Reason
  named_silence : Text → Text → Reason
  not_tied : Text → Text → Reason

-- `m == n` on the two bits
abbrev pub same_bit : Bool → Bool → Bool
same_bit true b = b
same_bit false b = not b

unfoldable pub refuse_flags : Bool → Bool → RaMsg → Test Reason
refuse_flags managed autonomous ra =
    refuse_if (not (same_bit ra.managed managed) || not (same_bit (has_auto_pio ra) autonomous))
      (blocks (flags_differ ra managed autonomous))

unfoldable pub flags_chain : List RaMsg → Bool → Bool → Judged Reason
flags_chain [] managed autonomous = err (blocks (no_advertisement managed autonomous))
flags_chain (ra ∷ ras) managed autonomous =
    check_each (refuse_flags managed autonomous) (ra ∷ ras)
    >> ok (flags_seen ra.managed (has_auto_pio ra) (length (ra ∷ ras)))

-- `judgeRAFlags`, on the two fields of the wanted parameters
unfoldable pub judge_ra_flags : List RaMsg → Bool → Bool → Outcome Reason
unfolding flags_chain refuse_flags
judge_ra_flags ras managed autonomous = close (flags_chain ras managed autonomous)

-- `xids`: each transaction of the Solicits once, on what the loop has appended
unfoldable pub distinct_onto : List Text → List Text → List Text
distinct_onto seen [] = seen
distinct_onto seen (t ∷ ts) = distinct_onto (if contains seen t then seen else seen ++ t ∷ []) ts

unfoldable pub solicit_xids : List Dhcp6Msg → List Text
solicit_xids msgs = map (λ m. m.xid) (keep (λ m. m.type == codes "SOLICIT") msgs)

unfoldable pub refuse_grant : Dhcp6Msg → Test Reason
refuse_grant m = refuse_if (granting m) (blocks lease_granted)

-- an address that is not found has lifetimes of zero, which are above nothing
unfoldable pub check_lifetimes : Pio → Addr → Option Addr6 → Test Reason
check_lifetimes pio want none = ok tt
check_lifetimes pio want (some a) =
    refuse_if (above a.valid pio.valid || above a.pref pio.pref)
      (fails (above_last want a.valid a.pref pio.valid pio.pref))

-- the zero address of a failed `eui64` is not found either
unfoldable pub check_formed_at : D2Obs → Pio → Result FormReason Addr → Test Reason
unfolding check_lifetimes
check_formed_at o pio (err e) = ok tt
check_formed_at o pio (ok want) = check_lifetimes pio want (find_addr6 o.settled.addrs want)

unfoldable pub check_last : (Text → Option Text) → D2Obs → Option Auto → Test Reason
unfolding check_formed_at
check_last parse_mac o none = ok tt
check_last parse_mac o (some s) = check_formed_at o s.pio (eui64 parse_mac s.pio.prefix o.mac)

unfoldable pub d3c_chain : (Addr → Text) → (Text → Option Text) → D2Obs → Text → Judged Reason
unfolding refuse_grant check_last
d3c_chain show parse_mac o fallbacks =
    let xids = distinct_onto [] (solicit_xids o.msgs) in
    check_each refuse_grant o.msgs
    >> (refuse_if (nat_eq (solicits o.msgs) 0) (fails no_solicit)
        >> (refuse_if (not (nat_eq (length xids) 1)) (fails (transactions xids))
            >> (as_reason slaac_fault (slaac_formed show parse_mac o) >>= λ out.
                check_last parse_mac o (last_auto_pio o)
                >> ok (fell_back (solicits o.msgs) out fallbacks))))

-- `judgeD3cAuto`
unfoldable pub judge_d3c_auto : (Addr → Text) → (Text → Option Text) → D2Obs → Text → Outcome Reason
unfolding d3c_chain
judge_d3c_auto show parse_mac o fallbacks = close (d3c_chain show parse_mac o fallbacks)

-- `d3cNoServer`
abbrev pub no_server : Text
no_server = codes "no DHCPv6 server answered"

unfoldable pub answers : Dhcp6Msg → Bool
answers m = m.type == codes "ADVERTISE" || m.type == codes "REPLY"

unfoldable pub refuse_answer : Text → Dhcp6Msg → Test Reason
refuse_answer e m = refuse_if (answers m) (blocks (was_answered m.type e))

unfoldable pub d3c_fails_chain : Text → Option Text → List Addr6 → List Dhcp6Msg → Judged Reason
unfolding refuse_answer
d3c_fails_chain opts none settled msgs = err (fails (container_started opts (globals settled)))
d3c_fails_chain opts (some e) settled msgs =
    check_each (refuse_answer e) msgs
    >> (if ltb 0 (solicits msgs)
        then ok (unanswered opts (solicits msgs) e)
        else if occurs no_server e
        then ok (named_silence opts e)
        else err (blocks (not_tied opts e)))

-- `judgeD3cFails`
unfoldable pub judge_d3c_fails : Text → Option Text → List Addr6 → List Dhcp6Msg → Outcome Reason
unfolding d3c_fails_chain
judge_d3c_fails opts start settled msgs = close (d3c_fails_chain opts start settled msgs)
