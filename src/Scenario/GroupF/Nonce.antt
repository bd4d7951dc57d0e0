-- ===== src/Scenario/GroupF/Nonce.antt =====
-- internal/scenario/groupf_judge.go: `judgeF8Ack` and `judgeF8Control`, the FORCERENEW nonce (option
-- 90) in the ACK and the client's option 145.
pub mod Laws
use docker_net_dhcp_lab.Scenario.Outcome.{Outcome}
use docker_net_dhcp_lab.Scenario.Judging.{Test, Judged, close, fails, blocks, check_each}
use docker_net_dhcp_lab.Prelude.{
  List, Bool, Text, ◌&&◌, Option, refuse_if, none, need, not, codes, ◌==◌, ◌||◌, ◌>>=◌, ◌>>◌, ◌∷◌,
  [], nat_eq, some, length, ok, eq_text,
}
use docker_net_dhcp_lab.Scenario.GroupF.Options.{
  has, OptMsg, bytes_of, of_type, option_of, none_of, is_offer, is_ack, client_msgs,
}

pub data Reason : Type 0 where
  no_ack : Reason
  no_nonce : Text → Reason
  other_nonce : Text → Text → Text → Reason
  no_server_id : Text → Reason
  no_client_message : Reason
  no_option_145 : Text → Text → Reason
  unexpected_145 : Text → Text → Reason
  as_documented : Reason
  control_silent : Reason
  control_in_scope : Text → Text → Reason
  control_clean : Reason

-- the last element
unfoldable pub last_of : List OptMsg → Option OptMsg
last_of [] = none
last_of (m ∷ []) = some m
last_of (m ∷ n ∷ msgs) = last_of (n ∷ msgs)

-- `m.Has(145) && bytes.Equal(m.Opts[145], []byte{1})`
unfoldable pub offers_nonce : OptMsg → Bool
unfolding has
offers_nonce m = has m 145 && bytes_of (option_of 145 m) == 1 ∷ []

unfoldable pub check_145 : Bool → OptMsg → Test Reason
unfolding has offers_nonce
check_145 present m =
    refuse_if (present && not (offers_nonce m)) (fails (no_option_145 m.type m.xid))
    >> refuse_if (not present && has m 145) (blocks (unexpected_145 m.type m.xid))

unfoldable pub f8_ack_tests : Bool → List OptMsg → Text → OptMsg → Judged Reason
unfolding has check_145
f8_ack_tests present opts want ack =
    let nonce = bytes_of (option_of 90 ack) in
    refuse_if (not (has ack 90)) (blocks (no_nonce ack.xid))
    >> (refuse_if (not (nonce == want)) (blocks (other_nonce ack.xid nonce want))
        >> (refuse_if (not (nat_eq (length (bytes_of (option_of 54 ack))) 4))
              (blocks (no_server_id ack.xid))
            >> (refuse_if (nat_eq (length (client_msgs opts)) 0) (blocks no_client_message)
                >> (check_each (check_145 present) (client_msgs opts) >> ok as_documented))))

-- the chain past `acks[len(acks)-1]`
unfoldable pub f8_ack_chain : Bool → List OptMsg → Text → Judged Reason
unfolding f8_ack_tests
f8_ack_chain present opts want =
    need (last_of (of_type opts (codes "ACK"))) (blocks no_ack) >>= f8_ack_tests present opts want

-- `judgeF8Ack`; the ACK beside the outcome is absent where the code returns the zero message
unfoldable pub judge_f8_ack : Bool → List OptMsg → Text → Option OptMsg × Outcome Reason
unfolding f8_ack_chain
judge_f8_ack present opts want =
    (last_of (of_type opts (codes "ACK")), close (f8_ack_chain present opts want))

unfoldable pub clean_reply : OptMsg → Test Reason
unfolding has
clean_reply m =
    refuse_if ((is_offer m || is_ack m) && (has m 145 || has m 90))
      (blocks (control_in_scope m.type m.xid))

unfoldable pub f8_control_chain : List OptMsg → Judged Reason
unfolding clean_reply
f8_control_chain control =
    refuse_if (none_of control (codes "ACK")) (blocks control_silent)
    >> (check_each clean_reply control >> ok control_clean)

-- `judgeF8Control`
unfoldable pub judge_f8_control : List OptMsg → Outcome Reason
unfolding f8_control_chain
judge_f8_control control = close (f8_control_chain control)
