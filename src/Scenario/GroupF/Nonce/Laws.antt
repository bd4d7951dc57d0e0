-- ===== src/Scenario/GroupF/Nonce/Laws.antt =====
-- `judgeF8Ack` against RFC 6704: the nonce reached the client that asked for it.
use docker_net_dhcp_lab.Scenario.Outcome.{pass}
use docker_net_dhcp_lab.Scenario.Judging.{keep, check_each-keep_iff_of, close-pass_iff}
use docker_net_dhcp_lab.Prelude.{
  Bool, List, ◌≡◌, Text, nat_eq, length, ok, ◌↔◌, not, arith, codes, any, some, Option-cases, true,
  inl, All, inr, text_eq_iff, text_eq_self, refl, false, [], ◌∷◌,
}
use docker_net_dhcp_lab.Scenario.GroupF.Nonce.{
  check_145, judge_f8_ack, f8_ack_chain, offers_nonce, last_of, f8_ack_tests, as_documented,
}
use docker_net_dhcp_lab.Scenario.GroupF.Options.{
  client_msgs, OptMsg, has, of_type, is_client, option_of, bytes_of,
}

-- option 145 as the version of the plugin documents it
abbrev pub Documented : Bool → OptMsg → Type 0
Documented true m = offers_nonce m ≡ true
Documented false m = has m 145 ≡ false

check_145-ok_iff :
    (present : Bool) (m : OptMsg) → (check_145 present m ≡ ok tt) ↔ Documented present m
unfolding check_145
check_145-ok_iff true m = ground arith
check_145-ok_iff false m = ground arith

no_client_msgs :
    (msgs : List OptMsg) → nat_eq (length (client_msgs msgs)) 0 ≡ not (any is_client msgs)
unfolding client_msgs keep
no_client_msgs [] = refl
no_client_msgs (m ∷ msgs) = ground (arith, no_client_msgs msgs)

-- the last ACK carries the nonce and a server identifier, and every client message is as documented
pub record Granted (present : Bool) (opts : List OptMsg) (want : Text) : Type 0 where
  pub ack : OptMsg
  pub last : last_of (of_type opts (codes "ACK")) ≡ some ack
  pub nonce : option_of 90 ack ≡ some want
  pub server_id : length (bytes_of (option_of 54 ack)) ≡ 4
  pub asked : any is_client opts ≡ true
  pub documented : All (λ m. is_client m ≡ true → Documented present m) opts

-- `judgeF8Ack` passes exactly when the last ACK carries option 90 as the lab wrote it and an option
-- 54 of four bytes, and there are client messages, of which every one carries option 145 with the
-- one byte 1 when the plugin has the feature, and none carries the option when it has not.
pub judge_f8_ack-pass_iff :
    (present : Bool) (opts : List OptMsg) (want : Text)
    → ((judge_f8_ack present opts want).1.result ≡ pass) ↔ Granted present opts want
unfolding judge_f8_ack f8_ack_chain f8_ack_tests has client_msgs
judge_f8_ack-pass_iff present opts want =
    let loop =
      check_each-keep_iff_of (check_145 present) is_client opts (check_145-ok_iff present) in
    (
      (λ h.
          let (r, e) = (close-pass_iff (f8_ack_chain present opts want)).0 h in
          elim (Option-cases (last_of (of_type opts (codes "ACK")))) [
            | inl silent ↦ absurd (ground (arith, e, silent))
            | inr (a, found) ↦ elim (Option-cases (option_of 90 a)) [
              | inl bare ↦ absurd (ground (arith, e, found, bare))
              | inr (b, carried) ↦ record {
                ack = a;
                last = found;
                nonce = ground (arith, e, found, carried, text_eq_iff b want);
                server_id = ground (arith, e, found);
                asked = ground (arith, e, found, no_client_msgs opts);
                documented = loop.0 (ground (arith, e, found));
              }
            ]
          ]),
      λ g. (close-pass_iff (f8_ack_chain present opts want)).1 (
        as_documented,
        ground (
          arith,
          g.last,
          g.nonce,
          text_eq_self want,
          g.server_id,
          g.asked,
          no_client_msgs opts,
          loop.1 g.documented,
        ),
      ),
    )
