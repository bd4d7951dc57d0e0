-- ===== src/Scenario/GroupF/UserClass/Laws.antt =====
-- `judgeF1Wire` against what RFC 3004 and the plugin's reference ask of the capture.
use docker_net_dhcp_lab.Scenario.GroupF.Options.Laws.{no_discover, no_request}
use docker_net_dhcp_lab.Scenario.Outcome.{pass}
use docker_net_dhcp_lab.Scenario.Judging.{check_each-keep_iff_of, close-pass_iff}
use docker_net_dhcp_lab.Scenario.GroupF.UserClass.{
  no_user_class, user_class, check_user_class, f1_loop, judge_f1_wire, f1_chain,
}
use docker_net_dhcp_lab.Prelude.{
  Bool, true, false, List, Text, any, All, ◌≡◌, Option, some, none, ◌↔◌, inl, inr, arith,
  Option-cases, text_eq_iff, ok,
}
use docker_net_dhcp_lab.Scenario.GroupF.Options.{
  OptMsg, is_client, is_discover, is_request, option_of, user_class_bytes, has, client_msgs,
}

abbrev wanted_77 : Bool → Text → Option Text
wanted_77 true class = some (user_class_bytes class)
wanted_77 false class = none

-- both messages of an exchange, and option 77 exactly as the feature promises
pub record CarriesClass (present : Bool) (class : Text) (msgs : List OptMsg) : Type 0 where
  pub discovered : any is_discover msgs ≡ true
  pub requested : any is_request msgs ≡ true
  pub carried : All (λ m. is_client m ≡ true → option_of 77 m ≡ wanted_77 present class) msgs

no_user_class-ok_iff :
    (class : Text) (m : OptMsg)
    → (no_user_class m ≡ ok tt) ↔ (option_of 77 m ≡ wanted_77 false class)
unfolding no_user_class has
no_user_class-ok_iff class m = elim (Option-cases (option_of 77 m)) [
  | inl e ↦ rw e (ground arith)
  | inr (b, e) ↦ rw e (ground arith)
]

user_class-ok_iff :
    (class : Text) (m : OptMsg)
    → (user_class (user_class_bytes class) m ≡ ok tt) ↔ (option_of 77 m ≡ wanted_77 true class)
unfolding user_class check_user_class
user_class-ok_iff class m = elim (Option-cases (option_of 77 m)) [
  | inl e ↦ rw e (ground arith)
  | inr (b, e) ↦ rw e (ground (arith, text_eq_iff b (user_class_bytes class)))
]

f1_loop-ok_iff :
    (present : Bool) (class : Text) (msgs : List OptMsg)
    → (f1_loop present (user_class_bytes class) (client_msgs msgs) ≡ ok tt)
      ↔ All (λ m. is_client m ≡ true → option_of 77 m ≡ wanted_77 present class) msgs
unfolding f1_loop client_msgs
f1_loop-ok_iff true class msgs =
    check_each-keep_iff_of (user_class (user_class_bytes class)) is_client msgs
      (user_class-ok_iff class)
f1_loop-ok_iff false class msgs =
    check_each-keep_iff_of no_user_class is_client msgs (no_user_class-ok_iff class)

-- `judgeF1Wire` passes exactly on a capture with a DISCOVER and a REQUEST, in which every client
-- message carries option 77 as the length byte and the class when the plugin has the feature, and
-- no option 77 when it has not.
pub judge_f1_wire-pass_iff :
    (present : Bool) (class : Text) (msgs : List OptMsg)
    → ((judge_f1_wire present class msgs).result ≡ pass) ↔ CarriesClass present class msgs
unfolding judge_f1_wire f1_chain
judge_f1_wire-pass_iff present class msgs =
    let loop = f1_loop-ok_iff present class msgs in
    (
      (λ h.
          let (r, e) = (close-pass_iff (f1_chain present class msgs)).0 h in
          record {
            discovered = ground (arith, e, no_discover msgs);
            requested = ground (arith, e, no_request msgs);
            carried = loop.0 (ground (arith, e));
          }),
      λ g.
          ground
            (arith, no_discover msgs, no_request msgs, g.discovered, g.requested, loop.1 g.carried),
    )
