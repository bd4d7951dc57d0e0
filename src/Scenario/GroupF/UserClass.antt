-- ===== src/Scenario/GroupF/UserClass.antt =====
-- internal/scenario/groupf_judge.go: `judgeF1Wire`, option 77 in the messages of one client.
pub mod Laws
use docker_net_dhcp_lab.Prelude.{
  ℕ, Bool, true, false, not, ◌&&◌, ◌||◌, Option, none, some, List, Text, codes, ◌==◌, eq_text,
  if◌then◌else◌, length, Result, ok, err, ◌>>◌, refuse_if,
}
use docker_net_dhcp_lab.Scenario.Outcome.{Outcome}
use docker_net_dhcp_lab.Scenario.Judging.{Test, Judged, fails, blocks, close, check_each}
use docker_net_dhcp_lab.Scenario.GroupF.Options.{
  OptMsg, has, option_of, client_msgs, none_of, user_class_bytes, bytes_of,
}

pub data Reason : Type 0 where
  not_captured : Reason
  too_early : Text → Text → Text → Reason
  no_option_77 : Text → Text → Reason
  other_option_77 : Text → Text → Text → Text → Reason
  none_expected : ℕ → Reason
  in_every_message : Text → ℕ → Reason

-- the loop of a plugin without the feature
unfoldable pub no_user_class : OptMsg → Test Reason
unfolding has
no_user_class m = refuse_if (has m 77) (blocks (too_early m.type m.xid (bytes_of (option_of 77 m))))

check_user_class : Text → OptMsg → Option Text → Test Reason
check_user_class want m none = err (fails (no_option_77 m.type m.xid))
check_user_class want m (some got) =
    refuse_if (not (got == want)) (fails (other_option_77 m.type m.xid got want))

-- the loop of a plugin with it
unfoldable pub user_class : Text → OptMsg → Test Reason
unfolding check_user_class
user_class want m = check_user_class want m (option_of 77 m)

f1_loop : Bool → Text → List OptMsg → Test Reason
unfolding no_user_class user_class
f1_loop true want cm = check_each (user_class want) cm
f1_loop false want cm = check_each no_user_class cm

f1_story : Bool → Text → ℕ → Reason
f1_story true want n = in_every_message want n
f1_story false want n = none_expected n

unfoldable pub f1_chain : Bool → Text → List OptMsg → Judged Reason
unfolding f1_loop f1_story
f1_chain present class msgs =
    let cm = client_msgs msgs in
    let want = user_class_bytes class in
    refuse_if (none_of cm (codes "DISCOVER") || none_of cm (codes "REQUEST")) (blocks not_captured)
    >> (f1_loop present want cm >> ok (f1_story present want (length cm)))

-- `judgeF1Wire`
unfoldable pub judge_f1_wire : Bool → Text → List OptMsg → Outcome Reason
unfolding f1_chain
judge_f1_wire present class msgs = close (f1_chain present class msgs)
