-- ===== src/Scenario/GroupD/NoRouter.antt =====
-- internal/scenario/groupd_judge.go: `judgeNoRA`, `judgeD1c`, `judgeEndpointFails` and
-- `judgeRefused`, a segment on which nothing advertises. An error of a call is the text it shows, the
-- text of an address is a parameter.
pub mod Laws
use docker_net_dhcp_lab.Scenario.GroupD.Link.{find_addr6, leftover, globals}
use docker_net_dhcp_lab.Scenario.Judging.{Test, Judged, close, keep, blocks, fails}
use docker_net_dhcp_lab.Scenario.Outcome.{Outcome, failed, passed}
use docker_net_dhcp_lab.Labyaml.Netip.{Addr}
use docker_net_dhcp_lab.Scenario.GroupD.Wire6.{Dhcp6Msg, RaMsg, Ia6, Addr6}
use docker_net_dhcp_lab.Prelude.{
  Bool, Option, none, some, List, ℕ, Text, [], ◌∷◌, ok, err, ◌>>◌, ◌>>=◌, need, refuse_if, ◌==◌,
  not, codes, eq_text, length, ◌++◌, if◌then◌else◌, map,
}

pub data Reason : Type 0 where
  still_advertises : ℕ → Addr → Reason
  did_not_start : Text → Reason
  ungranted : Addr → Reason
  none_held : List Addr → List Addr → Reason
  inspect_differs : Text → Addr → Reason
  inspect_reports : Text → Reason
  still_answered : Addr → ℕ → Reason
  without_address : ℕ → Reason
  started_anyway : Reason
  endpoint_failed : Text → Reason
  accepted : Text → Reason
  was_refused : Text → Text → Reason

-- `judgeNoRA`: the outcome, or the permission to go on
unfoldable pub judge_no_ra : List RaMsg → Test Reason
judge_no_ra [] = ok tt
judge_no_ra (ra ∷ ras) = err (blocks (still_advertises (length (ra ∷ ras)) ra.src))

-- `solicits`
unfoldable pub solicits : List Dhcp6Msg → ℕ
solicits msgs = length (keep (λ m. m.type == codes "SOLICIT") msgs)

-- the valid addresses of a list of IAs
unfoldable pub valid_addrs : List Ia6 → List Addr
valid_addrs [] = []
valid_addrs (ia ∷ ias) =
    let rest = valid_addrs ias in elim ia.addr [ none ↦ rest | some a ↦ a ∷ rest ]

-- `granted`
unfoldable pub granted_by : List Dhcp6Msg → List Addr
granted_by [] = []
granted_by (m ∷ msgs) =
    let rest = granted_by msgs in if m.type == codes "REPLY" then valid_addrs m.na ++ rest else rest

-- `onLink`, absent where it is not valid
unfoldable pub first_on_link : List Addr6 → List Addr → Option Addr
first_on_link settled [] = none
first_on_link settled (g ∷ gs) =
    let rest = first_on_link settled gs in
    elim (find_addr6 settled g) [ none ↦ rest | some s ↦ some g ]

abbrev pub refuse_error : Option Text → Test Reason
refuse_error none = ok tt
refuse_error (some e) = err (fails (did_not_start e))

abbrev pub refuse_ungranted : Option Addr → Test Reason
refuse_ungranted none = ok tt
refuse_ungranted (some extra) = err (fails (ungranted extra))

-- what docker inspect has to show, with a grant and without
unfoldable pub d1c_end : (Addr → Text) → ℕ → List Addr6 → Text → List Addr → Judged Reason
d1c_end show n settled inspect [] =
    refuse_if (not (inspect == [])) (fails (inspect_reports inspect)) >> ok (without_address n)
d1c_end show n settled inspect (g ∷ gs) =
    need (first_on_link settled (g ∷ gs))
      (fails (none_held (g ∷ gs) (map (λ a. a.addr) (globals settled))))
    >>= λ a.
        refuse_if (not (inspect == show a)) (fails (inspect_differs inspect a))
        >> ok (still_answered a n)

unfoldable pub d1c_chain :
    (Addr → Text) → Option Text → List Dhcp6Msg → List Addr6 → Text → Judged Reason
unfolding d1c_end
d1c_chain show start msgs settled inspect =
    refuse_error start
    >> (refuse_ungranted (leftover settled (granted_by msgs))
        >> d1c_end show (solicits msgs) settled inspect (granted_by msgs))

-- `judgeD1c`
unfoldable pub judge_d1c :
    (Addr → Text) → Option Text → List Dhcp6Msg → List Addr6 → Text → Outcome Reason
unfolding d1c_chain
judge_d1c show start msgs settled inspect = close (d1c_chain show start msgs settled inspect)

-- `judgeEndpointFails`
unfoldable pub judge_endpoint_fails : Option Text → Outcome Reason
judge_endpoint_fails none = failed started_anyway
judge_endpoint_fails (some e) = passed (endpoint_failed e)

-- `judgeRefused`
unfoldable pub judge_refused : Text → Option Text → Outcome Reason
judge_refused opt none = failed (accepted opt)
judge_refused opt (some e) = passed (was_refused opt e)
