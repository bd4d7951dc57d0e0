-- ===== src/Tests/NoRouter.antt =====
-- internal/scenario/groupd_judge.go: a segment on which nothing advertises.
use docker_net_dhcp_lab.Scenario.GroupD.Link.{leftover, find_addr6}
use docker_net_dhcp_lab.Scenario.Judging.{blocks, keep}
use docker_net_dhcp_lab.Scenario.Outcome.{pass, passed, fail}
use docker_net_dhcp_lab.Scenario.GroupD.Wire6.{Addr6, Dhcp6Msg, RaMsg}
use docker_net_dhcp_lab.Scenario.GroupD.NoRouter.{
  judge_endpoint_fails, judge_no_ra, judge_d1c, judge_refused, still_answered, without_address,
  granted_by, still_advertises, valid_addrs, first_on_link, solicits,
}
use docker_net_dhcp_lab.Labyaml.Netip.{Addr, ip6, addr_beq}
use docker_net_dhcp_lab.Scenario.GroupD.NoRouter.Laws.{Inspected, judge_d1c-pass_iff}
use docker_net_dhcp_lab.Scenario.GroupD.Link.Laws.{OnlyAllowed}
use docker_net_dhcp_lab.Prelude.{
  ℕ, ◌≡◌, refl, ◌↔◌, false, none, some, List, [], ◌∷◌, map, Text, codes, pos, err, text_eq,
  contains, Option, eq_text,
}

-- a text that tells addresses apart
abbrev shown : Addr → Text
shown a = a.value ∷ []

abbrev granted_one : ℕ → Addr
granted_one n = record { family = ip6; value = n }

abbrev reply_with : Text → List ℕ → Dhcp6Msg
reply_with type ns = record {
  at = 0;
  type = type;
  xid = [];
  client_duid = [];
  rapid = false;
  na =
      map (λ n. record { addr = some (granted_one n); prefix = none; pref = 1800; valid = 3600 })
        ns;
  ta = [];
  pd = [];
}

abbrev no_error : Option Text
no_error = none

abbrev answered : List Dhcp6Msg
answered =
    reply_with (codes "SOLICIT") []
    ∷ reply_with (codes "ADVERTISE") (7 ∷ [])
    ∷ reply_with (codes "REPLY") (5 ∷ 6 ∷ [])
    ∷ []

abbrev held_address : ℕ → Addr6
held_address n = record {
  addr = granted_one n;
  bits = 128;
  scope = codes "global";
  valid = pos 1;
  pref = pos 1;
}

answered_passes :
    judge_d1c shown none answered (held_address 6 ∷ []) (6 ∷ [])
    ≡ passed (still_answered (granted_one 6) 1)
unfolding judge_d1c leftover keep text_eq contains granted_by valid_addrs addr_beq first_on_link
    find_addr6 solicits
answered_passes = refl

advertised_only : (judge_d1c shown none answered (held_address 7 ∷ []) (7 ∷ [])).result ≡ fail
unfolding judge_d1c leftover keep text_eq contains granted_by valid_addrs addr_beq
advertised_only = refl

no_container : (judge_d1c shown (some []) [] [] []).result ≡ fail
unfolding judge_d1c
no_container = refl

silent_passes : judge_d1c shown none [] [] [] ≡ passed (without_address 0)
unfolding judge_d1c leftover keep granted_by text_eq solicits
silent_passes = refl

still_advertising : (ra : RaMsg) → judge_no_ra (ra ∷ []) ≡ err (blocks (still_advertises 1 ra.src))
unfolding judge_no_ra
still_advertising ra = refl

both_refusals :
    ((judge_endpoint_fails none).result ≡ fail)
    × ((judge_refused [] none).result ≡ fail)
    × ((judge_endpoint_fails (some [])).result ≡ pass)
    × ((judge_refused [] (some [])).result ≡ pass)
unfolding judge_endpoint_fails judge_refused
both_refusals = (refl, refl, refl, refl)

judge_d1c-pass_iff_example :
    ((judge_d1c shown no_error answered (held_address 6 ∷ []) (6 ∷ [])).result ≡ pass) ↔ (
      (no_error ≡ none)
      × OnlyAllowed (granted_by answered) (held_address 6 ∷ [])
      × Inspected shown (held_address 6 ∷ []) (6 ∷ []) (granted_by answered))
judge_d1c-pass_iff_example =
    judge_d1c-pass_iff shown no_error answered (held_address 6 ∷ []) (6 ∷ [])
