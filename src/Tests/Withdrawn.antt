-- ===== src/Tests/Withdrawn.antt =====
-- internal/scenario/groupd2_judge.go: a prefix that ceases, and the lines of the routes.
use docker_net_dhcp_lab.Scenario.GroupD.Slaac.{eui64}
use docker_net_dhcp_lab.Scenario.Judging.{check_each}
use docker_net_dhcp_lab.Scenario.Verdict.Folding.{is_space, trim_right, trim_left}
use docker_net_dhcp_lab.Scenario.GroupF.Options.{is_some}
use docker_net_dhcp_lab.Scenario.GroupD.Link.{second_ns, find_addr6}
use docker_net_dhcp_lab.Scenario.Outcome.{pass, fail}
use docker_net_dhcp_lab.Scenario.GroupD.Wire6.{Read, sampled}
use docker_net_dhcp_lab.Scenario.GroupD.Routes.{route_for, split_newlines, route_dst, fields}
use docker_net_dhcp_lab.Scenario.GroupD.Withdrawn.{
  last_read, judge_d4b_expired, judge_d4b_drop, find_formed, last_seen,
}
use docker_net_dhcp_lab.Labyaml.Netip.{Parsers, eq_prefix, prefix_beq, addr_beq, masked}
use docker_net_dhcp_lab.Prelude.{
  Text, List, ℕ, codes, ◌≡◌, ◌∷◌, [], ◌*◌, true, none, some, refl, map, pos, ◌↔◌, false, All, any,
  ◌==◌, if◌then◌else◌, eq_text, contains, text_eq,
}
use docker_net_dhcp_lab.Scenario.GroupD.Withdrawn.Laws.{Followed, judge_d4b_drop-pass_iff}
use docker_net_dhcp_lab.Tests.TwoPrefixes.{own_mac, six_codes, formed_in, lists, net_64}

-- the parser reads one text as the second prefix
abbrev second_only : Parsers
second_only = record {
  parse_prefix = λ t. if t == codes "fd00:4::/64" then some (net_64 4) else none;
  parse_addr = λ t. none;
}

abbrev unreachable_line : Text
unreachable_line = codes " unreachable fd00:4::/64 proto dhcp "

abbrev holds_for : ℕ → List (ℕ × ℕ) → Read
holds_for at ns = record {
  at = at;
  got = none;
  addrs =
      map
        (λ n. record {
          addr = formed_in n.0;
          bits = 64;
          scope = codes "global";
          valid = pos n.1;
          pref = pos 0;
        })
        ns;
}

abbrev falling : List Read
falling =
    holds_for 0 ((3, 100) ∷ (4, 90) ∷ [])
    ∷ holds_for (10 * second_ns) ((3, 100) ∷ (4, 80) ∷ [])
    ∷ []

trimmed_line :
    route_for second_only unreachable_line (net_64 4)
    ≡ some (codes "unreachable fd00:4::/64 proto dhcp")
unfolding route_for split_newlines route_dst fields is_space contains text_eq prefix_beq addr_beq
    trim_right trim_left
trimmed_line = refl

drop_passes :
    (judge_d4b_drop second_only six_codes
      (lists 5 (3 ∷ []) ∷ [])
      falling
      unreachable_line
      (net_64 3)
      (net_64 4)
      own_mac
      true).result
    ≡ pass
unfolding judge_d4b_drop check_each prefix_beq addr_beq eui64 find_addr6 last_read masked sampled
    route_for split_newlines route_dst fields is_space contains text_eq
drop_passes = refl

gone_early :
    (judge_d4b_drop second_only six_codes
      (lists 5 (3 ∷ []) ∷ [])
      (holds_for 0 ((4, 90) ∷ []) ∷ holds_for (10 * second_ns) ((3, 100) ∷ []) ∷ [])
      []
      (net_64 3)
      (net_64 4)
      own_mac
      false).result
    ≡ fail
unfolding judge_d4b_drop check_each prefix_beq addr_beq eui64 find_addr6 last_read masked last_seen
    sampled
gone_early = refl

expired_passes :
    (judge_d4b_expired second_only six_codes
      (record (lists 5 []) {
        pios = record { prefix = net_64 4; auto = true; valid = 0; pref = 0 } ∷ [];
      }
        ∷ [])
      []
      []
      (net_64 4)
      own_mac).result
    ≡ pass
unfolding judge_d4b_expired prefix_beq addr_beq eui64 find_addr6 route_for split_newlines route_dst
    fields
expired_passes = refl

judge_d4b_drop-pass_iff_example :
    ((judge_d4b_drop second_only six_codes
        (lists 5 (3 ∷ []) ∷ [])
        falling
        unreachable_line
        (net_64 3)
        (net_64 4)
        own_mac
        true).result
      ≡ pass)
    ↔ (All (λ m. any (λ o. o.prefix == net_64 4) m.pios ≡ false) (lists 5 (3 ∷ []) ∷ [])
        × (is_some (
              find_formed six_codes own_mac
                (net_64 3)
                (holds_for (10 * second_ns) ((3, 100) ∷ (4, 80) ∷ [])).addrs)
            ≡ true)
        × Followed six_codes own_mac
            (net_64 4)
            (holds_for 0 ((3, 100) ∷ (4, 90) ∷ []))
            (holds_for (10 * second_ns) ((3, 100) ∷ (4, 80) ∷ []))
            falling
            (find_formed six_codes own_mac
              (net_64 4)
              (holds_for (10 * second_ns) ((3, 100) ∷ (4, 80) ∷ [])).addrs)
        × (true ≡ true → is_some (route_for second_only unreachable_line (net_64 4)) ≡ true))
unfolding last_read
judge_d4b_drop-pass_iff_example =
    judge_d4b_drop-pass_iff second_only six_codes [] unreachable_line (net_64 4) own_mac
      (holds_for 0 ((3, 100) ∷ (4, 90) ∷ []))
      (holds_for (10 * second_ns) ((3, 100) ∷ (4, 80) ∷ []) ∷ []) (net_64 3) true (lists 5 (3 ∷ []))
