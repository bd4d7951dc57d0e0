-- ===== src/Scenario/GroupE/Windows.antt =====
-- internal/scenario/groupe_judge.go: `windowGroups`, the ACK lines of one address inside a window.
pub mod Laws
use docker_net_dhcp_lab.Prelude.{
  ℕ, zero, suc, ◌+◌, Bool, true, false, ◌&&◌, Option, none, some, List, [], ◌∷◌, ◌++◌, map, Text,
  ◌==◌, eq_text, lookup, length, get_elem?, if◌then◌else◌, leb,
}
use docker_net_dhcp_lab.Scenario.Wire.{ServerEvent}
use docker_net_dhcp_lab.Scenario.GroupE.Exchange.{WireExchange}

-- `eWindow`, 3 s
abbrev pub window : ℕ
window = 3000000000

-- `eGroup`
pub record Group : Type 0 where
  pub ip : Text
  pub first : ℕ
  pub lines : ℕ

-- The variables of the loop: `open` maps an address to the index of its latest group.
pub record Grouping : Type 0 where
  pub groups : List Group
  pub opened : List (Text × ℕ)

-- `groups[gi].Lines++`
bump : ℕ → List Group → List Group
bump i [] = []
bump zero (g ∷ gs) = record g { lines = g.lines + 1 } ∷ gs
bump (suc i) (g ∷ gs) = g ∷ bump i gs

-- The group at an index takes a line at `at` if it began at most a window before.
takes : Option Group → ℕ → Bool
takes none at = false
takes (some g) at = leb at (g.first + window)

-- The index of the open group that takes the line.
taken_by : Option ℕ → List Group → ℕ → Option ℕ
unfolding takes
taken_by none gs at = none
taken_by (some i) gs at = if takes (get_elem? gs i) at then some i else none

place : Option ℕ → Grouping → Text → ℕ → Grouping
unfolding bump
place (some i) s ip at = record s { groups = bump i s.groups }
place none s ip at = record {
  groups = s.groups ++ (record { ip = ip; first = at; lines = 1 }) ∷ [];
  opened = (ip, length s.groups) ∷ s.opened;
}

add_line : Grouping → Text → ℕ → Grouping
unfolding place taken_by
add_line s ip at = place (taken_by (lookup ip s.opened) s.groups at) s ip at

group_from : Grouping → List (Text × ℕ) → Grouping
unfolding add_line
group_from s [] = s
group_from s ((ip, at) ∷ rest) = group_from (add_line s ip at) rest

-- `windowGroups` over the pairs (`ip(i)`, `at(i)`)
unfoldable pub window_groups : List (Text × ℕ) → List Group
unfolding group_from
window_groups xs = (group_from (record { groups = []; opened = [] }) xs).groups

-- `serverGroups`
unfoldable pub server_groups : List ServerEvent → List Group
unfolding window_groups
server_groups acks = window_groups (map (λ a. (a.ip, a.at)) acks)

-- `exchangeGroups`
unfoldable pub exchange_groups : List WireExchange → List Group
unfolding window_groups
exchange_groups ex = window_groups (map (λ x. (x.ip, x.at)) ex)

-- `alignGroups`, true for no error: as many groups on both sides, of the same addresses in order
unfoldable pub align_groups : List Group → List Group → Bool
align_groups [] [] = true
align_groups (g ∷ gs) (h ∷ hs) = g.ip == h.ip && align_groups gs hs
align_groups _ _ = false
