-- ===== src/Scenario/GroupD/Link.antt =====
-- internal/scenario/groupd_host.go and groupd_judge.go: what the judges ask of the addresses on a
-- link, and of a lifetime that counts down.
pub mod Laws
use docker_net_dhcp_lab.Scenario.Judging.{keep}
use docker_net_dhcp_lab.Scenario.GroupD.Wire6.{Addr6}
use docker_net_dhcp_lab.Prelude.{
  ℕ, List, ℤ, ◌^◌, Bool, pos, negsuc, Option, none, false, ◌==◌, ltb, nat_eq, codes, ◌&&◌, leb,
  eq_text, ◌+◌, ◌-◌, ◌/◌, some, [], ◌∷◌, if◌then◌else◌, contains,
}
use docker_net_dhcp_lab.Labyaml.Netip.{Addr, eq_addr}

-- `globals`
unfoldable pub globals : List Addr6 → List Addr6
globals as_read = keep (λ a. a.scope == codes "global") as_read

-- `findAddr6`
unfoldable pub find_addr6 : List Addr6 → Addr → Option Addr6
find_addr6 [] want = none
find_addr6 (a ∷ rest) want = if a.addr == want then some a else find_addr6 rest want

unfoldable pub first_outside : List Addr → List Addr6 → Option Addr
first_outside allowed [] = none
first_outside allowed (a ∷ rest) =
    if contains allowed a.addr then first_outside allowed rest else some a.addr

-- `leftover`
unfoldable pub leftover : List Addr6 → List Addr → Option Addr
unfolding first_outside globals
leftover read allowed = first_outside allowed (globals read)

-- `forever`
abbrev pub is_forever : ℤ → Bool
is_forever (pos n) = false
is_forever (negsuc n) = nat_eq n 0

-- `z > int64(n)`
abbrev pub above : ℤ → ℕ → Bool
above (pos m) n = ltb n m
above (negsuc m) n = false

abbrev pub second_ns : ℕ
second_ns = 10 ^ 9

-- `lftSlack`
abbrev pub lft_slack : ℕ
lft_slack = 15

-- `got >= int64(stated) - int64(elapsed/time.Second) - lftSlack`, the time elapsed between two
-- times, either of which may be the later; the division rounds to zero
unfoldable pub counted_down : ℕ → ℕ → ℕ → ℕ → Bool
counted_down got stated from to =
    if leb from to
    then leb stated (got + (to - from) / second_ns + lft_slack)
    else leb (stated + (from - to) / second_ns) (got + lft_slack)

-- `pioLft`, on the two times
unfoldable pub pio_lft : ℤ → ℕ → ℕ → ℕ → ℕ → Bool
unfolding counted_down
pio_lft (negsuc n) last ceiling from to = false
pio_lft (pos got) last ceiling from to =
    ltb 0 got && leb got ceiling && counted_down got last from to

-- `lftWithin`
unfoldable pub lft_within : ℤ → ℕ → ℕ → ℕ → Bool
unfolding counted_down
lft_within (negsuc n) stated from to = false
lft_within (pos got) stated from to = ltb 0 got && leb got stated && counted_down got stated from to
