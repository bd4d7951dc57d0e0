-- ===== src/Scenario/GroupD/Link/Laws.antt =====
-- What `leftover` and `lftWithin` tell of a link and of a lifetime.
use docker_net_dhcp_lab.Scenario.Judging.{keep}
use docker_net_dhcp_lab.Scenario.GroupD.Wire6.{Addr6}
use docker_net_dhcp_lab.Labyaml.Netip.{Addr, eq_addr}
use docker_net_dhcp_lab.Prelude.{
  List, ℤ, ℕ, ◌≡◌, not, true, All, ◌≤◌, ◌==◌, false, ◌&&◌, pos, codes, none, ◌<◌, arith, contains,
  negsuc, ◌↔◌, ◌+◌, refl, eq_text, ◌*◌, ◌-◌, ◌/◌, [], ◌∷◌, Bool-cases,
}
use docker_net_dhcp_lab.Scenario.GroupD.Link.{
  leftover, lft_within, counted_down, first_outside, is_forever, globals, above, second_ns,
  lft_slack,
}

-- every global address of a read is an allowed one
abbrev pub OnlyAllowed : List Addr → List Addr6 → Type 0
OnlyAllowed allowed read =
    All (λ b. (b.scope == codes "global") ≡ true → contains allowed b.addr ≡ true) read

pub leftover-none_iff :
    (read : List Addr6) (allowed : List Addr)
    → (leftover read allowed ≡ none) ↔ OnlyAllowed allowed read
unfolding leftover first_outside globals keep
leftover-none_iff [] allowed = (λ _. tt, λ _. refl)
leftover-none_iff (b ∷ read) allowed =
    let (into, out) = leftover-none_iff read allowed in
    (
      (λ h. (
        λ g. ground (arith, h, g),
        into (
            ground (
              arith,
              h,
              Bool-cases (contains allowed b.addr),
              Bool-cases (b.scope == codes "global"),
            )),
      )),
      λ (g, gs). ground (arith, g, out gs),
    )

-- A lifetime that `lftWithin` accepts is finite and above zero, at most what was stated, and ends no
-- more than the slack before the stated end, when the read is no earlier than the statement.
pub lft_within-bounds :
    (got : ℤ) (stated from to : ℕ)
    → lft_within got stated from to ≡ true
    → from ≤ to
    → (n : ℕ) × (got ≡ pos n)
      × (0 < n)
      × (n ≤ stated)
      × (from + stated * second_ns ≤ to + (n + lft_slack) * second_ns)
unfolding lft_within counted_down
lft_within-bounds (pos n) stated from to h le = (
  n,
  refl,
  ground (arith, h),
  ground (arith, h),
  (let down : stated ≤ n + (to - from) / second_ns + lft_slack = ground (arith, h, le) in
      omega (arith, down, le)),
)
lft_within-bounds (negsuc n) stated from to h le = absurd (ground (arith, h))

pub lft_within-finite :
    (got : ℤ) (stated from to : ℕ) → lft_within got stated from to ≡ true → is_forever got ≡ false
unfolding lft_within
lft_within-finite (pos n) stated from to h = refl
lft_within-finite (negsuc n) stated from to h = absurd (ground (arith, h))

pub finite_above : (z : ℤ) (n : ℕ) → (not (is_forever z) && above z n) ≡ above z n
finite_above (pos m) n = ground arith
finite_above (negsuc m) n = ground arith
