-- ===== src/Labyaml/Netip/Ranges.antt =====
-- internal/labyaml/schema.go: a prefix as the range from its network address to `lastAddr`.
use native.Mathlib.Nat.{div-mul-le_self, lt-div-mul-add, div-eq_of_lt-le}
use docker_net_dhcp_lab.Labyaml.Netip.{
  Addr, Prefix, width, span, addr_le, holds, masked, last_addr, ip6,
}
use docker_net_dhcp_lab.Labyaml.Netip.Blocks.{pow_pos}
use docker_net_dhcp_lab.Prelude.{
  ℕ, ◌+◌, ◌-◌, ◌*◌, ◌/◌, ◌≤◌, ◌<◌, ◌≡◌, ◌↔◌, true, arith, ◌^◌, subst, refl,
}

span_pos : (p : Prefix) → 0 < span p
unfolding span
span_pos p = pow_pos (width p.addr.family - p.bits)

-- a number of a block lies between the block's ends
block_ends : (x y s : ℕ) → 0 < s → x / s ≡ y / s → (y / s * s ≤ x) × (x ≤ y / s * s + (s - 1))
block_ends x y s pos h =
    rw (← h) (div-mul-le_self x s, omega (arith, lt-div-mul-add {a = x} {b = s} pos))

-- a number between the ends of a block is of the block
of_block_ends : (x q s : ℕ) → 0 < s → q * s ≤ x → x ≤ q * s + (s - 1) → x / s ≡ q
of_block_ends x q s pos low high = div-eq_of_lt-le s {m = x} low (omega arith)

-- what is left of a block's start when the block is cut again
block_start : (n s : ℕ) → 0 < s → n / s * s / s ≡ n / s
block_start n s pos = of_block_ends (n / s * s) (n / s) s pos (omega arith) (omega arith)

last_value :
    (p : Prefix)
    → p.addr.family ≡ ip6
    → last_addr p
      ≡ record { family = p.addr.family; value = p.addr.value / span p * span p + (span p - 1) }
unfolding last_addr masked span
last_value p six =
    rw (six, block_start p.addr.value (2 ^ (128 - p.bits)) (pow_pos (128 - p.bits))) refl

-- an address that a prefix of either family holds is not below the network address
pub holds-above : (p : Prefix) (a : Addr) → holds p a ≡ true → addr_le (masked p).addr a ≡ true
unfolding holds masked addr_le span
holds-above p a h =
    let s = 2 ^ (width p.addr.family - p.bits) in
    let same : a.value / s ≡ p.addr.value / s = ground arith in
    let ends = block_ends a.value p.addr.value s (pow_pos (width p.addr.family - p.bits)) same in
    ground (arith, ends.0)

holds-between :
    (p : Prefix) (a : Addr)
    → p.addr.family ≡ ip6
    → holds p a ≡ true
    → (addr_le (masked p).addr a ≡ true) × (addr_le a (last_addr p) ≡ true)
unfolding holds masked addr_le span
holds-between p a six h =
    let s = 2 ^ (width p.addr.family - p.bits) in
    let same : a.value / s ≡ p.addr.value / s = ground arith in
    let ends = block_ends a.value p.addr.value s (pow_pos (width p.addr.family - p.bits)) same in
    rw (last_value p six) (ground (arith, ends))

between-holds :
    (p : Prefix) (a : Addr)
    → p.addr.family ≡ ip6
    → addr_le (masked p).addr a ≡ true
    → addr_le a (last_addr p) ≡ true
    → holds p a ≡ true
unfolding holds masked addr_le span
between-holds p a six l h =
    let s = 2 ^ (width p.addr.family - p.bits) in
    let to : addr_le a (record { family = p.addr.family; value = p.addr.value / s * s + (s - 1) })
        ≡ true =
      subst (λ (b : Addr). addr_le a b ≡ true) (last_value p six) h in
    let low : p.addr.value / s * s ≤ a.value = ground arith in
    let high : a.value ≤ p.addr.value / s * s + (s - 1) = ground arith in
    let same =
      of_block_ends a.value (p.addr.value / s) s (pow_pos (width p.addr.family - p.bits)) low
        high in
    ground (arith, same)

-- An IPv6 prefix holds exactly the addresses from its network address to `lastAddr`, which reads an
-- IPv4 prefix as an IPv6 one.
pub holds_iff_between :
    (p : Prefix) (a : Addr)
    → p.addr.family ≡ ip6
    → (holds p a ≡ true) ↔ ((addr_le (masked p).addr a ≡ true) × (addr_le a (last_addr p) ≡ true))
holds_iff_between p a six = (holds-between p a six, λ b. between-holds p a six b.0 b.1)
