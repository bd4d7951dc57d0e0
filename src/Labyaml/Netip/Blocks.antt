-- ===== src/Labyaml/Netip/Blocks.antt =====
-- internal/labyaml/schema.go: `overlaps` is that two prefixes share an address.
use native.Mathlib.Nat.{div-div-eq-div-mul, pow-suc, mul_assoc, add-zero, add-suc}
use native.Mathlib.Decide.{dec_le}
use docker_net_dhcp_lab.Labyaml.Netip.{
  Family, ip4, ip6, Addr, Prefix, width, span, holds, overlaps, family_eq,
}
use docker_net_dhcp_lab.Prelude.{
  ℕ, zero, suc, ◌+◌, ◌*◌, ◌^◌, ◌≤◌, ◌<◌, ◌≡◌, true, arith, ◌-◌, ◌/◌, refl, sym, subst, ◌∙◌, ◌↔◌,
  inl, inr, false, Bool-cases,
}

-- the prefix length fits the family, as every parsed prefix's does
abbrev pub IsValid : Prefix → Type 0
IsValid p = p.bits ≤ width p.addr.family

pub pow_pos : (n : ℕ) → 0 < 2 ^ n
pow_pos zero = omega arith
pow_pos (suc n) = rw pow-suc (omega (arith, pow_pos n))

pow_add : (m n : ℕ) → 2 ^ (m + n) ≡ 2 ^ m * 2 ^ n
pow_add m zero = rw add-zero (omega arith)
pow_add m (suc n) = simp (add-suc, pow-suc, pow_add m n, mul_assoc)

-- equal quotients stay equal under a larger divisor
coarse : (x y m n : ℕ) → x / m ≡ y / m → x / (m * n) ≡ y / (m * n)
coarse x y m n h = rw (← div-div-eq-div-mul x m n, ← div-div-eq-div-mul y m n, h) refl

span-split : (w a b : ℕ) → a ≤ b → b ≤ w → 2 ^ (w - a) ≡ 2 ^ (w - b) * 2 ^ (b - a)
span-split w a b p q =
    let e : w - a ≡ (w - b) + (b - a) = omega arith in rw e (pow_add (w - b) (b - a))

block_common :
    (w a b x y z : ℕ)
    → a ≤ b
    → b ≤ w
    → z / 2 ^ (w - a) ≡ x / 2 ^ (w - a)
    → z / 2 ^ (w - b) ≡ y / 2 ^ (w - b)
    → y / 2 ^ (w - a) ≡ x / 2 ^ (w - a)
block_common w a b x y z p q h k =
    subst (λ d. y / d ≡ z / d) (sym (span-split w a b p q))
      (coarse y z (2 ^ (w - b)) (2 ^ (b - a)) (sym k))
    ∙ h

family_eq_sound : (f g : Family) → family_eq f g ≡ true → f ≡ g
family_eq_sound ip4 g h = ground arith
family_eq_sound ip6 g h = ground arith

-- what `Prefix.Contains` compares
pub holds_iff :
    (p : Prefix) (a : Addr)
    → (holds p a ≡ true) ↔ ((p.addr.family ≡ a.family) × (a.value / span p ≡ p.addr.value / span p))
unfolding holds
holds_iff p a = ground arith

-- A prefix holds its own address.
pub holds_self : (p : Prefix) → holds p p.addr ≡ true
holds_self p = (holds_iff p p.addr).1 (refl, refl)

-- The address of the longer prefix decides.
pub holds-of_common :
    (a b : Prefix) (ip : Addr)
    → IsValid b
    → a.bits ≤ b.bits
    → holds a ip ≡ true
    → holds b ip ≡ true
    → holds a b.addr ≡ true
holds-of_common a b ip v le h k =
    let (f, x) = (holds_iff a ip).0 h in
    let (g, y) = (holds_iff b ip).0 k in
    let same : a.addr.family ≡ b.addr.family = f ∙ sym g in
    (holds_iff a b.addr).1 (same, numbers same x y)
  where
    numbers :
        a.addr.family ≡ b.addr.family
        → ip.value / span a ≡ a.addr.value / span a
        → ip.value / span b ≡ b.addr.value / span b
        → b.addr.value / span a ≡ a.addr.value / span a
    numbers same x y =
        unfold span in
        block_common (width a.addr.family) a.bits b.bits a.addr.value b.addr.value ip.value le
          (subst (λ f. b.bits ≤ width f) (sym same) v) x
          (subst (λ f. ip.value / 2 ^ (width f - b.bits) ≡ b.addr.value / 2 ^ (width f - b.bits))
            (sym same) y)

overlaps-of_common :
    (a b : Prefix) (ip : Addr)
    → IsValid a
    → IsValid b
    → holds a ip ≡ true
    → holds b ip ≡ true
    → overlaps a b ≡ true
unfolding overlaps
overlaps-of_common a b ip v w h k = elim (dec_le a.bits b.bits) [
  | yes le ↦ rw (holds-of_common a b ip w le h k) refl
  | no gt ↦ ground (arith, holds-of_common b a ip v (omega arith) k h)
]

-- Two prefixes that overlap share an address: the address of one of them.
overlaps-common :
    (a b : Prefix) → overlaps a b ≡ true → (ip : Addr) × (holds a ip ≡ true) × (holds b ip ≡ true)
unfolding overlaps
overlaps-common a b h = elim (Bool-cases (holds a b.addr)) [
  | inl e ↦ (b.addr, e, holds_self b)
  | inr e ↦ (a.addr, holds_self a, ground arith)
]

-- `overlaps` is that some address lies in both prefixes, whichever of them is the longer.
pub overlaps_iff :
    (a b : Prefix)
    → IsValid a
    → IsValid b
    → (overlaps a b ≡ true) ↔ ((ip : Addr) × (holds a ip ≡ true) × (holds b ip ≡ true))
overlaps_iff a b v w = (overlaps-common a b, λ c. overlaps-of_common a b c.0 v w c.1 c.2)

-- Two prefixes that do not overlap share no address.
pub overlaps-disjoint :
    (a b : Prefix) (ip : Addr)
    → IsValid a
    → IsValid b
    → overlaps a b ≡ false
    → holds a ip ≡ true
    → holds b ip ≡ false
overlaps-disjoint a b ip v w d h = elim (Bool-cases (holds b ip)) [
  | inl e ↦ ground (arith, overlaps-of_common a b ip v w h e)
  | inr e ↦ e
]
