-- ===== src/Labyaml/Netip.antt =====
-- What internal/labyaml uses of Go's package net/netip. An address is its family and its number;
-- the text parsers are parameters where they are used.
pub mod Blocks
pub mod Ranges
use docker_net_dhcp_lab.Prelude.{
  ℕ, ◌+◌, ◌-◌, ◌*◌, ◌/◌, ◌^◌, ◌≡◌, ◌↔◌, Bool, true, false, ◌&&◌, ◌||◌, Option, arith, ltb, leb,
  nat_eq, Eq, ◌==◌, Text, eq_text, if◌then◌else◌, ◌⊎◌, inl, inr, refl,
}

pub data Family : Type 0 where
  ip4 ip6 : Family

-- `netip.Addr`, with no zone
pub record Addr : Type 0 where
  pub family : Family
  pub value : ℕ

-- a valid `netip.Prefix`
pub record Prefix : Type 0 where
  pub addr : Addr
  pub bits : ℕ

-- the zero prefix of an absent field is `none`
pub record Parsers : Type 0 where
  pub parse_prefix : Text → Option Prefix
  pub parse_addr : Text → Option Addr

abbrev pub family_eq : Family → Family → Bool
family_eq ip4 ip4 = true
family_eq ip6 ip6 = true
family_eq _ _ = false

pub Family-cases : (f : Family) → (f ≡ ip4) ⊎ (f ≡ ip6)
Family-cases ip4 = inl refl
Family-cases ip6 = inr refl

-- `Addr.BitLen`
abbrev pub width : Family → ℕ
width ip4 = 32
width ip6 = 128

-- how many addresses a prefix spans
unfoldable pub span : Prefix → ℕ
span p = 2 ^ (width p.addr.family - p.bits)

-- `Addr.Compare(b) <= 0` and `< 0`: IPv4 sorts before IPv6
unfoldable pub addr_le : Addr → Addr → Bool
addr_le a b =
    ltb (width a.family) (width b.family) || (family_eq a.family b.family && leb a.value b.value)

unfoldable pub addr_lt : Addr → Addr → Bool
addr_lt a b =
    ltb (width a.family) (width b.family) || (family_eq a.family b.family && ltb a.value b.value)

unfoldable pub addr_beq : Addr → Addr → Bool
addr_beq a b = family_eq a.family b.family && nat_eq a.value b.value

pub addr_beq_iff : (a b : Addr) → (addr_beq a b ≡ true) ↔ (a ≡ b)
unfolding addr_beq
addr_beq_iff a b = ground arith

instance abbrev pub eq_addr : Eq Addr
eq_addr = record { beq = addr_beq; beq_iff = addr_beq_iff }

-- `Prefix.Contains`
unfoldable pub holds : Prefix → Addr → Bool
unfolding span
holds p a = family_eq p.addr.family a.family && nat_eq (a.value / span p) (p.addr.value / span p)

-- `Prefix.Masked`
unfoldable pub masked : Prefix → Prefix
unfolding span
masked p = record p {
  addr = record { family = p.addr.family; value = p.addr.value / span p * span p };
}

unfoldable pub prefix_beq : Prefix → Prefix → Bool
prefix_beq p q = p.addr == q.addr && nat_eq p.bits q.bits

pub prefix_beq_iff : (p q : Prefix) → (prefix_beq p q ≡ true) ↔ (p ≡ q)
unfolding prefix_beq
prefix_beq_iff p q = ground (arith, addr_beq_iff p.addr q.addr)

instance abbrev pub eq_prefix : Eq Prefix
eq_prefix = record { beq = prefix_beq; beq_iff = prefix_beq_iff }

-- `overlaps` of schema.go
unfoldable pub overlaps : Prefix → Prefix → Bool
overlaps a b = holds a b.addr || holds b a.addr

-- `Addr.As16`, as a number: an IPv4 address is mapped into IPv6
abbrev pub as16 : Addr → ℕ
as16 a = if family_eq a.family ip4 then 65535 * 2 ^ 32 + a.value else a.value

-- `lastAddr` of schema.go: the bits of `As16` of the network address from the prefix length on, set;
-- always an IPv6 address
unfoldable pub last_addr : Prefix → Addr
unfolding masked
last_addr p =
    let block = 2 ^ (128 - p.bits) in
    record { family = ip6; value = as16 (masked p).addr / block * block + (block - 1) }
