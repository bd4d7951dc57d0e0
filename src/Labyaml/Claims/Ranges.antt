-- ===== src/Labyaml/Claims/Ranges.antt =====
-- internal/labyaml/schema.go: `mustBeLabRange` tests one address of a prefix only; what its comment
-- says, that a prefix wider than the lab's range is refused too, holds where the subnet is also free.
use native.Mathlib.Decide.{dec_le}
use docker_net_dhcp_lab.Labyaml.Netip.{Addr, Prefix, Parsers, holds, span, overlaps, width}
use docker_net_dhcp_lab.Labyaml.Netip.Blocks.{IsValid, holds_iff, holds_self, holds-of_common}
use docker_net_dhcp_lab.Labyaml.Config.{Field}
use docker_net_dhcp_lab.Labyaml.Claims.{lab_range, Seen, claim_subnet, ok}
use docker_net_dhcp_lab.Labyaml.Claims.Laws.{claim_subnet_inv}
use docker_net_dhcp_lab.Prelude.{ℕ, ◌≤◌, ◌≡◌, true, ◌-◌, ◌/◌, ◌^◌, sym, subst, ◌∙◌, arith, Text}

abbrev block : Addr → ℕ → Prefix
block a n = record { addr = a; bits = n }

-- two addresses of one block: either names the block
block_trans :
    (x y z : Addr) (n : ℕ)
    → holds (block x n) y ≡ true
    → holds (block x n) z ≡ true
    → holds (block y n) z ≡ true
block_trans x y z n h k =
    let (f, e) = (holds_iff (block x n) y).0 h in
    let (g, d) = (holds_iff (block x n) z).0 k in
    (holds_iff (block y n) z).1 (sym f ∙ g, numbers f (d ∙ sym e))
  where
    numbers :
        x.family ≡ y.family
        → z.value / span (block x n) ≡ y.value / span (block x n)
        → z.value / span (block y n) ≡ y.value / span (block y n)
    numbers f e =
        unfold span in subst (λ f. z.value / 2 ^ (width f - n) ≡ y.value / 2 ^ (width f - n)) f e

-- a prefix that starts in the lab's range and is no wider lies in it
narrow-inside :
    (p : Prefix) (ip : Addr)
    → IsValid p
    → 16 ≤ p.bits
    → holds lab_range p.addr ≡ true
    → holds p ip ≡ true
    → holds lab_range ip ≡ true
narrow-inside p ip v le l h =
    holds-of_common lab_range (block ip p.bits) p.addr
      (subst (λ f. p.bits ≤ width f) ((holds_iff p ip).0 h).0 v) le l
      (block_trans p.addr ip p.addr p.bits h (holds_self p))

-- a prefix that starts in the lab's range and is no longer holds every address of it
wide-covers :
    (p : Prefix) (m : Addr)
    → p.bits ≤ 16
    → holds lab_range p.addr ≡ true
    → holds lab_range m ≡ true
    → holds p m ≡ true
wide-covers p m le l k =
    holds-of_common p (block m 16) p.addr
      (subst (λ f. 16 ≤ width f) ((holds_iff lab_range m).0 k).0 (omega arith)) le (holds_self p)
      (block_trans lab_range.addr m p.addr 16 k l)

-- Every address of a subnet that a cell is granted is in the lab's range, where the management
-- network starts in it and the parsed prefix length fits the family.
pub claim_subnet-InLab :
    (netip : Parsers) (mgmt : Prefix) (f : Field) (text : Text) (s : Seen) (p : Prefix) (t : Seen)
    → IsValid p
    → holds lab_range mgmt.addr ≡ true
    → claim_subnet netip mgmt f text s ≡ ok (p, t)
    → (ip : Addr) → holds p ip ≡ true
    → holds lab_range ip ≡ true
unfolding overlaps
claim_subnet-InLab netip mgmt f text s p t v m h ip inside =
    let g = claim_subnet_inv netip mgmt f text s h in
    elim (dec_le 16 p.bits) [
      | yes le ↦ narrow-inside p ip v le g.in_lab inside
      | no gt ↦
          absurd (ground (arith, g.free_of_mgmt, wide-covers p mgmt.addr (omega arith) g.in_lab m))
    ]
