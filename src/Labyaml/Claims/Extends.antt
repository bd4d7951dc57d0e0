-- ===== src/Labyaml/Claims/Extends.antt =====
-- internal/labyaml/schema.go: the claims that a step of the validation starts from, adds and leaves.
use docker_net_dhcp_lab.Labyaml.Netip.{Prefix, Parsers, eq_prefix}
use docker_net_dhcp_lab.Labyaml.Config.{Field}
use docker_net_dhcp_lab.Labyaml.Claims.{Seen, nothing_seen, claim_bridge, claim_subnet, claim_mgmt}
use docker_net_dhcp_lab.Labyaml.Claims.Totals.{
  add, add_nothing, add_assoc, bridge_claim, subnet_claim, mgmt_claim,
}
use docker_net_dhcp_lab.Labyaml.Claims.Laws.{
  IsApart, claim_bridge_inv, claim_subnet_inv, claim_mgmt_inv, claim_bridge-IsApart,
  claim_subnet-IsApart, claim_mgmt-IsApart,
}
use docker_net_dhcp_lab.Prelude.{
  ok, ◌≡◌, sym, ap, subst, true, contains, contains-append, contains-concat, Text, eq_text, arith,
  ◌∙◌, ◌++◌, ◌∷◌, [],
}

-- whether a subnet has been claimed
abbrev pub HasSubnet : Prefix → Seen → Type 0
HasSubnet p s = contains s.subnets p ≡ true

-- from the claims s to t, by exactly the claims c, and apart if they were apart
pub record Extends (mgmt : Prefix) (s c t : Seen) : Type 0 where
  pub apart : IsApart mgmt s → IsApart mgmt t
  pub recorded : t ≡ add s c

pub Extends-refl : (mgmt : Prefix) (s : Seen) → Extends mgmt s nothing_seen s
Extends-refl mgmt s = record { apart = λ a. a; recorded = sym (add_nothing s) }

pub Extends-trans :
    (mgmt : Prefix) (s c t d u : Seen)
    → Extends mgmt s c t
    → Extends mgmt t d u
    → Extends mgmt s (add c d) u
Extends-trans mgmt s c t d u f g = record {
  apart = λ a. g.apart (f.apart a);
  recorded = g.recorded ∙ ap (λ x. add x d) f.recorded ∙ add_assoc s c d;
}

pub Extends-HasSubnet :
    (mgmt : Prefix) (s c t : Seen) (p : Prefix) → Extends mgmt s c t → HasSubnet p s → HasSubnet p t
Extends-HasSubnet mgmt s c t p e h =
    subst (HasSubnet p) (sym e.recorded) (ground (arith, contains-append s.subnets c.subnets p, h))

pub claim_bridge-Extends :
    (mgmt : Prefix) (f : Field) (b : Text) (s : Seen) {t : Seen}
    → claim_bridge f b s ≡ ok t
    → Extends mgmt s (bridge_claim b) t
claim_bridge-Extends mgmt f b s {t} h = record {
  apart = λ a. claim_bridge-IsApart mgmt f b s a h;
  recorded =
      (claim_bridge_inv f b s h).1
      ∙ sym (ap (λ (x : Seen). record x { bridges = s.bridges ++ b ∷ [] }) (add_nothing s));
}

module _ (netip : Parsers) (mgmt : Prefix) where
  pub claim_subnet-Extends :
      (f : Field) (text : Text) (s : Seen) {p : Prefix} {t : Seen}
      → claim_subnet netip mgmt f text s ≡ ok (p, t)
      → Extends mgmt s (subnet_claim (netip.parse_prefix text)) t
  claim_subnet-Extends f text s {p} {t} h =
      let g = claim_subnet_inv netip mgmt f text s h in
      rw g.parsed (record {
        apart = λ a. claim_subnet-IsApart netip mgmt f text s a h;
        recorded =
            g.recorded
            ∙ sym (ap (λ (x : Seen). record x { subnets = s.subnets ++ p ∷ [] }) (add_nothing s));
      })

  -- the subnet itself is claimed
  pub claim_subnet-HasSubnet :
      (f : Field) (text : Text) (s : Seen) {p : Prefix} {t : Seen}
      → claim_subnet netip mgmt f text s ≡ ok (p, t)
      → HasSubnet p t
  claim_subnet-HasSubnet f text s {p} {t} h =
      subst (HasSubnet p) (sym (claim_subnet_inv netip mgmt f text s h).recorded)
        (contains-concat s.subnets p)

  pub claim_mgmt-Extends :
      (f : Field) (text : Text) (s : Seen) {t : Seen}
      → claim_mgmt netip mgmt f text s ≡ ok t
      → Extends mgmt s (mgmt_claim (netip.parse_prefix text)) t
  claim_mgmt-Extends f text s {t} h =
      let (p, parsed, _, _, e) = claim_mgmt_inv netip mgmt f text s h in
      rw parsed (record {
        apart = λ a. claim_mgmt-IsApart netip mgmt f text s a h;
        recorded =
            e ∙ sym (ap (λ (x : Seen). record x { mgmt = s.mgmt ++ p.addr ∷ [] }) (add_nothing s));
      })
