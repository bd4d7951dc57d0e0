-- ===== src/Labyaml/Claims/Laws.antt =====
-- internal/labyaml/schema.go: claims keep bridges, subnets and management addresses apart.
use docker_net_dhcp_lab.Labyaml.Netip.{eq_addr, Prefix, Parsers, holds, overlaps}
use docker_net_dhcp_lab.Labyaml.Config.{Field}
use docker_net_dhcp_lab.Labyaml.Claims.{
  lab_range, Seen, claim_bridge, check_subnet_free, must_be_lab_range, claim_subnet, claim_mgmt,
}
use docker_net_dhcp_lab.Prelude.{
  ok, ◌≡◌, subst, true, false, List, [], ◌∷◌, arith, any, All, Eq, contains, EachAfter,
  EachAfter-concat, Text, eq_text, sym, inl, inr, some, ◌++◌, Option-cases, All-append,
}

abbrev pub IsNew {ℓ} : {A : Type ℓ} ⦃e : Eq A⦄ → List A → A → Type 0
IsNew seen a = contains seen a ≡ false

abbrev pub Disjoint : List Prefix → Prefix → Type 0
Disjoint seen p = All (λ q. overlaps p q ≡ false) seen

-- The claims so far: no bridge twice, no two subnets that overlap, no subnet that overlaps the
-- management network, no management address twice or outside that network, no uplink twice, and no
-- two IPv6 subnets that overlap.
pub record IsApart (mgmt : Prefix) (s : Seen) : Type 0 where
  pub bridges_new : EachAfter IsNew [] s.bridges
  pub subnets_disjoint : EachAfter Disjoint [] s.subnets
  pub off_mgmt : All (λ p. overlaps p mgmt ≡ false) s.subnets
  pub mgmt_new : EachAfter IsNew [] s.mgmt
  pub in_mgmt : All (λ a. holds mgmt a ≡ true) s.mgmt
  pub uplinks_new : EachAfter IsNew [] s.uplinks
  pub subnets6_disjoint : EachAfter Disjoint [] s.subnets6

pub any-false : (p : Prefix) (qs : List Prefix) → any (λ q. overlaps p q) qs ≡ false → Disjoint qs p
any-false p [] h = tt
any-false p (q ∷ qs) h = (ground arith, any-false p qs (ground arith))

-- what a granted claim found and recorded
pub claim_bridge_inv :
    (f : Field) (b : Text) (s : Seen) {t : Seen}
    → claim_bridge f b s ≡ ok t
    → (contains s.bridges b ≡ false) × (t ≡ record s { bridges = s.bridges ++ b ∷ [] })
unfolding claim_bridge
claim_bridge_inv f b s h = ground arith

check_subnet_free_inv :
    (f : Field) (p mgmt : Prefix) (seen : List Prefix)
    → check_subnet_free f p mgmt seen ≡ ok tt
    → (overlaps p mgmt ≡ false) × (any (λ q. overlaps p q) seen ≡ false)
unfolding check_subnet_free
check_subnet_free_inv f p mgmt seen h = ground arith

pub claim_bridge-IsApart :
    (mgmt : Prefix) (f : Field) (b : Text) (s : Seen) {t : Seen}
    → IsApart mgmt s
    → claim_bridge f b s ≡ ok t
    → IsApart mgmt t
claim_bridge-IsApart mgmt f b s a h =
    let (new, e) = claim_bridge_inv f b s h in
    subst (IsApart mgmt) (sym e) (record {
      bridges_new = EachAfter-concat IsNew [] s.bridges b a.bridges_new new;
      subnets_disjoint = a.subnets_disjoint;
      off_mgmt = a.off_mgmt;
      mgmt_new = a.mgmt_new;
      in_mgmt = a.in_mgmt;
      uplinks_new = a.uplinks_new;
      subnets6_disjoint = a.subnets6_disjoint;
    })

module _ (netip : Parsers) (mgmt : Prefix) where
  -- what a granted subnet satisfies
  pub record Granted (text : Text) (s : Seen) (p : Prefix) (t : Seen) : Type 0 where
    pub parsed : netip.parse_prefix text ≡ some p
    pub in_lab : holds lab_range p.addr ≡ true
    pub free_of_mgmt : overlaps p mgmt ≡ false
    pub free : Disjoint s.subnets p
    pub recorded : t ≡ record s { subnets = s.subnets ++ p ∷ [] }

  pub must_be_lab_range_inv :
      (f : Field) (p : Prefix) → must_be_lab_range f p ≡ ok tt → holds lab_range p.addr ≡ true
  unfolding must_be_lab_range
  must_be_lab_range_inv f p h = ground arith

  pub claim_subnet_inv :
      (f : Field) (text : Text) (s : Seen) {p : Prefix} {t : Seen}
      → claim_subnet netip mgmt f text s ≡ ok (p, t)
      → Granted text s p t
  unfolding claim_subnet
  claim_subnet_inv f text s {p} {t} h = elim (Option-cases (netip.parse_prefix text)) [
    | inl e ↦ absurd (ground arith)
    | inr (q, e) ↦ record {
      parsed = ground arith;
      in_lab = ground arith;
      free_of_mgmt = ground arith;
      free = any-false p s.subnets (ground arith);
      recorded = ground arith;
    }
  ]

  pub claim_subnet-IsApart :
      (f : Field) (text : Text) (s : Seen) {p : Prefix} {t : Seen}
      → IsApart mgmt s
      → claim_subnet netip mgmt f text s ≡ ok (p, t)
      → IsApart mgmt t
  claim_subnet-IsApart f text s {p} a h =
      let g = claim_subnet_inv f text s h in
      subst (IsApart mgmt) (sym g.recorded) (record {
        bridges_new = a.bridges_new;
        subnets_disjoint = EachAfter-concat Disjoint [] s.subnets p a.subnets_disjoint g.free;
        off_mgmt =
            All-append (λ p. overlaps p mgmt ≡ false) s.subnets (p ∷ []) a.off_mgmt
              (g.free_of_mgmt, tt);
        mgmt_new = a.mgmt_new;
        in_mgmt = a.in_mgmt;
        uplinks_new = a.uplinks_new;
        subnets6_disjoint = a.subnets6_disjoint;
      })

  pub claim_mgmt_inv :
      (f : Field) (text : Text) (s : Seen) {t : Seen}
      → claim_mgmt netip mgmt f text s ≡ ok t
      → (p : Prefix) × (netip.parse_prefix text ≡ some p)
        × (holds mgmt p.addr ≡ true)
        × (contains s.mgmt p.addr ≡ false)
        × (t ≡ record s { mgmt = s.mgmt ++ p.addr ∷ [] })
  unfolding claim_mgmt
  claim_mgmt_inv f text s h = elim (Option-cases (netip.parse_prefix text)) [
    | inl e ↦ absurd (ground arith)
    | inr (q, e) ↦ (q, e, ground arith, ground arith, ground arith)
  ]

  pub claim_mgmt-IsApart :
      (f : Field) (text : Text) (s : Seen) {t : Seen}
      → IsApart mgmt s
      → claim_mgmt netip mgmt f text s ≡ ok t
      → IsApart mgmt t
  claim_mgmt-IsApart f text s a h =
      let (p, _, inside, new, e) = claim_mgmt_inv f text s h in
      subst (IsApart mgmt) (sym e) (record {
        bridges_new = a.bridges_new;
        subnets_disjoint = a.subnets_disjoint;
        off_mgmt = a.off_mgmt;
        mgmt_new = EachAfter-concat IsNew [] s.mgmt p.addr a.mgmt_new new;
        in_mgmt = All-append (λ a. holds mgmt a ≡ true) s.mgmt (p.addr ∷ []) a.in_mgmt (inside, tt);
        uplinks_new = a.uplinks_new;
        subnets6_disjoint = a.subnets6_disjoint;
      })
