-- ===== src/Scenario/GroupD/Slaac/Chosen.antt =====
-- `lastAutoPIO` in terms of the sequence of autonomous prefixes that were advertised.
use docker_net_dhcp_lab.Scenario.Judging.{keep}
use docker_net_dhcp_lab.Scenario.GroupD.Wire6.{RaMsg, Pio}
use docker_net_dhcp_lab.Scenario.GroupD.Slaac.{
  take_ras, take_pio, take_pios, last_auto_pio, D2Obs, Auto, max,
}
use docker_net_dhcp_lab.Labyaml.Netip.{Prefix, eq_prefix, prefix_beq_iff}
use docker_net_dhcp_lab.Prelude.{
  ℕ, Option, none, some, List, [], ◌∷◌, ◌++◌, map, All, All-append, All_map, any, Bool, true, false,
  ◌&&◌, ◌||◌, ◌==◌, ◌≡◌, ◌≤◌, refl, sym, ap, subst, arith, ltb, nat_eq, Bool-cases, inl, inr,
  append_nil, append_assoc, if◌then◌else◌, eq_self, ◌∙◌, eq_text,
}

-- the autonomous prefixes that were advertised no later than the cut, in order
pub sightings : ℕ → List RaMsg → List (RaMsg × Pio)
sightings cut [] = []
sightings cut (ra ∷ ras) =
    let rest = sightings cut ras in
    if ltb cut ra.at then rest else map (λ p. (ra, p)) (keep (λ p. p.auto) ra.pios) ++ rest

-- the largest of some lifetimes of a prefix
abbrev pub IsMost : (Pio → ℕ) → Prefix → ℕ → List (RaMsg × Pio) → Type 0
IsMost f q n seen =
    All (λ (y : RaMsg × Pio). (y.1.prefix == q) ≡ true → f y.1 ≤ n) seen
    × (any (λ (y : RaMsg × Pio). y.1.prefix == q && nat_eq (f y.1) n) seen ≡ true)

-- the prefix seen first, as it was last seen, with the largest lifetimes that it was seen with
pub record Chosen (seen : List (RaMsg × Pio)) (s : Auto) : Type 0 where
  pub first_prefix :
      (y : RaMsg × Pio) × (rest : List (RaMsg × Pio)) × (seen ≡ y ∷ rest)
      × (y.1.prefix ≡ s.pio.prefix)
  pub before : List (RaMsg × Pio)
  pub after : List (RaMsg × Pio)
  pub at_last : seen ≡ before ++ (s.last, s.pio) ∷ after
  pub not_later : All (λ (y : RaMsg × Pio). (y.1.prefix == s.pio.prefix) ≡ false) after
  pub most_valid : IsMost (λ p. p.valid) s.pio.prefix s.max_valid seen
  pub most_pref : IsMost (λ p. p.pref) s.pio.prefix s.max_pref seen

abbrev ChosenIn : List (RaMsg × Pio) → Option Auto → Type 0
ChosenIn seen none = seen ≡ []
ChosenIn seen (some s) = Chosen seen s

module _ {A : Type 0} where
  any-append : (p : A → Bool) (xs ys : List A) → any p (xs ++ ys) ≡ (any p xs || any p ys)
  any-append p [] ys = refl
  any-append p (x ∷ xs) ys = ground (arith, any-append p xs ys)

module _ (f : Pio → ℕ) (ra : RaMsg) (p : Pio) where
  IsMost-one : IsMost f p.prefix (f p) ((ra, p) ∷ [])
  IsMost-one = ((λ _. omega arith, tt), ground (arith, eq_self p.prefix))

  IsMost-other :
      (q : Prefix) (n : ℕ) (seen : List (RaMsg × Pio))
      → (p.prefix == q) ≡ false
      → IsMost f q n seen
      → IsMost f q n (seen ++ (ra, p) ∷ [])
  IsMost-other q n seen other (below, reached) = (
    All-append _ seen ((ra, p) ∷ []) below (λ same. absurd (ground (arith, other, same)), tt),
    ground (
      arith,
      reached,
      any-append (λ (y : RaMsg × Pio). y.1.prefix == q && nat_eq (f y.1) n) seen ((ra, p) ∷ []),
    ),
  )

  IsMost-same :
      (n : ℕ) (seen : List (RaMsg × Pio))
      → IsMost f p.prefix n seen
      → IsMost f p.prefix (max n (f p)) (seen ++ (ra, p) ∷ [])
  IsMost-same n seen (below, reached) = elim (Bool-cases (ltb n (f p))) [
    | inl more ↦ rw more (
      All-append _ seen ((ra, p) ∷ [])
          (All_map (λ y g same. let le = g same in ground (arith, le, more)) seen below)
          (λ _. omega arith, tt),
      ground (
        arith,
        eq_self p.prefix,
        any-append (λ (y : RaMsg × Pio). y.1.prefix == p.prefix && nat_eq (f y.1) (f p)) seen
            ((ra, p) ∷ []),
      ),
    )
    | inr less ↦ rw less (
      All-append _ seen ((ra, p) ∷ []) below (λ _. ground (arith, less), tt),
      ground (
        arith,
        reached,
        any-append (λ (y : RaMsg × Pio). y.1.prefix == p.prefix && nat_eq (f y.1) n) seen
            ((ra, p) ∷ []),
      ),
    )
  ]

take_pio-first :
    (ra : RaMsg) (p : Pio)
    → Chosen ((ra, p) ∷ []) (record { pio = p; last = ra; max_valid = p.valid; max_pref = p.pref })
take_pio-first ra p = record {
  first_prefix = ((ra, p), [], refl, refl);
  before = [];
  after = [];
  at_last = refl;
  not_later = tt;
  most_valid = IsMost-one (λ p. p.valid) ra p;
  most_pref = IsMost-one (λ p. p.pref) ra p;
}

take_pio-other :
    (ra : RaMsg) (p : Pio) (seen : List (RaMsg × Pio)) (s : Auto)
    → (p.prefix == s.pio.prefix) ≡ false
    → Chosen seen s
    → Chosen (seen ++ (ra, p) ∷ []) s
take_pio-other ra p seen s other c =
    let (y, rest, e, same) = c.first_prefix in
    record {
      first_prefix = (y, rest ++ (ra, p) ∷ [], ap (λ xs. xs ++ (ra, p) ∷ []) e, same);
      before = c.before;
      after = c.after ++ (ra, p) ∷ [];
      at_last =
          ap (λ xs. xs ++ (ra, p) ∷ []) c.at_last
          ∙ append_assoc c.before ((s.last, s.pio) ∷ c.after) ((ra, p) ∷ []);
      not_later = All-append _ c.after ((ra, p) ∷ []) c.not_later (other, tt);
      most_valid =
          IsMost-other (λ p. p.valid) ra p s.pio.prefix s.max_valid seen other c.most_valid;
      most_pref = IsMost-other (λ p. p.pref) ra p s.pio.prefix s.max_pref seen other c.most_pref;
    }

take_pio-same :
    (ra : RaMsg) (p : Pio) (seen : List (RaMsg × Pio)) (s : Auto)
    → p.prefix ≡ s.pio.prefix
    → Chosen seen s
    → Chosen (seen ++ (ra, p) ∷ []) (record {
      pio = p;
      last = ra;
      max_valid = max s.max_valid p.valid;
      max_pref = max s.max_pref p.pref;
    })
take_pio-same ra p seen s e c =
    let (y, rest, split, same) = c.first_prefix in
    record {
      first_prefix = (y, rest ++ (ra, p) ∷ [], ap (λ xs. xs ++ (ra, p) ∷ []) split, same ∙ sym e);
      before = seen;
      after = [];
      at_last = refl;
      not_later = tt;
      most_valid =
          IsMost-same (λ p. p.valid) ra p s.max_valid seen
            (subst (λ q. IsMost (λ p. p.valid) q s.max_valid seen) (sym e) c.most_valid);
      most_pref =
          IsMost-same (λ p. p.pref) ra p s.max_pref seen
            (subst (λ q. IsMost (λ p. p.pref) q s.max_pref seen) (sym e) c.most_pref);
    }

-- an advertised prefix that is not autonomous is no sighting
abbrev sighting : RaMsg → Pio → List (RaMsg × Pio)
sighting ra p = if p.auto then (ra, p) ∷ [] else []

take_pio-ChosenIn :
    (ra : RaMsg) (p : Pio) (seen : List (RaMsg × Pio)) (s : Option Auto)
    → ChosenIn seen s
    → ChosenIn (seen ++ sighting ra p) (take_pio ra p s)
unfolding take_pio
take_pio-ChosenIn ra p seen none c = elim (Bool-cases p.auto) [
  | inl auto ↦ simp (auto, c) (take_pio-first ra p)
  | inr managed ↦ rw managed (append_nil seen ∙ c)
]
take_pio-ChosenIn ra p seen (some s) c = elim (Bool-cases p.auto) [
  | inr managed ↦ rw (managed, append_nil seen) c
  | inl auto ↦ elim (Bool-cases (p.prefix == s.pio.prefix)) [
    | inl same ↦
        simp (auto, same)
          (take_pio-same ra p seen s ((prefix_beq_iff p.prefix s.pio.prefix).0 same) c)
    | inr other ↦ simp (auto, other) (take_pio-other ra p seen s other c)
  ]
]

sighting-keep :
    (ra : RaMsg) (p : Pio) (ps : List Pio)
    → map (λ x. (ra, x)) (keep (λ x. x.auto) (p ∷ ps))
      ≡ sighting ra p ++ map (λ x. (ra, x)) (keep (λ x. x.auto) ps)
unfolding keep
sighting-keep ra p ps = elim (Bool-cases p.auto) [ inl e ↦ rw e refl | inr e ↦ rw e refl ]

take_pios-ChosenIn :
    (ra : RaMsg) (ps : List Pio) (seen : List (RaMsg × Pio)) (s : Option Auto)
    → ChosenIn seen s
    → ChosenIn (seen ++ map (λ x. (ra, x)) (keep (λ x. x.auto) ps)) (take_pios ra ps s)
unfolding take_pios keep
take_pios-ChosenIn ra [] seen s c = subst (λ xs. ChosenIn xs s) (sym (append_nil seen)) c
take_pios-ChosenIn ra (p ∷ ps) seen s c =
    subst (λ xs. ChosenIn xs (take_pios ra ps (take_pio ra p s)))
      (append_assoc seen (sighting ra p) (map (λ x. (ra, x)) (keep (λ x. x.auto) ps))
        ∙ ap (λ xs. seen ++ xs) (sym (sighting-keep ra p ps)))
      (take_pios-ChosenIn ra ps (seen ++ sighting ra p) (take_pio ra p s)
        (take_pio-ChosenIn ra p seen s c))

take_ras-ChosenIn :
    (cut : ℕ) (ras : List RaMsg) (seen : List (RaMsg × Pio)) (s : Option Auto)
    → ChosenIn seen s
    → ChosenIn (seen ++ sightings cut ras) (take_ras cut ras s)
unfolding take_ras sightings
take_ras-ChosenIn cut [] seen s c = subst (λ xs. ChosenIn xs s) (sym (append_nil seen)) c
take_ras-ChosenIn cut (ra ∷ ras) seen s c = elim (Bool-cases (ltb cut ra.at)) [
  | inl late ↦ rw late (take_ras-ChosenIn cut ras seen s c)
  | inr early ↦ rw early (
      subst (λ xs. ChosenIn xs (take_ras cut ras (take_pios ra ra.pios s)))
        (append_assoc seen (map (λ x. (ra, x)) (keep (λ x. x.auto) ra.pios)) (sightings cut ras))
        (take_ras-ChosenIn cut ras (seen ++ map (λ x. (ra, x)) (keep (λ x. x.auto) ra.pios))
          (take_pios ra ra.pios s) (take_pios-ChosenIn ra ra.pios seen s c)))
]

-- What `lastAutoPIO` finds is the first autonomous prefix advertised by the settled read, as it was
-- last advertised, with the largest lifetimes that it carried.
pub last_auto_pio-Chosen :
    (o : D2Obs) (s : Auto) → last_auto_pio o ≡ some s → Chosen (sightings o.settled.at o.ras) s
unfolding last_auto_pio
last_auto_pio-Chosen o s h =
    subst (ChosenIn (sightings o.settled.at o.ras)) h
      (take_ras-ChosenIn o.settled.at o.ras [] none refl)
