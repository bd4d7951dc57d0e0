-- ===== src/Scenario/GroupE/Windows/Laws.antt =====
-- internal/scenario/groupe_judge.go: `windowGroups` loses no line, and opens a second group for an
-- address only past the window of the one before.
use docker_net_dhcp_lab.Prelude.{
  ℕ, zero, suc, ◌+◌, ◌<◌, ◌≡◌, refl, sym, ap, subst, ◌∙◌, inl, inr, Option, none, some, List, [],
  ◌∷◌, ◌++◌, map, arith, if◌then◌else◌, Bool-cases, Option-cases, length, length-append, append_nil,
  get_elem?, get_elem?-append_left, get_elem?-concat, length-map, ◌==◌, eq_nat, text_eq_iff,
  eq_text, count, count-append, lookup, EachAfter, EachAfter-concat, EachAfter-split, Text,
  map-append, append_assoc,
}
use docker_net_dhcp_lab.Scenario.GroupE.Windows.{
  Group, bump, taken_by, window, Grouping, takes, place, add_line, group_from, window_groups,
}

-- The address and the time of a group's first line.
abbrev pub Stamp : Type 0
Stamp = Text × ℕ

abbrev pub stamps : List Group → List Stamp
stamps = map (λ g. (g.ip, g.first))

-- The stamp of the last group of an address.
unfoldable pub last_stamp : Text → List Stamp → Option Stamp
last_stamp ip [] = none
last_stamp ip (s ∷ ss) = elim (last_stamp ip ss) [
  | some t ↦ some t
  | none ↦ if s.0 == ip then some s else none
]

-- The lines of all groups of an address.
unfoldable pub lines_of : Text → List Group → ℕ
lines_of ip [] = 0
lines_of ip (g ∷ gs) = (if g.ip == ip then g.lines else 0) + lines_of ip gs

stamps-bump : (i : ℕ) (gs : List Group) → stamps (bump i gs) ≡ stamps gs
unfolding bump
stamps-bump i [] = refl
stamps-bump zero (g ∷ gs) = refl
stamps-bump (suc i) (g ∷ gs) = ap (◌∷◌ (g.ip, g.first)) (stamps-bump i gs)

lines_of-bump :
    (ip : Text) (i : ℕ) (gs : List Group) (g : Group)
    → get_elem? gs i ≡ some g
    → lines_of ip (bump i gs) ≡ lines_of ip gs + (if g.ip == ip then 1 else 0)
unfolding bump lines_of
lines_of-bump ip i [] g h = ground arith
lines_of-bump ip zero (x ∷ gs) g h = ground arith
lines_of-bump ip (suc i) (x ∷ gs) g h = omega (arith, lines_of-bump ip i gs g h)

lines_of-append :
    (ip : Text) (gs hs : List Group) → lines_of ip (gs ++ hs) ≡ lines_of ip gs + lines_of ip hs
unfolding lines_of
lines_of-append ip [] hs = omega arith
lines_of-append ip (g ∷ gs) hs = omega (arith, lines_of-append ip gs hs)

last_stamp-concat :
    (ip : Text) (ss : List Stamp) (s : Stamp)
    → last_stamp ip (ss ++ s ∷ []) ≡ (if s.0 == ip then some s else last_stamp ip ss)
unfolding last_stamp
last_stamp-concat ip [] s = ground arith
last_stamp-concat ip (x ∷ ss) s = ground (arith, last_stamp-concat ip ss s)

last_stamp-ip : (ip : Text) (ss : List Stamp) (s : Stamp) → last_stamp ip ss ≡ some s → s.0 ≡ ip
unfolding last_stamp
last_stamp-ip ip [] s h = ground arith
last_stamp-ip ip (x ∷ ss) s h = ground (arith, last_stamp-ip ip ss s, text_eq_iff x.0 ip)

-- the stamp of the group that `open` names
abbrev held : Option ℕ → List Group → Option Stamp
held none gs = none
held (some i) gs = get_elem? (stamps gs) i

get_elem?-stamps :
    (gs : List Group) (i : ℕ) (g : Group)
    → get_elem? gs i ≡ some g
    → get_elem? (stamps gs) i ≡ some (g.ip, g.first)
get_elem?-stamps [] i g h = cc
get_elem?-stamps (x ∷ gs) zero g h = ground arith
get_elem?-stamps (x ∷ gs) (suc i) g h = get_elem?-stamps gs i g h

taken_by-some :
    (o : Option ℕ) (gs : List Group) (at i : ℕ)
    → taken_by o gs at ≡ some i
    → (g : Group) × (o ≡ some i) × (get_elem? gs i ≡ some g)
unfolding taken_by takes
taken_by-some none gs at i h = cc
taken_by-some (some j) gs at i h = elim (Option-cases (get_elem? gs j)) [
  | inl e ↦ absurd (ground arith)
  | inr (g, e) ↦ (g, ground arith, ground arith)
]

get_elem?-none : (gs : List Group) (i : ℕ) → get_elem? gs i ≡ none → get_elem? (stamps gs) i ≡ none
get_elem?-none [] i h = refl
get_elem?-none (x ∷ gs) zero h = cc
get_elem?-none (x ∷ gs) (suc i) h = get_elem?-none gs i h

taken_by-none :
    (o : Option ℕ) (gs : List Group) (at : ℕ) (s : Stamp)
    → taken_by o gs at ≡ none
    → held o gs ≡ some s
    → s.1 + window < at
unfolding taken_by takes
taken_by-none none gs at s h k = cc
taken_by-none (some j) gs at s h k = elim (Option-cases (get_elem? gs j)) [
  | inl e ↦ absurd (ground (arith, get_elem?-none gs j e))
  | inr (g, e) ↦ ground (arith, get_elem?-stamps gs j g e)
]

-- A group comes after the window of the group of its address before it.
abbrev pub Apart : List Stamp → Stamp → Type 0
Apart seen s = (t : Stamp) → last_stamp s.0 seen ≡ some t → t.1 + window < s.1

record GroupInv (s : Grouping) (seen : List (Text × ℕ)) : Type 0 where
  inside : (ip : Text) (i : ℕ) → lookup ip s.opened ≡ some i → i < length s.groups
  current : (ip : Text) → held (lookup ip s.opened) s.groups ≡ last_stamp ip (stamps s.groups)
  apart : EachAfter Apart [] (stamps s.groups)
  counted : (ip : Text) → lines_of ip s.groups ≡ count ip (map (λ x. x.0) seen)

length-bump : (i : ℕ) (gs : List Group) → length (bump i gs) ≡ length gs
unfolding bump
length-bump i [] = refl
length-bump zero (g ∷ gs) = refl
length-bump (suc i) (g ∷ gs) = ap suc (length-bump i gs)

held-bump : (o : Option ℕ) (i : ℕ) (gs : List Group) → held o (bump i gs) ≡ held o gs
held-bump none i gs = refl
held-bump (some j) i gs = ap (λ ss. get_elem? ss j) (stamps-bump i gs)

module _ (s : Grouping) (seen : List (Text × ℕ)) (inv : GroupInv s seen) (ip : Text) (at : ℕ) where
  abbrev seen' : List (Text × ℕ)
  seen' = seen ++ (ip, at) ∷ []

  counted-concat :
      (j : Text) → count j (map (λ x. x.0) seen') ≡ lines_of j s.groups + (if ip == j then 1 else 0)
  unfolding count
  counted-concat j = rw (map-append, count-append) (omega (arith, inv.counted j))

  bump-GroupInv :
      (i : ℕ) (g : Group)
      → lookup ip s.opened ≡ some i
      → get_elem? s.groups i ≡ some g
      → GroupInv (record s { groups = bump i s.groups }) seen'
  bump-GroupInv i g o e = record {
    inside = λ j k h. rw length-bump (inv.inside j k h);
    current = λ j. rw (held-bump, stamps-bump) (inv.current j);
    apart = rw stamps-bump inv.apart;
    counted = λ j. rw counted-concat (rw (lines_of-bump j i s.groups g e) (rw same refl));
  }
    where
      same : g.ip ≡ ip
      same =
          last_stamp-ip ip (stamps s.groups) (g.ip, g.first)
            (sym (inv.current ip) ∙ (rw o (get_elem?-stamps s.groups i g e)))

  opened-GroupInv :
      taken_by (lookup ip s.opened) s.groups at ≡ none → GroupInv (place none s ip at) seen'
  unfolding place lookup
  opened-GroupInv untaken = record {
    inside = λ j k h. rw length-append (inside_of j k h);
    current = λ j. rw (map-append, last_stamp-concat) (current_of j);
    apart = rw map-append (
        EachAfter-concat Apart [] (stamps s.groups) (ip, at) inv.apart
          (λ t h. taken_by-none (lookup ip s.opened) s.groups at t untaken (inv.current ip ∙ h)));
    counted = λ j. rw (counted-concat, lines_of-append) (unfold lines_of in (omega arith));
  }
    where
      inside_of :
          (j : Text) (k : ℕ)
          → (if ip == j then some (length s.groups) else lookup j s.opened) ≡ some k
          → k < length s.groups + 1
      inside_of j k h = ground (arith, inv.inside j k)

      later : Option ℕ → Option Stamp
      later o = held o (s.groups ++ (record { ip = ip; first = at; lines = 1 }) ∷ [])

      old_held : (j : Text) (o : Option ℕ) → lookup j s.opened ≡ o → later o ≡ held o s.groups
      old_held j none e = refl
      old_held j (some k) e = rw map-append (
          get_elem?-append_left (stamps s.groups) ((ip, at) ∷ []) k
            (rw (length-map {B = Stamp} (λ g. (g.ip, g.first)) s.groups) (inv.inside j k e)))

      new_held : later (some (length s.groups)) ≡ some (ip, at)
      new_held =
          rw (map-append, ← length-map {B = Stamp} (λ g. (g.ip, g.first)) s.groups)
            (get_elem?-concat (stamps s.groups) (ip, at))

      current_of :
          (j : Text)
          → later (if ip == j then some (length s.groups) else lookup j s.opened)
            ≡ (if ip == j then some (ip, at) else last_stamp j (stamps s.groups))
      current_of j = elim (Bool-cases (ip == j)) [
        | inl same ↦ rw same new_held
        | inr other ↦ rw other (old_held j (lookup j s.opened) refl ∙ inv.current j)
      ]

  add_line-GroupInv : GroupInv (add_line s ip at) seen'
  unfolding add_line
  add_line-GroupInv = elim (Option-cases (taken_by (lookup ip s.opened) s.groups at)) [
    | inl untaken ↦ rw untaken (opened-GroupInv untaken)
    | inr (i, taken) ↦
        let (g, o, e) = taken_by-some (lookup ip s.opened) s.groups at i taken in
        rw taken (unfold place in (bump-GroupInv i g o e))
  ]

group_from-GroupInv :
    (s : Grouping) (seen xs : List (Text × ℕ))
    → GroupInv s seen
    → GroupInv (group_from s xs) (seen ++ xs)
unfolding group_from
group_from-GroupInv s seen [] inv = rw append_nil inv
group_from-GroupInv s seen ((ip, at) ∷ rest) inv = rw (← append_assoc seen ((ip, at) ∷ []) rest) (
    group_from-GroupInv (add_line s ip at) (seen ++ (ip, at) ∷ []) rest
      (add_line-GroupInv s seen inv ip at))

abbrev no_groups : Grouping
no_groups = record { groups = []; opened = [] }

no_groups-GroupInv : GroupInv no_groups []
unfolding lookup last_stamp lines_of count
no_groups-GroupInv = record {
  inside = λ ip i h. cc;
  current = λ ip. refl;
  apart = tt;
  counted = λ ip. refl;
}

-- No line is lost or moved to another address: for each address the groups hold as many lines
-- as the log.
pub window_groups-lines_of :
    (xs : List (Text × ℕ)) (ip : Text)
    → lines_of ip (window_groups xs) ≡ count ip (map (λ x. x.0) xs)
unfolding window_groups
window_groups-lines_of xs = (group_from-GroupInv no_groups [] xs no_groups-GroupInv).counted

-- Where the groups list a group g, the group of g's address last listed before it began more
-- than the window earlier.
pub window_groups-Apart :
    (xs : List (Text × ℕ)) (pre post : List Group) (g : Group)
    → window_groups xs ≡ pre ++ g ∷ post
    → Apart (stamps pre) (g.ip, g.first)
unfolding window_groups
window_groups-Apart xs pre post g e =
    EachAfter-split Apart [] (stamps pre) (stamps post) (g.ip, g.first)
      (subst (EachAfter Apart []) (ap stamps e ∙ map-append _ pre (g ∷ post))
        (group_from-GroupInv no_groups [] xs no_groups-GroupInv).apart)
