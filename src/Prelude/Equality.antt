-- ===== src/Prelude/Equality.antt =====
-- One equality test for every type that has an instance, and the sets and maps that go by it.
use Prim.Native.Nat.{ℕ, ◌+◌}
use mathlib.Core.Path.{◌≡◌, refl, sym, subst, ap, ap₂}
use mathlib.Core.Logic.{◌↔◌, ◌≢◌, inl, inr}
use mathlib.Core.Bool.{Bool, true, false, ◌||◌, ◌&&◌}
use mathlib.Core.List.{List, [], ◌∷◌, ◌++◌, append_assoc}
use mathlib.Core.Option.{Option, none, some}
use native.Mathlib.Omega.{arith}
use docker_net_dhcp_lab.Prelude.Tests.{nat_eq, nat_eq_iff, if◌then◌else◌, Bool-cases, and-eq-true}
use docker_net_dhcp_lab.Prelude.Lists.{append_nil}
use docker_net_dhcp_lab.Prelude.Strings.{Text, text_eq, text_eq_sound, text_eq_self}

-- A Boolean test that decides the equality of a type.
pub record Eq {ℓ} (A : Type ℓ) : Type ℓ where
  pub beq : A → A → Bool
  pub beq_iff : (x y : A) → (beq x y ≡ true) ↔ (x ≡ y)

infix 50 ◌==◌
module _ {ℓ} {A : Type ℓ} ⦃e : Eq A⦄ where
  abbrev pub ◌==◌ : A → A → Bool
  ◌==◌ x y = e.beq x y

instance abbrev pub eq_nat : Eq ℕ
eq_nat = record { beq = nat_eq; beq_iff = nat_eq_iff }

pub text_eq_iff : (s t : Text) → (text_eq s t ≡ true) ↔ (s ≡ t)
text_eq_iff s t = (text_eq_sound s t, λ e. rw e (text_eq_self t))

instance abbrev pub eq_text : Eq Text
eq_text = record { beq = text_eq; beq_iff = text_eq_iff }

abbrev pub pair_eq {ℓ κ} : {A : Type ℓ} {B : Type κ} ⦃e : Eq A⦄ ⦃f : Eq B⦄ → A × B → A × B → Bool
pair_eq ⦃e⦄ ⦃f⦄ x y = e.beq x.0 y.0 && f.beq x.1 y.1

module _ {ℓ} {A : Type ℓ} ⦃e : Eq A⦄ where
  pub eq_self : (a : A) → (a == a) ≡ true
  eq_self a = (e.beq_iff a a).1 refl

  pub ne-eq-false : (a b : A) → a ≢ b → (a == b) ≡ false
  ne-eq-false a b h = elim (Bool-cases (a == b)) [
    | inl same ↦ absurd (h ((e.beq_iff a b).0 same))
    | inr other ↦ other
  ]

  -- A Go map used as a set: its keys in the order of insertion.
  unfoldable pub contains : List A → A → Bool
  contains [] a = false
  contains (x ∷ xs) a = x == a || contains xs a

  pub contains_single : (a b : A) → contains (a ∷ []) b ≡ (a == b)
  unfolding contains
  contains_single a b = ground arith

  pub contains-append :
      (xs ys : List A) (a : A) → contains (xs ++ ys) a ≡ (contains xs a || contains ys a)
  unfolding contains
  contains-append [] ys a = refl
  contains-append (x ∷ xs) ys a = ground (arith, contains-append xs ys a)

  pub contains-concat : (xs : List A) (a : A) → contains (xs ++ a ∷ []) a ≡ true
  unfolding contains
  contains-concat [] a = rw (eq_self a)
  contains-concat (x ∷ xs) a = ground (arith, contains-concat xs a)

  pub contains-concat_of :
      (xs : List A) (a b : A) → contains xs a ≡ true → contains (xs ++ b ∷ []) a ≡ true
  contains-concat_of xs a b h = rw (contains-append, h)

  -- How often a value occurs.
  unfoldable pub count : A → List A → ℕ
  count a [] = 0
  count a (x ∷ xs) = (if x == a then 1 else 0) + count a xs

  pub count-append : (a : A) (xs ys : List A) → count a (xs ++ ys) ≡ count a xs + count a ys
  unfolding count
  count-append a [] ys = omega arith
  count-append a (x ∷ xs) ys = omega (arith, count-append a xs ys)

module _ {ℓ κ} {K : Type ℓ} {V : Type κ} ⦃e : Eq K⦄ where
  -- A Go map: the binding in front is the latest.
  unfoldable pub lookup : K → List (K × V) → Option V
  lookup k [] = none
  lookup k ((j, v) ∷ m) = if j == k then some v else lookup k m

-- Each element stands in the relation P to the elements before it.
module _ {ℓ κ} {A : Type ℓ} (P : List A → A → Type κ) where
  abbrev pub EachAfter : List A → List A → Type κ
  EachAfter seen [] = Unit
  EachAfter seen (x ∷ xs) = P seen x × EachAfter (seen ++ x ∷ []) xs

  pub EachAfter-concat :
      (seen xs : List A) (x : A)
      → EachAfter seen xs
      → P (seen ++ xs) x
      → EachAfter seen (xs ++ x ∷ [])
  EachAfter-concat seen [] x h p = (subst (λ s. P s x) (append_nil seen) p, tt)
  EachAfter-concat seen (y ∷ ys) x (q, h) p = (
    q,
    EachAfter-concat (seen ++ y ∷ []) ys x h
        (subst (λ s. P s x) (sym (append_assoc seen (y ∷ []) ys)) p),
  )

  pub EachAfter-split :
      (seen pre post : List A) (x : A) → EachAfter seen (pre ++ x ∷ post) → P (seen ++ pre) x
  EachAfter-split seen [] post x (p, h) = subst (λ s. P s x) (sym (append_nil seen)) p
  EachAfter-split seen (y ∷ pre) post x (q, h) =
      subst (λ s. P s x) (append_assoc seen (y ∷ []) pre)
        (EachAfter-split (seen ++ y ∷ []) pre post x h)

module _ {ℓ κ} {A : Type ℓ} {B : Type κ} ⦃e : Eq A⦄ ⦃f : Eq B⦄ where
  pub pair_eq_iff : (x y : A × B) → (pair_eq x y ≡ true) ↔ (x ≡ y)
  pair_eq_iff (a, b) (c, d) = (there, back)
    where
      there : (e.beq a c && f.beq b d) ≡ true → ◌≡◌ {A = A × B} (a, b) (c, d)
      there h =
          let (p, q) = and-eq-true (e.beq a c) (f.beq b d) h in
          ap₂ {C = A × B} (λ x y. (x, y)) ((e.beq_iff a c).0 p) ((f.beq_iff b d).0 q)

      back : ◌≡◌ {A = A × B} (a, b) (c, d) → (e.beq a c && f.beq b d) ≡ true
      back h = rw ((e.beq_iff a c).1 (ap (λ x. x.0) h), (f.beq_iff b d).1 (ap (λ x. x.1) h)) refl

  instance abbrev pub eq_pair : Eq (A × B)
  eq_pair = record { beq = pair_eq; beq_iff = pair_eq_iff }
