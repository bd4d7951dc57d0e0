-- ===== src/Prelude/Results.antt =====
-- A fallible Go function's value or error, and its chaining in do blocks.
use mathlib.Core.Path.{◌≡◌, refl}
use mathlib.Core.Logic.{◌⊎◌, inl, inr}
use mathlib.Core.Bool.{Bool, true, false}
use mathlib.Core.Option.{Option, none, some}

pub data Result {ℓ} (E : Type 0) (A : Type ℓ) : Type ℓ where
  ok : A → Result E A
  err : E → Result E A

module _ {E : Type 0} where
  -- `if err != nil { return err }` between two steps
  infixl 5 ◌>>=◌
  abbrev pub ◌>>=◌ {ℓ κ} : {A : Type ℓ} {B : Type κ} → Result E A → (A → Result E B) → Result E B
  err fault >>= next = err fault
  ok value >>= next = next value

  infixl 5 ◌>>◌
  abbrev pub ◌>>◌ {κ} : {B : Type κ} → Result E (Unit {0}) → Result E B → Result E B
  test >> next = test >>= λ passed. next

  -- `if bad { return … }`
  abbrev pub refuse_if : Bool → E → Result E (Unit {0})
  refuse_if true e = err e
  refuse_if false e = ok tt

  -- a call that has to yield a value
  abbrev pub need {ℓ} : {A : Type ℓ} → Option A → E → Result E A
  need none e = err e
  need (some a) e = ok a

  pub Result-cases {ℓ} :
      {A : Type ℓ} (m : Result E A) → ((e : E) × (m ≡ err e)) ⊎ ((a : A) × (m ≡ ok a))
  Result-cases (err e) = inl (e, refl)
  Result-cases (ok a) = inr (a, refl)

  pub ok_inj {ℓ} : {A : Type ℓ} {a b : A} → ◌≡◌ {A = Result E A} (ok a) (ok b) → a ≡ b
  ok_inj h = cc
