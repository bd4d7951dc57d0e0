-- ===== src/Scenario/Judging.antt =====
-- internal/scenario: the early returns of a judge. A judge is a chain of tests, the first that
-- refuses is its outcome.
use docker_net_dhcp_lab.Prelude.{
  Bool, true, false, List, [], ◌∷◌, Result, ok, err, ◌>>◌, refuse_if, All, ◌≡◌, refl, ◌↔◌, arith,
  inl, inr, if◌then◌else◌, Bool-cases, All_map,
}
use docker_net_dhcp_lab.Scenario.Outcome.{pass, Outcome, passed, failed, stopped}

-- `fFail` or `fBlocked`, returned early
pub data Halt (R : Type 0) : Type 0 where
  fails : R → Halt R
  blocks : R → Halt R

abbrev pub Judged : Type 0 → Type 0
Judged R = Result (Halt R) R

abbrev pub Test : Type 0 → Type 0
Test R = Result (Halt R) (Unit {0})

-- the outcome of the chain
abbrev pub close : {R : Type 0} → Judged R → Outcome R
close (err (fails r)) = failed r
close (err (blocks r)) = stopped r
close (ok r) = passed r

-- an outcome of another judge, passed on
abbrev pub as_reason : {R S A : Type 0} → (R → S) → Result (Halt R) A → Result (Halt S) A
as_reason f (err (fails r)) = err (fails (f r))
as_reason f (err (blocks r)) = err (blocks (f r))
as_reason f (ok a) = ok a

pub close-pass_iff :
    {R : Type 0} (m : Judged R) → ((close m).result ≡ pass) ↔ ((r : R) × (m ≡ ok r))
close-pass_iff (err (fails r)) = ground arith
close-pass_iff (err (blocks r)) = ground arith
close-pass_iff (ok r) = (λ _. (r, refl), λ _. refl)

module _ {E : Type 0} where
  pub seq-ok_iff :
      {B : Type 0} (m : Result E (Unit {0})) (n : Result E B) (b : B)
      → (m >> n ≡ ok b) ↔ ((m ≡ ok tt) × (n ≡ ok b))
  seq-ok_iff (err e) n b = ground arith
  seq-ok_iff (ok u) n b = ground arith

  pub refuse_if-ok_iff : (b : Bool) (e : E) → (refuse_if b e ≡ ok tt) ↔ (b ≡ false)
  refuse_if-ok_iff true e = ground arith
  refuse_if-ok_iff false e = ground arith

module _ {A : Type 0} where
  -- the elements that a loop keeps, in their order
  unfoldable pub keep : (A → Bool) → List A → List A
  keep p [] = []
  keep p (x ∷ xs) = let rest = keep p xs in if p x then x ∷ rest else rest

module _ {E : Type 0} {A : Type 0} where
  -- a loop that returns at the first element it refuses
  unfoldable pub check_each : (A → Result E (Unit {0})) → List A → Result E (Unit {0})
  check_each f [] = ok tt
  check_each f (x ∷ xs) = f x >> check_each f xs

  pub check_each-ok_iff :
      (f : A → Result E (Unit {0})) (xs : List A)
      → (check_each f xs ≡ ok tt) ↔ All (λ x. f x ≡ ok tt) xs
  unfolding check_each
  check_each-ok_iff f [] = (λ _. tt, λ _. refl)
  check_each-ok_iff f (x ∷ xs) =
      let (there, back) = seq-ok_iff (f x) (check_each f xs) tt in
      let (into, out) = check_each-ok_iff f xs in
      (λ h. let (a, b) = there h in (a, into b), λ h. back (h.0, out h.1))

  pub check_each-keep_iff :
      (f : A → Result E (Unit {0})) (p : A → Bool) (xs : List A)
      → (check_each f (keep p xs) ≡ ok tt) ↔ All (λ x. p x ≡ true → f x ≡ ok tt) xs
  unfolding check_each keep
  check_each-keep_iff f p [] = (λ _. tt, λ _. refl)
  check_each-keep_iff f p (x ∷ xs) =
      let (into, out) = check_each-keep_iff f p xs in
      elim (Bool-cases (p x)) [
        | inl kept ↦ rw kept (
            let (there, back) = seq-ok_iff (f x) (check_each f (keep p xs)) tt in
            (λ h. let (a, b) = there h in (λ _. a, into b), λ h. back (h.0 refl, out h.1)))
        | inr skipped ↦ rw skipped (λ h. (λ e. ground arith, into h), λ h. out h.1)
      ]

  -- a loop over the kept elements, with each test replaced by what it stands for
  pub check_each-keep_iff_of :
      {P : A → Type 0} (f : A → Result E (Unit {0})) (p : A → Bool) (xs : List A)
      → ((x : A) → (f x ≡ ok tt) ↔ P x)
      → (check_each f (keep p xs) ≡ ok tt) ↔ All (λ x. p x ≡ true → P x) xs
  check_each-keep_iff_of f p xs each =
      let (into, out) = check_each-keep_iff f p xs in
      (
        λ h. All_map (λ x g e. (each x).0 (g e)) xs (into h),
        λ h. out (All_map (λ x g e. (each x).1 (g e)) xs h),
      )

  pub check_each-all_iff :
      {P : A → Type 0} (f : A → Result E (Unit {0})) (xs : List A)
      → ((x : A) → (f x ≡ ok tt) ↔ P x)
      → (check_each f xs ≡ ok tt) ↔ All P xs
  check_each-all_iff f xs each =
      let (into, out) = check_each-ok_iff f xs in
      (λ h. All_map (λ x. (each x).0) xs (into h), λ h. out (All_map (λ x. (each x).1) xs h))
