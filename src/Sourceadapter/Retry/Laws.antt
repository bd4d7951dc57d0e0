-- ===== src/Sourceadapter/Retry/Laws.antt =====
-- internal/sourceadapter/retry.go: a command that may have run is not run again, a host known to be
-- down costs one attempt, and the loop ends.
use docker_net_dhcp_lab.Sourceadapter.Retry.{
  failed, is_connect_error, Attempt, Answer, answered, Round, stop, again, judge_error, round,
  Ended, one_more, next, last_of, retry,
}
use docker_net_dhcp_lab.Prelude.{
  ℕ, zero, suc, ◌<◌, ◌≡◌, refl, ◌⊎◌, inl, inr, Bool, true, false, Option, none, some, List, [], ◌∷◌,
  arith, length, All, Text, sym, ap, subst, ◌∙◌, ◌↔◌, any, count, eq_text,
}

-- the attempt failed before the remote command could run
abbrev pub NeverRan : Attempt → Type 0
NeverRan a = (e : Text) × (a.error ≡ some e) × (is_connect_error e ≡ true)

-- the first n attempts
abbrev pub take : ℕ → List Attempt → List Attempt
take zero tries = []
take (suc n) [] = []
take (suc n) (a ∷ tries) = a ∷ take n tries

Round-cases :
    (r : Round) → ((a : Answer) × (d : Bool) × (r ≡ stop a d)) ⊎ ((e : Text) × (r ≡ again e))
Round-cases (stop a d) = inl (a, d, refl)
Round-cases (again e) = inr (e, refl)

-- what another round tells of this one
again-NeverRan :
    (error last : Option Text) (a : Attempt) (down : Bool) {e : Text}
    → round error last a down ≡ again e
    → (error ≡ some e) × (is_connect_error e ≡ true) × (down ≡ false) × (a.past_bound ≡ false)
unfolding round judge_error
again-NeverRan none last a down h = cc
again-NeverRan (some x) none a down h = ground arith
again-NeverRan (some x) (some l) a down h = ground arith

one_more_inv :
    (o : Option Ended) {r : Ended}
    → one_more o ≡ some r
    → (s : Ended) × (o ≡ some s) × (r.attempts ≡ suc s.attempts)
one_more_inv none h = cc
one_more_inv (some s) h = (s, refl, ground arith)

next-stop :
    (a : Answer) (d : Bool) (later : Option Ended) {r : Ended}
    → next (stop a d) later ≡ some r
    → r ≡ record { answer = a; down = d; attempts = 1 }
unfolding next
next-stop a d later h = ground arith

next-again :
    (e : Text) (later : Option Ended) {r : Ended}
    → next (again e) later ≡ some r
    → (s : Ended) × (later ≡ some s) × (r ≡ record s { attempts = suc s.attempts })
unfolding next
next-again e none h = cc
next-again e (some s) h = (s, refl, ground arith)

-- When `Run` returns, it has made at least one attempt, no more than there are, and every attempt
-- before the last failed to connect: a command that may have started is not run again.
pub retry-NeverRan :
    (last : Option Text) (down : Bool) (tries : List Attempt) (r : Ended)
    → retry last down tries ≡ some r
    → (n : ℕ) × (r.attempts ≡ suc n) × (n < length tries) × All NeverRan (take n tries)
unfolding retry
retry-NeverRan last down [] r h = cc
retry-NeverRan last down (a ∷ tries) r h = elim (Round-cases (round a.error last a down)) [
  | inl (x, d, e) ↦
      let same =
        next-stop x d (retry none down tries)
          (subst (λ k. next k (retry (last_of k) down tries) ≡ some r) e h) in
      (0, ap (λ (s : Ended). s.attempts) same, omega arith, tt)
  | inr (t, e) ↦
      let (s, more, same) =
        next-again t (retry (some t) down tries)
          (subst (λ k. next k (retry (last_of k) down tries) ≡ some r) e h) in
      let (n, count, bound, never) = retry-NeverRan (some t) down tries s more in
      let (is, connect, _, _) = again-NeverRan a.error last a down e in
      (
        suc n,
        ap (λ (s : Ended). s.attempts) same ∙ ap suc count,
        omega arith,
        ((t, is, connect), never),
      )
]

-- A runner that has given a host up makes one attempt per call, and takes the host as up again only
-- when that attempt succeeds.
pub retry-down :
    (a : Attempt) (tries : List Attempt)
    → (r : Ended) × (retry none true (a ∷ tries) ≡ some r)
      × (r.attempts ≡ 1)
      × ((r.down ≡ false) ↔ (a.error ≡ none))
unfolding retry round judge_error next
retry-down a tries = go a.error refl
  where
    go :
        (o : Option Text)
        → a.error ≡ o
        → (r : Ended) × (retry none true (a ∷ tries) ≡ some r)
          × (r.attempts ≡ 1)
          × ((r.down ≡ false) ↔ (a.error ≡ none))
    go none e = (
      record { answer = answered; down = false; attempts = 1 },
      ground arith,
      refl,
      (λ h. e, λ h. refl),
    )
    go (some t) e = (
      record { answer = failed t; down = true; attempts = 1 },
      ground arith,
      refl,
      (λ h. cc, λ h. cc),
    )

-- The loop ends: among attempts of which one is past `Bound`, one is the last.
pub retry-ends :
    (last : Option Text) (down : Bool) (tries : List Attempt)
    → any (λ a. a.past_bound) tries ≡ true
    → (r : Ended) × (retry last down tries ≡ some r)
unfolding retry next
retry-ends last down [] h = cc
retry-ends last down (a ∷ tries) h = elim (Round-cases (round a.error last a down)) [
  | inl (x, d, e) ↦ (
    record { answer = x; down = d; attempts = 1 },
    subst
        (λ k.
          next k (retry (last_of k) down tries)
          ≡ some (record { answer = x; down = d; attempts = 1 }))
        (sym e) refl,
  )
  | inr (t, e) ↦
      let (_, _, _, early) = again-NeverRan a.error last a down e in
      let (s, more) = retry-ends (some t) down tries (ground arith) in
      (
        record s { attempts = suc s.attempts },
        subst
            (λ k.
              next k (retry (last_of k) down tries) ≡ some (record s { attempts = suc s.attempts }))
            (sym e) (ap one_more more),
      )
]
