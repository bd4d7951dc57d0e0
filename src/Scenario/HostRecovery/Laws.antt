-- ===== src/Scenario/HostRecovery/Laws.antt =====
-- internal/scenario/hostrecover.go: a run resets the host within its budget, a gate passes only when
-- it ran and passed, and two verdicts never name the same reset.
use docker_net_dhcp_lab.Scenario.HostRecovery.{
  Action, Note, Recovery, Answers, wait_back, power_on, Tried, not_tried, back, lost, settle,
  is_connect, try, finish, gate, Step, gated, taken, take_note, listed, Run, begin, then, reset,
  Powered, start,
}
use docker_net_dhcp_lab.Prelude.{
  suc, ◌+◌, ◌<◌, ◌≡◌, refl, sym, ap, subst, ◌∙◌, ◌⊎◌, inl, inr, Bool, true, not, ◌&&◌, ◌||◌, Option,
  some, arith, leb, Bool-cases, Text, ℕ, ◌≤◌, none, List, [], ◌∷◌, ◌++◌, All, any, false, eq_text,
}

-- how many of some virsh commands are resets
pub resets : List Action → ℕ
resets [] = 0
resets (reset ∷ cs) = suc (resets cs)
resets (start ∷ cs) = resets cs

resets-append : (cs ds : List Action) → resets (cs ++ ds) ≡ resets cs + resets ds
unfolding resets
resets-append [] ds = omega arith
resets-append (reset ∷ cs) ds = omega (arith, resets-append cs ds)
resets-append (start ∷ cs) ds = resets-append cs ds

-- one reset within the budget, and the note that it may leave
record Spent (h j : Recovery) (cs : List Action) : Type 0 where
  in_budget : h.used < h.max
  one_reset : resets cs ≡ 1
  same_max : j.max ≡ h.max
  one_more : j.used ≡ suc h.used
  noted_as :
      (j.note ≡ h.note)
      ⊎ ((a : Action) × (j.note ≡ some (record { number = suc h.used; action = a })))

settle-Spent :
    (w : Answers) (x : Powered) (h : Recovery)
    → h.used < h.max
    → resets x.commands ≡ 1
    → (let t = settle w x (record h { used = h.used + 1 }) in Spent h t.after t.commands)
unfolding settle
settle-Spent w x h b one = elim (Bool-cases (x.works && wait_back w.polls && w.written)) [
  | inl e ↦ rw e (record {
    in_budget = b;
    one_reset = one;
    same_max = refl;
    one_more = omega arith;
    noted_as = inr (x.action, ground arith);
  })
  | inr e ↦ rw e (record {
    in_budget = b;
    one_reset = one;
    same_max = refl;
    one_more = omega arith;
    noted_as = inl refl;
  })
]

power_on-resets : (w : Answers) → resets (power_on w).commands ≡ 1
unfolding power_on resets
power_on-resets w = elim (Bool-cases w.reset_works) [ inl e ↦ rw e refl | inr e ↦ rw e refl ]

try-cases :
    (w : Answers) (e : Option Text) (h : Recovery)
    → ((try w e h).commands ≡ []) × ((try w e h).after ≡ h)
      ⊎ Spent h (try w e h).after (try w e h).commands
unfolding try
try-cases w e h = elim (Bool-cases (not (is_connect e) || leb h.max h.used)) [
  | inl k ↦ inl (rw k (refl, refl))
  | inr k ↦ inr (rw k (settle-Spent w (power_on w) h (ground arith) (power_on-resets w)))
]

finish-kept :
    (a b : Option Text) (t : Tried) (cs : List Action) (h : Recovery)
    → ((finish a b t cs h).after ≡ h) × ((finish a b t cs h).commands ≡ cs)
unfolding finish
finish-kept a b not_tried cs h = (refl, refl)
finish-kept a b (back n) cs h = (refl, refl)
finish-kept a b (lost n) cs h = (refl, refl)

gate-cases :
    (w : Answers) (a b : Option Text) (h : Recovery)
    → ((gate w a b h).commands ≡ []) × ((gate w a b h).after ≡ h)
      ⊎ Spent h (gate w a b h).after (gate w a b h).commands
unfolding gate
gate-cases w a b h =
    let t = try w a h in
    let (after, commands) = finish-kept a b t.tried t.commands t.after in
    rw (after, commands) (try-cases w a h)

-- The host was brought back: `virsh reset` worked, or failed and `virsh start` worked; then the boot
-- id and docker answered at one poll before the deadline, and the evidence was written.
pub record BroughtBack (w : Answers) (commands : List Action) : Type 0 where
  pub powered :
      ((w.reset_works ≡ true) × (commands ≡ reset ∷ []))
      ⊎ ((w.reset_works ≡ false) × (w.start_works ≡ true) × (commands ≡ reset ∷ start ∷ []))
  pub came_back : any (λ p. p.0 && p.1) w.polls ≡ true
  pub written : w.written ≡ true

wait_back-any : (ps : List (Bool × Bool)) → wait_back ps ≡ any (λ p. p.0 && p.1) ps
unfolding wait_back
wait_back-any [] = refl
wait_back-any ((ssh, docker) ∷ ps) = ap (λ b. (ssh && docker) || b) (wait_back-any ps)

power_on-works :
    (w : Answers)
    → (power_on w).works ≡ true
    → ((w.reset_works ≡ true) × ((power_on w).commands ≡ reset ∷ []))
      ⊎ ((w.reset_works ≡ false)
          × (w.start_works ≡ true)
          × ((power_on w).commands ≡ reset ∷ start ∷ []))
unfolding power_on
power_on-works w h = elim (Bool-cases w.reset_works) [
  | inl e ↦ inl (e, rw e refl)
  | inr e ↦ inr (e, ground (arith, h, e), rw e refl)
]

-- A gate that returns no error either passed at once, or failed to connect, and then a reset within
-- the budget, or the start after a reset that failed, brought the host back, and the gate passed.
pub gate-passes :
    (w : Answers) (first second : Option Text) (h : Recovery)
    → (gate w first second h).error ≡ none
    → (first ≡ none)
      ⊎ ((is_connect first ≡ true)
          × (second ≡ none)
          × BroughtBack w (gate w first second h).commands
          × (h.used < h.max)
          × ((gate w first second h).after.used ≡ suc h.used))
unfolding gate try settle finish
gate-passes w none second h e = inl refl
gate-passes w (some t) second h e =
    elim (Bool-cases (not (is_connect (some t)) || leb h.max h.used)) [
      | inl k ↦ absurd (ground arith)
      | inr k ↦ elim (Bool-cases ((power_on w).works && wait_back w.polls && w.written)) [
        | inl j ↦ inr (
          ground arith,
          ground arith,
          rw (k, j)
              (record {
                powered = power_on-works w (ground (arith, j));
                came_back = sym (wait_back-any w.polls) ∙ ground (arith, j);
                written = ground (arith, j);
              }),
          ground arith,
          ground arith,
        )
        | inr j ↦ absurd (ground arith)
      ]
    ]

-- The numbers of the notes are below m.
abbrev Below : ℕ → List Note → Type 0
Below m ns = All (λ (n : Note). n.number < m) ns

-- The notes, the latest first, name ever earlier resets.
abbrev pub Descending : List Note → Type 0
Descending [] = Unit
Descending (n ∷ ns) = Below n.number ns × Descending ns

-- the pending note, if any, names a reset that was made and later than all that were taken
abbrev IsPending : Option Note → ℕ → List Note → Type 0
IsPending none used ns = Below (suc used) ns
IsPending (some n) used ns = (n.number ≤ used) × Below n.number ns

-- What a run keeps.
record Kept (h j : Recovery) (ns : List Note) (cs : List Action) : Type 0 where
  counted : resets cs + h.used ≡ j.used
  budget : j.used ≤ h.max
  same_max : j.max ≡ h.max
  pending : IsPending j.note j.used ns
  descending : Descending ns

Below-mono : (m n : ℕ) (ns : List Note) → m ≤ n → Below m ns → Below n ns
Below-mono m n [] le b = tt
Below-mono m n (k ∷ ns) le (b, bs) = (omega arith, Below-mono m n ns le bs)

IsPending-Below :
    (o : Option Note) (used : ℕ) (ns : List Note) → IsPending o used ns → Below (suc used) ns
IsPending-Below none used ns p = p
IsPending-Below (some n) used ns (le, b) = Below-mono n.number (suc used) ns (omega arith) b

IsPending-later :
    (o : Option Note) (used : ℕ) (ns : List Note) → IsPending o used ns → IsPending o (suc used) ns
IsPending-later none used ns p = Below-mono (suc used) (suc (suc used)) ns (omega arith) p
IsPending-later (some n) used ns (le, b) = (omega arith, b)

Spent-Kept :
    (h i j : Recovery) (ns : List Note) (cs ds : List Action)
    → Spent i j ds
    → Kept h i ns cs
    → Kept h j ns (ds ++ cs)
Spent-Kept h i j ns cs ds s k = record {
  counted = omega (arith, resets-append ds cs, s.one_reset, s.one_more, k.counted);
  budget = rw s.one_more (omega (arith, s.in_budget, k.same_max));
  same_max = s.same_max ∙ k.same_max;
  pending = elim s.noted_as [
    | inl e ↦
        subst (λ o. IsPending o j.used ns) (sym e)
          (subst (λ u. IsPending i.note u ns) (sym s.one_more)
            (IsPending-later i.note i.used ns k.pending))
    | inr (a, e) ↦
        subst (λ o. IsPending o j.used ns) (sym e)
          (rw s.one_more (omega arith), IsPending-Below i.note i.used ns k.pending)
  ];
  descending = k.descending;
}

listed-Descending :
    (o : Option Note) (used : ℕ) (ns : List Note)
    → IsPending o used ns
    → Descending ns
    → Descending (listed o ++ ns) × Below (suc used) (listed o ++ ns)
listed-Descending none used ns p d = (d, p)
listed-Descending (some n) used ns (le, b) d =
    ((b, d), (omega arith, Below-mono n.number (suc used) ns (omega arith) b))

Step-Kept :
    (h i j : Recovery) (ns ms : List Note) (cs ds : List Action)
    → Step i j ms ds
    → Kept h i ns cs
    → Kept h j (ms ++ ns) (ds ++ cs)
unfolding take_note
Step-Kept h _ _ ns _ cs _ (gated w a b i) k = elim (gate-cases w a b i) [
  | inl (quiet, e) ↦ rw (quiet, e) k
  | inr s ↦ Spent-Kept h i (gate w a b i).after ns cs (gate w a b i).commands s k
]
Step-Kept h _ _ ns _ cs _ (taken i) k =
    let (d, b) = listed-Descending i.note i.used ns k.pending k.descending in
    record {
      counted = k.counted;
      budget = k.budget;
      same_max = k.same_max;
      pending = b;
      descending = d;
    }

Run-Kept :
    (h j : Recovery) (ns : List Note) (cs : List Action)
    → h.used ≤ h.max
    → h.note ≡ none
    → Run h j ns cs
    → Kept h j ns cs
unfolding resets
Run-Kept h _ _ _ b e begin = record {
  counted = omega arith;
  budget = b;
  same_max = refl;
  pending = subst (λ o. IsPending o h.used []) (sym e) tt;
  descending = tt;
}
Run-Kept h _ _ _ b e (then i j ns ms cs ds r s) =
    Step-Kept h i j ns ms cs ds s (Run-Kept h i ns cs b e r)

-- Whatever the gates and the machines answer, the `virsh reset` commands of a run that starts within
-- the budget and with no note and the resets that were used before it are at most `Max`, failed
-- resets included, and the notes that its verdicts take name ever later resets, so no reset is named
-- twice.
pub Run-bounded :
    (h j : Recovery) (ns : List Note) (cs : List Action)
    → h.used ≤ h.max
    → h.note ≡ none
    → Run h j ns cs
    → (resets cs + h.used ≤ h.max) × Descending ns
Run-bounded h j ns cs b e r =
    let k = Run-Kept h j ns cs b e r in (omega (arith, k.counted, k.budget), k.descending)
