-- ===== src/Scenario/GroupE/JudgeE2/Views.antt =====
-- internal/scenario/groupe_judge.go: the counters as keyed series, and `viewsDisagree`.
use docker_net_dhcp_lab.Prelude.{
  ℕ, ◌+◌, ◌≡◌, refl, ◌↔◌, not, ◌||◌, Option, none, some, List, [], ◌∷◌, ◌++◌, arith, nat_eq,
  if◌then◌else◌, All, append-eq-nil, All_of,
}
use docker_net_dhcp_lab.Scenario.GroupE.Reasons.{
  Counter, leases_obtained, leases_renewed, lease_changed, renewals_unanswered, dhcp_timeouts,
  naks_received, releases_sent, Fault, health_lacks, views_differ,
}

-- The keys `n + "_v4"`, `n + "_v6"` and `n`.
pub data Key : Type 0 where
  v4 v6 both : Counter → Key

-- A `map[string]int64` over those keys.
abbrev pub Series : Type 0
Series = Key → Option ℕ

-- a map read with no `ok`
abbrev pub value_of : Option ℕ → ℕ
value_of none = 0
value_of (some n) = n

-- `e2Names`
abbrev pub e2_names : List Counter
e2_names =
    leases_obtained ∷ leases_renewed ∷ lease_changed ∷ renewals_unanswered ∷ dhcp_timeouts
    ∷ naks_received ∷ releases_sent ∷ []

view_fault : Counter → ℕ → ℕ → Option ℕ → Option ℕ → Option ℕ → List Fault
view_fault c m4 m6 (some h4) (some h6) (some h) =
    if not (nat_eq h4 m4) || not (nat_eq h6 m6) || not (nat_eq h (m4 + m6))
    then views_differ c ∷ []
    else []
view_fault c m4 m6 _ _ _ = health_lacks c ∷ []

view_faults : Series → Series → List Counter → List Fault
unfolding view_fault
view_faults metrics health [] = []
view_faults metrics health (c ∷ cs) =
    view_fault c (value_of (metrics (v4 c))) (value_of (metrics (v6 c))) (health (v4 c))
      (health (v6 c)) (health (both c))
    ++ view_faults metrics health cs

-- `viewsDisagree`
unfoldable pub views_disagree : Series → Series → List Fault
unfolding view_faults
views_disagree metrics health = view_faults metrics health e2_names

-- The two views show one snapshot of a counter: each family half equal, the sum that of both.
pub record SameView (metrics health : Series) (c : Counter) : Type 0 where
  pub half4 : health (v4 c) ≡ some (value_of (metrics (v4 c)))
  pub half6 : health (v6 c) ≡ some (value_of (metrics (v6 c)))
  pub whole : health (both c) ≡ some (value_of (metrics (v4 c)) + value_of (metrics (v6 c)))

view_fault-nil :
    (c : Counter) (m4 m6 : ℕ) (h4 h6 h : Option ℕ)
    → view_fault c m4 m6 h4 h6 h ≡ []
    → (h4 ≡ some m4) × (h6 ≡ some m6) × (h ≡ some (m4 + m6))
unfolding view_fault
view_fault-nil c m4 m6 h4 h6 h e = ground arith

view_fault-none :
    (c : Counter) (m4 m6 : ℕ) → view_fault c m4 m6 (some m4) (some m6) (some (m4 + m6)) ≡ []
unfolding view_fault
view_fault-none c m4 m6 = ground arith

view_faults-nil :
    (metrics health : Series) (cs : List Counter)
    → view_faults metrics health cs ≡ []
    → All (SameView metrics health) cs
unfolding view_faults
view_faults-nil m h [] e = tt
view_faults-nil m h (c ∷ cs) e =
    let (here, rest) = append-eq-nil _ _ e in
    let (a, b, s) = view_fault-nil c _ _ _ _ _ here in
    (record { half4 = a; half6 = b; whole = s }, view_faults-nil m h cs rest)

view_faults-none :
    (metrics health : Series) (cs : List Counter)
    → All (SameView metrics health) cs
    → view_faults metrics health cs ≡ []
unfolding view_faults
view_faults-none m h [] v = refl
view_faults-none m h (c ∷ cs) (v, vs) =
    rw (v.half4, v.half6, v.whole, view_fault-none) (view_faults-none m h cs vs)

all_names : (P : Counter → Type 0) → All P e2_names → (c : Counter) → P c
all_names P v leases_obtained = v.0
all_names P v leases_renewed = v.1.0
all_names P v lease_changed = v.1.1.0
all_names P v renewals_unanswered = v.1.1.1.0
all_names P v dhcp_timeouts = v.1.1.1.1.0
all_names P v naks_received = v.1.1.1.1.1.0
all_names P v releases_sent = v.1.1.1.1.1.1.0

-- `viewsDisagree` finds nothing exactly when, for every counter, /Plugin.Health has both family
-- halves and the sum, the halves are those of /metrics (0 where it lacks one), and the sum is theirs.
pub views_disagree_iff :
    (metrics health : Series)
    → (views_disagree metrics health ≡ []) ↔ ((c : Counter) → SameView metrics health c)
unfolding views_disagree
views_disagree_iff m h = (
  λ e. all_names (SameView m h) (view_faults-nil m h e2_names e),
  λ v. view_faults-none m h e2_names (All_of (SameView m h) v e2_names),
)
