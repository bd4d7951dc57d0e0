-- ===== src/Coverage/Cutting.antt =====
-- The functions of Go's package strings that internal/coverage/ids.go calls, over bytes.
use docker_net_dhcp_lab.Prelude.{
  ℕ, eq_pair, ◌≡◌, refl, ◌≢◌, true, ◌&&◌, Option, none, some, List, [], ◌∷◌, ◌++◌, arith, nat_eq,
  if◌then◌else◌, any, All, Text, Bool,
}

-- a byte more before the cut
abbrev behind : ℕ → Option (Text × Text) → Option (Text × Text)
behind c none = none
behind c (some (l, r)) = some (c ∷ l, r)

-- `strings.Cut(s, sep)` at one byte
unfoldable pub cut : ℕ → Text → Option (Text × Text)
cut b [] = none
cut b (c ∷ s) = if nat_eq c b then some ([], s) else behind c (cut b s)

abbrev or_here : Bool → Text → Option (Text × Text) → Option (Text × Text)
or_here here s none = if here then some ([], s) else none
or_here here s (some m) = some m

-- The text before and after `strings.LastIndex(s, sep)`, `none` for -1
unfoldable pub last_cut : ℕ → Text → Option (Text × Text)
last_cut b [] = none
last_cut b (c ∷ s) = or_here (nat_eq c b) s (behind c (last_cut b s))

-- `strings.Cut(s, sep)` at two bytes; `strings.Contains` is that it finds them
unfoldable pub cut_pair : ℕ → ℕ → Text → Option (Text × Text)
cut_pair a b [] = none
cut_pair a b (c ∷ []) = none
cut_pair a b (c ∷ (d ∷ s)) =
    if nat_eq c a && nat_eq d b then some ([], s) else behind c (cut_pair a b (d ∷ s))

-- `strings.Split(s, sep)` at one byte: the first part and the others
unfoldable pub split_parts : ℕ → Text → Text × List Text
split_parts b [] = ([], [])
split_parts b (c ∷ s) =
    let (p, ps) = split_parts b s in if nat_eq c b then ([], p ∷ ps) else (c ∷ p, ps)

unfoldable pub split : ℕ → Text → List Text
unfolding split_parts
split b s = let (p, ps) = split_parts b s in p ∷ ps

-- The text `p` and what follows it in `s`: `strings.HasPrefix` with `strings.TrimPrefix`
unfoldable pub strip : Text → Text → Option Text
strip [] s = some s
strip (p ∷ ps) [] = none
strip (p ∷ ps) (c ∷ s) = if nat_eq c p then strip ps s else none

-- The byte does not stand in the text.
abbrev pub Lacks : ℕ → Text → Type 0
Lacks b s = All (λ c. c ≢ b) s

module _ (b : ℕ) where
  pub cut-append : (s r : Text) → Lacks b s → cut b (s ++ b ∷ r) ≡ some (s, r)
  unfolding cut
  cut-append [] r h = ground arith
  cut-append (c ∷ s) r (p, h) = ground (arith, cut-append s r h)

  pub cut-Lacks : (s : Text) → Lacks b s → cut b s ≡ none
  unfolding cut
  cut-Lacks [] h = refl
  cut-Lacks (c ∷ s) (p, h) = ground (arith, cut-Lacks s h)

  pub last_cut-Lacks : (s : Text) → Lacks b s → last_cut b s ≡ none
  unfolding last_cut
  last_cut-Lacks [] h = refl
  last_cut-Lacks (c ∷ s) (p, h) = ground (arith, last_cut-Lacks s h)

  pub last_cut-append : (s r : Text) → Lacks b r → last_cut b (s ++ b ∷ r) ≡ some (s, r)
  unfolding last_cut
  last_cut-append [] r h = ground (arith, last_cut-Lacks r h)
  last_cut-append (c ∷ s) r h = ground (arith, last_cut-append s r h)

  pub split_parts-Lacks : (s : Text) → Lacks b s → split_parts b s ≡ (s, [])
  unfolding split_parts
  split_parts-Lacks [] h = refl
  split_parts-Lacks (c ∷ s) (p, h) = ground (arith, split_parts-Lacks s h)

  pub split_parts-append :
      (s r : Text)
      → Lacks b s
      → split_parts b (s ++ b ∷ r) ≡ (s, (split_parts b r).0 ∷ (split_parts b r).1)
  unfolding split_parts
  split_parts-append [] r h = ground arith
  split_parts-append (c ∷ s) r (p, h) = ground (arith, split_parts-append s r h)

pub strip-append : (p s : Text) → strip p (p ++ s) ≡ some s
unfolding strip
strip-append [] s = refl
strip-append (c ∷ p) s = ground (arith, strip-append p s)

pub cut_pair-append :
    (a b : ℕ) (s r : Text) → Lacks a s → cut_pair a b (s ++ a ∷ b ∷ r) ≡ some (s, r)
unfolding cut_pair
cut_pair-append a b [] r h = ground arith
cut_pair-append a b (c ∷ []) r h = ground (arith, cut_pair-append a b [] r tt)
cut_pair-append a b (c ∷ d ∷ s) r (p, h) = ground (arith, cut_pair-append a b (d ∷ s) r h)

pub cut_pair-Lacks : (a b : ℕ) (s : Text) → Lacks a s → cut_pair a b s ≡ none
unfolding cut_pair
cut_pair-Lacks a b [] h = refl
cut_pair-Lacks a b (c ∷ []) h = refl
cut_pair-Lacks a b (c ∷ d ∷ s) (p, h) = ground (arith, cut_pair-Lacks a b (d ∷ s) h)

pub cut_pair-ne :
    (a b : ℕ) (s : Text) (c : ℕ) (r : Text)
    → Lacks a s
    → c ≢ b
    → Lacks a (c ∷ r)
    → cut_pair a b (s ++ a ∷ c ∷ r) ≡ none
unfolding cut_pair
cut_pair-ne a b [] c r h ne k = ground (arith, cut_pair-Lacks a b (c ∷ r) k)
cut_pair-ne a b (d ∷ []) c r (p, h) ne k = ground (arith, cut_pair-ne a b [] c r tt ne k)
cut_pair-ne a b (d ∷ e ∷ s) c r (p, h) ne k = ground (arith, cut_pair-ne a b (e ∷ s) c r h ne k)

-- A text whose first byte equal to `x` comes before any `y` does not begin with a text that has
-- a `y` and no `x`.
pub strip-none :
    (x y : ℕ) (n q r : Text)
    → Lacks y n
    → Lacks x q
    → any (λ c. nat_eq c y) q ≡ true
    → x ≢ y
    → strip q (n ++ x ∷ r) ≡ none
unfolding strip
strip-none x y n [] r a b h ne = cc
strip-none x y [] (c ∷ q) r a (p, b) h ne = ground arith
strip-none x y (d ∷ n) (c ∷ q) r (o, a) (p, b) h ne = ground (arith, strip-none x y n q r a b)
