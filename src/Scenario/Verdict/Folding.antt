-- ===== src/Scenario/Verdict/Folding.antt =====
-- internal/scenario/verdict.go: `oneLine`, which keeps a value on its line. `strings.TrimSpace` is
-- modelled on ASCII.
use docker_net_dhcp_lab.Prelude.{
  Bool, ℕ, Text, all, ◌≡◌, false, nat_eq, ◌||◌, true, not, refl, ◌&&◌, [], ◌∷◌, arith,
  if◌then◌else◌, ◌==◌, eq_text,
}

-- the class of `foldRE`
unfoldable pub is_break : ℕ → Bool
is_break c = nat_eq c 13 || nat_eq c 10 || nat_eq c 9 || nat_eq c 11 || nat_eq c 12

-- `foldRE.ReplaceAllString(s, " ")`; the flag says that the byte before was in the run
unfoldable pub fold_from : Bool → Text → Text
unfolding is_break
fold_from run [] = []
fold_from run (c ∷ s) =
    let after = fold_from (is_break c) s in
    if is_break c then (if run then after else b' ' ∷ after) else c ∷ after

unfoldable pub is_space : ℕ → Bool
unfolding is_break
is_space c = nat_eq c b' ' || is_break c

unfoldable pub trim_left : Text → Text
trim_left [] = []
trim_left (c ∷ s) = if is_space c then trim_left s else c ∷ s

unfoldable pub trim_right : Text → Text
trim_right [] = []
trim_right (c ∷ s) = let rest = trim_right s in if is_space c && rest == [] then [] else c ∷ rest

-- `oneLine`
unfoldable pub one_line : Text → Text
unfolding fold_from trim_left trim_right
one_line s = trim_right (trim_left (fold_from false s))

-- neither CR nor LF: not `strings.ContainsAny(s, "\r\n")`
unfoldable pub clean : Text → Bool
clean s = all (λ c. not (nat_eq c 13 || nat_eq c 10)) s

clean-fold_from : (run : Bool) (s : Text) → clean (fold_from run s) ≡ true
unfolding clean fold_from is_break
clean-fold_from run [] = refl
clean-fold_from run (c ∷ s) = ground (arith, clean-fold_from (is_break c) s)

clean-trim_left : (s : Text) → clean s ≡ true → clean (trim_left s) ≡ true
unfolding clean trim_left
clean-trim_left [] h = refl
clean-trim_left (c ∷ s) h = ground (arith, h, clean-trim_left s)

clean-trim_right : (s : Text) → clean s ≡ true → clean (trim_right s) ≡ true
unfolding clean trim_right
clean-trim_right [] h = refl
clean-trim_right (c ∷ s) h = ground (arith, h, clean-trim_right s)

-- A folded value stays on its line.
pub clean-one_line : (s : Text) → clean (one_line s) ≡ true
unfolding one_line
clean-one_line s =
    clean-trim_right (trim_left (fold_from false s))
      (clean-trim_left (fold_from false s) (clean-fold_from false s))
