-- ===== src/Coverage/Ids/Matching/Laws.antt =====
-- internal/coverage/ids.go: a literal pattern covers itself alone, and a wildcard no option.
use docker_net_dhcp_lab.Coverage.Ids.{
  Kind, single, refused, out_of_mode, alias, pair, env, Term, VariantId, first_opt,
}
use docker_net_dhcp_lab.Coverage.Ids.Canonical.{
  IsCanonical, single_id, refused_id, out_of_mode_id, alias_id, pair_id, env_id,
}
use docker_net_dhcp_lab.Prelude.{
  ◌≡◌, refl, ap₂, ◌≢◌, true, ◌&&◌, ◌||◌, List, [], ◌∷◌, ◌++◌, map, arith, and-eq-true, All, ◌==◌,
  text_eq_iff, eq_self, Text, eq_text, sym, ap, subst, ◌∙◌, ◌↔◌, map-append,
}
use docker_net_dhcp_lab.Coverage.Ids.Matching.{
  kind_eq, star, bang_star, term_match, terms_match, kind_match, matches, options,
}

-- No value, mode or profile of the pattern is a wildcard.
abbrev IsLiteralTerm : Term → Type 0
IsLiteralTerm t = (t.val ≢ star) × (t.val ≢ bang_star)

pub record IsLiteral (p : VariantId) : Type 0 where
  pub first : All IsLiteralTerm p.a
  pub second : All IsLiteralTerm p.b
  pub mode_literal : p.mode ≢ star
  pub profile_literal : p.profile ≢ star

term_match-literal : (p v : Term) → IsLiteralTerm p → term_match p v ≡ true → p ≡ v
unfolding term_match
term_match-literal p v l h = ground (
  arith,
  l,
  text_eq_iff p.opt v.opt,
  text_eq_iff p.val v.val,
  text_eq_iff p.val star,
  text_eq_iff p.val bang_star,
)

terms_match-literal :
    (ps vs : List Term) → All IsLiteralTerm ps → terms_match ps vs ≡ true → ps ≡ vs
unfolding terms_match
terms_match-literal [] [] l h = refl
terms_match-literal [] (v ∷ vs) l h = cc
terms_match-literal (p ∷ ps) [] l h = cc
terms_match-literal (p ∷ ps) (v ∷ vs) (l, ls) h =
    let (a, b) = and-eq-true (term_match p v) (terms_match ps vs) h in
    ap₂ {C = List Term} ◌∷◌ (term_match-literal p v l a) (terms_match-literal ps vs ls b)

terms_match_self : (ts : List Term) → terms_match ts ts ≡ true
unfolding terms_match term_match
terms_match_self [] = refl
terms_match_self (t ∷ ts) = ground (arith, eq_self t.opt, eq_self t.val, terms_match_self ts)

terms_match-opts :
    (ps vs : List Term)
    → terms_match ps vs ≡ true
    → map (λ t. t.opt) ps ≡ map {B = Text} (λ t. t.opt) vs
unfolding terms_match
terms_match-opts [] [] h = refl
terms_match-opts [] (v ∷ vs) h = cc
terms_match-opts (p ∷ ps) [] h = cc
terms_match-opts (p ∷ ps) (v ∷ vs) h =
    let (a, b) = and-eq-true (term_match p v) (terms_match ps vs) h in
    ap₂ {C = List Text} ◌∷◌
      ((text_eq_iff p.opt v.opt).0 (and-eq-true (p.opt == v.opt) _ (unfold term_match in a)).0)
      (terms_match-opts ps vs b)

-- An ID is covered by itself.
pub matches_self : (i : VariantId) → matches i i ≡ true
unfolding matches
matches_self i = rw (same i.kind, eq_self i.mode, eq_self i.profile, ends i.kind) refl
  where
    same : (k : Kind) → kind_eq k k ≡ true
    same single = refl
    same refused = refl
    same out_of_mode = refl
    same alias = refl
    same pair = refl
    same env = refl

    ends : (k : Kind) → kind_match k i i ≡ true
    ends out_of_mode = eq_self (first_opt i.a)
    ends single = rw (terms_match_self i.a, terms_match_self i.b) refl
    ends refused = rw (terms_match_self i.a, terms_match_self i.b) refl
    ends alias = rw (terms_match_self i.a, terms_match_self i.b) refl
    ends pair = rw (terms_match_self i.a, terms_match_self i.b) refl
    ends env = rw (terms_match_self i.a, terms_match_self i.b) refl

kind_eq_sound : (k l : Kind) → kind_eq k l ≡ true → k ≡ l
kind_eq_sound single l h = ground arith
kind_eq_sound refused l h = ground arith
kind_eq_sound out_of_mode l h = ground arith
kind_eq_sound alias l h = ground arith
kind_eq_sound pair l h = ground arith
kind_eq_sound env l h = ground arith

out_of_mode-shape :
    (i : VariantId)
    → IsCanonical i
    → i.kind ≡ out_of_mode
    → (i.a ≡ (record { opt = first_opt i.a; val = [] }) ∷ []) × (i.b ≡ [])
out_of_mode-shape _ (out_of_mode_id opt m w ne) e = (refl, refl)
out_of_mode-shape _ (single_id t m w plain k) e = cc
out_of_mode-shape _ (refused_id t w bang) e = cc
out_of_mode-shape _ (alias_id t u ts us m w v k) e = cc
out_of_mode-shape _ (pair_id t u m w k ne) e = cc
out_of_mode-shape _ (env_id t m p w k ne pr) e = cc

-- What a match settles, kind by kind.
record Covered (p v : VariantId) : Type 0 where
  same_kind : p.kind ≡ v.kind
  mode_or_star : (p.mode == v.mode || p.mode == star) ≡ true
  profile_or_star : (p.profile == v.profile || p.profile == star) ≡ true
  ends : kind_match p.kind p v ≡ true

matches-Covered : (p v : VariantId) → matches p v ≡ true → Covered p v
unfolding matches
matches-Covered p v h =
    let (h2, d) = and-eq-true _ (kind_match p.kind p v) h in
    let (h1, c) = and-eq-true _ (p.profile == v.profile || p.profile == star) h2 in
    let (a, b) = and-eq-true (kind_eq p.kind v.kind) (p.mode == v.mode || p.mode == star) h1 in
    record {
      same_kind = kind_eq_sound p.kind v.kind a;
      mode_or_star = b;
      profile_or_star = c;
      ends = d;
    }

lists-literal :
    (p v : VariantId)
    → IsLiteral p
    → (terms_match p.a v.a && terms_match p.b v.b) ≡ true
    → (p.a ≡ v.a) × (p.b ≡ v.b)
lists-literal p v l h =
    let (a, b) = and-eq-true (terms_match p.a v.a) (terms_match p.b v.b) h in
    (terms_match-literal p.a v.a l.first a, terms_match-literal p.b v.b l.second b)

ends-literal :
    (k : Kind) (p v : VariantId)
    → p.kind ≡ k
    → v.kind ≡ k
    → IsCanonical p
    → IsCanonical v
    → IsLiteral p
    → kind_match k p v ≡ true
    → (p.a ≡ v.a) × (p.b ≡ v.b)
unfolding kind_match
ends-literal out_of_mode p v e f c d l h =
    let (pa, pb) = out_of_mode-shape p c e in
    let (va, vb) = out_of_mode-shape v d f in
    let same : first_opt p.a ≡ first_opt v.a = (text_eq_iff _ _).0 h in
    (pa ∙ ap {B = List Term} (λ o. (record { opt = o; val = [] }) ∷ []) same ∙ sym va, pb ∙ sym vb)
ends-literal single p v e f c d l h = lists-literal p v l h
ends-literal refused p v e f c d l h = lists-literal p v l h
ends-literal alias p v e f c d l h = lists-literal p v l h
ends-literal pair p v e f c d l h = lists-literal p v l h
ends-literal env p v e f c d l h = lists-literal p v l h

matches-eq :
    (p v : VariantId) → IsCanonical p → IsCanonical v → IsLiteral p → matches p v ≡ true → p ≡ v
matches-eq p v c d l h =
    let m = matches-Covered p v h in
    let (a, b) = ends-literal p.kind p v refl (sym m.same_kind) c d l m.ends in
    let mode : p.mode ≡ v.mode =
      ground (
        arith,
        m.mode_or_star,
        l.mode_literal,
        text_eq_iff p.mode v.mode,
        text_eq_iff p.mode star,
      ) in
    let profile : p.profile ≡ v.profile = ground (
      arith,
      m.profile_or_star,
      l.profile_literal,
      text_eq_iff p.profile v.profile,
      text_eq_iff p.profile star,
    ) in
    λ i. record { kind = m.same_kind i; a = a i; b = b i; mode = mode i; profile = profile i }

-- A pattern that holds no wildcard covers the ID that it spells and no other.
pub matches-literal_iff :
    (p v : VariantId) → IsCanonical p → IsCanonical v → IsLiteral p → (matches p v ≡ true) ↔ (p ≡ v)
matches-literal_iff p v c d l =
    (matches-eq p v c d l, λ e. subst (λ w. matches p w ≡ true) e (matches_self p))

lists-options :
    (p v : VariantId) → (terms_match p.a v.a && terms_match p.b v.b) ≡ true → options p ≡ options v
lists-options p v h =
    let (a, b) = and-eq-true (terms_match p.a v.a) (terms_match p.b v.b) h in
    rw (map-append _ p.a p.b, map-append _ v.a v.b)
      (ap₂ {C = List Text} (λ xs ys. xs ++ ys) (terms_match-opts p.a v.a a)
        (terms_match-opts p.b v.b b))

ends-options :
    (k : Kind) (p v : VariantId)
    → p.kind ≡ k
    → v.kind ≡ k
    → IsCanonical p
    → IsCanonical v
    → kind_match k p v ≡ true
    → options p ≡ options v
unfolding kind_match
ends-options out_of_mode p v e f c d h =
    let (pa, pb) = out_of_mode-shape p c e in
    let (va, vb) = out_of_mode-shape v d f in
    rw (pa, pb, va, vb) (ap (λ (o : Text). o ∷ []) ((text_eq_iff _ _).0 h))
ends-options single p v e f c d h = lists-options p v h
ends-options refused p v e f c d h = lists-options p v h
ends-options alias p v e f c d h = lists-options p v h
ends-options pair p v e f c d h = lists-options p v h
ends-options env p v e f c d h = lists-options p v h

-- A pattern covers only IDs of its own kind that name the same options in the same order: a
-- wildcard never stands for an option.
pub matches-options :
    (p v : VariantId)
    → IsCanonical p
    → IsCanonical v
    → matches p v ≡ true
    → (p.kind ≡ v.kind) × (options p ≡ options v)
matches-options p v c d h =
    let m = matches-Covered p v h in
    (m.same_kind, ends-options p.kind p v refl (sym m.same_kind) c d m.ends)
