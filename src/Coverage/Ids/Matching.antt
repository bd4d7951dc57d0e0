-- ===== src/Coverage/Ids/Matching.antt =====
-- internal/coverage/ids.go: which IDs a pattern covers.
pub mod Laws
use docker_net_dhcp_lab.Coverage.Ids.{
  Kind, single, refused, out_of_mode, alias, pair, env, Term, VariantId, first_opt, is_refused,
}
use docker_net_dhcp_lab.Coverage.Ids.Canonical.{
  IsCanonical, single_id, refused_id, out_of_mode_id, alias_id, pair_id, env_id,
}
use docker_net_dhcp_lab.Prelude.{
  ◌≡◌, refl, ap₂, ◌≢◌, Bool, true, false, not, ◌&&◌, ◌||◌, List, [], ◌∷◌, ◌++◌, map, arith,
  and-eq-true, All, ◌==◌, text_eq_iff, eq_self, Text, eq_text, sym, ap, subst, ◌∙◌, ◌↔◌, map-append,
}

abbrev pub kind_eq : Kind → Kind → Bool
kind_eq single single = true
kind_eq refused refused = true
kind_eq out_of_mode out_of_mode = true
kind_eq alias alias = true
kind_eq pair pair = true
kind_eq env env = true
kind_eq _ _ = false

abbrev pub star : Text
star = b'*' ∷ []

abbrev pub bang_star : Text
bang_star = b'!' ∷ b'*' ∷ []

-- one round of the loop of `termsMatch`
term_match : Term → Term → Bool
term_match p v =
    let is_ref = is_refused v.val in
    p.opt == v.opt
    && (p.val == v.val || (p.val == star && not is_ref) || (p.val == bang_star && is_ref))

-- `termsMatch`; lists of two lengths do not match
unfoldable pub terms_match : List Term → List Term → Bool
unfolding term_match
terms_match [] [] = true
terms_match (p ∷ ps) (v ∷ vs) = term_match p v && terms_match ps vs
terms_match _ _ = false

-- the end of `ID.Matches`, by the pattern's kind
kind_match : Kind → VariantId → VariantId → Bool
unfolding terms_match
kind_match out_of_mode p v = first_opt p.a == first_opt v.a
kind_match _ p v = terms_match p.a v.a && terms_match p.b v.b

-- `ID.Matches`
unfoldable pub matches : VariantId → VariantId → Bool
unfolding kind_match
matches p v =
    kind_eq p.kind v.kind
    && (p.mode == v.mode || p.mode == star)
    && (p.profile == v.profile || p.profile == star)
    && kind_match p.kind p v

-- `ID.Options`
abbrev pub options : VariantId → List Text
options i = map (λ t. t.opt) (i.a ++ i.b)
