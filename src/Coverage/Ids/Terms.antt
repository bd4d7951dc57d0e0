-- ===== src/Coverage/Ids/Terms.antt =====
-- internal/coverage/ids.go: `parseTerms` reads back what `termsString` writes.
use docker_net_dhcp_lab.Coverage.Cutting.{
  split_parts, split, Lacks, cut-append, split_parts-Lacks, split_parts-append,
}
use docker_net_dhcp_lab.Coverage.Ids.{
  Term, is_name, name_ok, term_string, terms_string, parse_term, parse_each, parse_terms, term_of,
}
use docker_net_dhcp_lab.Prelude.{
  ok, ℕ, ◌≡◌, refl, sym, ◌≢◌, true, false, [], ◌∷◌, arith, nat_eq, and-eq-true, all, any, All,
  All-append, Text, ap, ◌⊎◌, List, map, length, length-map, ◌∙◌, ◌++◌,
}

-- a byte that no separator is
abbrev pub IsPlain : ℕ → Type 0
IsPlain c = (c ≢ b'@') × (c ≢ b'+') × (c ≢ b'~') × (c ≢ b'#')

-- A term that an ID can carry: a name that `nameRE` takes, and a value with no separator.
pub record IsWritable (t : Term) : Type 0 where
  pub named : name_ok t.opt ≡ true
  pub valued : t.val ≢ []
  pub plain : All IsPlain t.val

-- a byte of a name is no separator, no wildcard and no colon
abbrev pub IsNameByte : ℕ → Type 0
IsNameByte c = IsPlain c × (c ≢ b'=') × (c ≢ b'*') × (c ≢ b':')

is_name-IsNameByte : (c : ℕ) → is_name c ≡ true → IsNameByte c
unfolding is_name
is_name-IsNameByte c h = ground arith

names-IsNameByte : (s : Text) → all is_name s ≡ true → All IsNameByte s
names-IsNameByte [] h = tt
names-IsNameByte (c ∷ s) h =
    let (p, q) = and-eq-true (is_name c) (all is_name s) h in
    (is_name-IsNameByte c p, names-IsNameByte s q)

pub name_ok-IsNameByte : (s : Text) → name_ok s ≡ true → All IsNameByte s × (s ≢ [])
unfolding name_ok
name_ok-IsNameByte [] h = cc
name_ok-IsNameByte (c ∷ s) h = (names-IsNameByte (c ∷ s) h, λ e. cc)

pub lacks {ℓ} :
    (P : ℕ → Type ℓ) (b : ℕ) → ((c : ℕ) → P c → c ≢ b) → (s : Text) → All P s → Lacks b s
lacks P b f [] h = tt
lacks P b f (c ∷ s) (p, h) = (f c p, lacks P b f s h)

pub has-Lacks : (b : ℕ) (s : Text) → Lacks b s → any (λ c. nat_eq c b) s ≡ false
has-Lacks b [] h = refl
has-Lacks b (c ∷ s) (p, h) = ground (arith, has-Lacks b s h)

module _ (t : Term) (w : IsWritable t) where
  pub term_string-Lacks :
      (b : ℕ) → ((c : ℕ) → IsPlain c → c ≢ b) → b ≢ b'=' → Lacks b (term_string t)
  term_string-Lacks b f ne =
      All-append (λ c. c ≢ b) t.opt (b'=' ∷ t.val)
        (lacks IsNameByte b (λ c h. f c h.0) t.opt (name_ok-IsNameByte t.opt w.named).0)
        (λ e. ne (sym e), lacks IsPlain b f t.val w.plain)

  term_of-term : term_of (term_string t) (t.opt, t.val) ≡ ok t
  unfolding term_of
  term_of-term = ground (
    arith,
    w.named,
    w.valued,
    has-Lacks b'*' t.opt
        (lacks IsNameByte b'*' (λ c h. h.2) t.opt (name_ok-IsNameByte t.opt w.named).0),
  )

  pub parse_term-term_string : parse_term (term_string t) ≡ ok t
  unfolding parse_term
  parse_term-term_string =
      rw
        (cut-append b'=' t.opt t.val
          (lacks IsNameByte b'=' (λ c h. h.1) t.opt (name_ok-IsNameByte t.opt w.named).0))
        term_of-term

module _ (b : ℕ) (f : (c : ℕ) → IsPlain c → c ≢ b) (ne : b ≢ b'=') (nplus : b ≢ b'+') where
  pub terms_string-Lacks : (ts : List Term) → All IsWritable ts → Lacks b (terms_string ts)
  unfolding terms_string
  terms_string-Lacks [] w = tt
  terms_string-Lacks (t ∷ []) (w, ws) = term_string-Lacks t w b f ne
  terms_string-Lacks (t ∷ u ∷ ts) (w, ws) =
      All-append (λ c. c ≢ b) (term_string t) (b'+' ∷ terms_string (u ∷ ts))
        (term_string-Lacks t w b f ne) (λ e. nplus (sym e), terms_string-Lacks (u ∷ ts) ws)

plus_ne_eq : ◌≢◌ {A = ℕ} b'+' b'='
plus_ne_eq = omega arith

term_string-plus : (t : Term) → IsWritable t → Lacks b'+' (term_string t)
term_string-plus t w = term_string-Lacks t w b'+' (λ c h. h.1) plus_ne_eq

terms_string-cons :
    (t u : Term) (ts : List Term)
    → terms_string (t ∷ u ∷ ts) ≡ term_string t ++ b'+' ∷ terms_string (u ∷ ts)
unfolding terms_string
terms_string-cons t u ts = refl

pub terms_string-one : (t : Term) → terms_string (t ∷ []) ≡ term_string t
unfolding terms_string
terms_string-one t = refl

split_parts-terms_string :
    (t : Term) (ts : List Term)
    → All IsWritable (t ∷ ts)
    → split_parts b'+' (terms_string (t ∷ ts)) ≡ (term_string t, map term_string ts)
split_parts-terms_string t [] (w, ws) =
    rw terms_string-one (split_parts-Lacks b'+' (term_string t) (term_string-plus t w))
split_parts-terms_string t (u ∷ ts) (w, ws) = rw terms_string-cons (
    split_parts-append b'+' (term_string t) (terms_string (u ∷ ts)) (term_string-plus t w)
    ∙ ap {B = Text × List Text} (λ (p : Text × List Text). (term_string t, p.0 ∷ p.1))
        (split_parts-terms_string u ts ws))

split-terms_string :
    (t : Term) (ts : List Term)
    → All IsWritable (t ∷ ts)
    → split b'+' (terms_string (t ∷ ts)) ≡ map term_string (t ∷ ts)
unfolding split
split-terms_string t ts w =
    ap {B = List Text} (λ (p : Text × List Text). p.0 ∷ p.1) (split_parts-terms_string t ts w)

parse_each-term_string :
    (ts : List Term) → All IsWritable ts → parse_each (map term_string ts) ≡ ok ts
unfolding parse_each
parse_each-term_string [] w = refl
parse_each-term_string (t ∷ ts) (w, ws) =
    rw (parse_term-term_string t w, parse_each-term_string ts ws) refl

length-map_term : (ts : List Term) → length (map term_string ts) ≡ length ts
length-map_term ts = length-map {B = Text} term_string ts

pub parse_terms-terms_string :
    (t : Term) (ts : List Term) (n : ℕ)
    → All IsWritable (t ∷ ts)
    → (n ≡ 0) ⊎ (n ≡ length (t ∷ ts))
    → parse_terms (terms_string (t ∷ ts)) n ≡ ok (t ∷ ts)
unfolding parse_terms
parse_terms-terms_string t ts n w h =
    rw (split-terms_string t ts w, length-map_term (t ∷ ts))
      (ground (arith, parse_each-term_string (t ∷ ts) w))
