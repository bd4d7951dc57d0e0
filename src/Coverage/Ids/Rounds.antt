-- ===== src/Coverage/Ids/Rounds.antt =====
-- internal/coverage/ids.go: each case of the switch of `ParseID` reads back what `ID.String` writes.
use docker_net_dhcp_lab.Coverage.Cutting.{
  cut_pair, strip, Lacks, cut-append, last_cut-append, last_cut-Lacks, strip-none, cut_pair-append,
  cut_pair-Lacks, cut_pair-ne,
}
use docker_net_dhcp_lab.Coverage.Ids.{
  alias, pair, env, Term, name_ok, term_string, terms_string, at_mode, cut_mode, check_profile,
  parse_alias, parse_pair, parse_env, parse_out_of_mode, parse_single, single_of, parse_plain,
  parse_kind, parse_id,
}
use docker_net_dhcp_lab.Coverage.Ids.Terms.{
  IsNameByte, IsWritable, lacks, name_ok-IsNameByte, terms_string-Lacks, term_string-Lacks,
  parse_term-term_string, parse_terms-terms_string,
}
use docker_net_dhcp_lab.Prelude.{
  ok, ◌>>=◌, ◌≡◌, refl, ◌≢◌, true, none, List, [], ◌∷◌, ◌++◌, arith, append_nil, All, Text, ℕ,
  nat_eq, any, codes, sym, ap, subst, ◌∙◌, append_assoc, inl, inr, All-append,
}
use docker_net_dhcp_lab.Coverage.Ids.Canonical.{IsMode, IsProfile}

no_at : (ts : List Term) → All IsWritable ts → Lacks b'@' (terms_string ts)
no_at ts w = terms_string-Lacks b'@' (λ c h. h.0) (omega arith) (omega arith) ts w

no_tilde : (ts : List Term) → All IsWritable ts → Lacks b'~' (terms_string ts)
no_tilde ts w = terms_string-Lacks b'~' (λ c h. h.2) (omega arith) (omega arith) ts w

cut_mode-at_mode : (s m : Text) → Lacks b'@' s → Lacks b'@' m → cut_mode (s ++ at_mode m) ≡ (s, m)
cut_mode-at_mode s [] h k = ap cut_mode (append_nil s) ∙ rw (last_cut-Lacks b'@' s h, cut_mode) refl
cut_mode-at_mode s (c ∷ m) h k = rw (last_cut-append b'@' s (c ∷ m) k, cut_mode) refl

at_mode-cons : (m : Text) → m ≢ [] → at_mode m ≡ b'@' ∷ m
at_mode-cons [] h = absurd (h refl)
at_mode-cons (c ∷ m) h = refl

cut_pair-at_mode :
    (s m : Text) → Lacks b'@' s → IsMode m → cut_pair b'@' b'!' (s ++ at_mode m) ≡ none
cut_pair-at_mode s [] h k = rw append_nil (cut_pair-Lacks b'@' b'!' s h)
cut_pair-at_mode s (c ∷ m) h k =
    cut_pair-ne b'@' b'!' s c m h (λ e. ground (arith, k.no_bang)) k.no_at

-- No prefix of the switch fits a text that has `x` behind a name.
module _ (n r : Text) (named : name_ok n ≡ true) (x : ℕ) where
  bytes : All IsNameByte n
  bytes = (name_ok-IsNameByte n named).0

  strip_colon-none :
      (q : Text)
      → Lacks x q
      → any (λ c. nat_eq c b':') q ≡ true
      → x ≢ b':'
      → strip q (n ++ x ∷ r) ≡ none
  strip_colon-none q l h ne =
      strip-none x b':' n q r (lacks IsNameByte b':' (λ c k. k.3) n bytes) l h ne

  parse_kind_none :
      x ≢ b':'
      → Lacks x (codes "alias:")
      → Lacks x (codes "pair:")
      → Lacks x (codes "env:")
      → parse_kind (strip (codes "alias:") (n ++ x ∷ r)) (n ++ x ∷ r)
        ≡ parse_plain (cut_pair b'@' b'!' (n ++ x ∷ r)) (n ++ x ∷ r)
  unfolding parse_kind
  parse_kind_none ne la lp le =
      rw
        (
          strip_colon-none (codes "alias:") la refl ne,
          strip_colon-none (codes "pair:") lp refl ne,
          strip_colon-none (codes "env:") le refl ne,
        )
        refl

-- the first test of each form, on the text that `String` writes
plain_kind :
    (t : Term) (m : Text)
    → IsWritable t
    → IsMode m
    → parse_kind (strip (codes "alias:") (term_string t ++ at_mode m)) (term_string t ++ at_mode m)
      ≡ parse_single (term_string t ++ at_mode m)
plain_kind t m w k =
    subst (λ s. parse_kind (strip (codes "alias:") s) s ≡ parse_single s)
      (sym (append_assoc t.opt (b'=' ∷ t.val) (at_mode m)))
      (parse_kind_none t.opt (t.val ++ at_mode m) w.named b'=' (omega arith) (omega arith)
          (omega arith) (omega arith)
        ∙ rest)
  where
    rest :
        parse_plain
          (cut_pair b'@' b'!' (t.opt ++ b'=' ∷ (t.val ++ at_mode m)))
          (t.opt ++ b'=' ∷ (t.val ++ at_mode m))
        ≡ parse_single (t.opt ++ b'=' ∷ (t.val ++ at_mode m))
    rest =
        subst (λ s. parse_plain (cut_pair b'@' b'!' s) s ≡ parse_single s)
          (append_assoc t.opt (b'=' ∷ t.val) (at_mode m))
          (rw
            (cut_pair-at_mode (term_string t) m
              (term_string-Lacks t w b'@' (λ c h. h.0) (omega arith)) k)
            (unfold parse_plain in refl))

parse_single-string :
    (t : Term) (m : Text)
    → IsWritable t
    → IsMode m
    → parse_single (term_string t ++ at_mode m) ≡ single_of t m
unfolding parse_single
parse_single-string t m w k =
    rw
      (
        cut_mode-at_mode (term_string t) m (term_string-Lacks t w b'@' (λ c h. h.0) (omega arith))
            k.no_at,
        parse_term-term_string t w,
      )
      refl

pub single-round :
    (t : Term) (m : Text)
    → IsWritable t
    → IsMode m
    → parse_id (term_string t ++ at_mode m) ≡ (single_of t m >>= check_profile)
unfolding parse_id
single-round t m w k =
    ap (λ r. r >>= check_profile) (plain_kind t m w k ∙ parse_single-string t m w k)

pub out_of_mode-round :
    (opt m : Text)
    → name_ok opt ≡ true
    → m ≢ []
    → parse_id (opt ++ b'@' ∷ b'!' ∷ m) ≡ (parse_out_of_mode (opt, m) >>= check_profile)
unfolding parse_id
out_of_mode-round opt m w ne =
    ap (λ r. r >>= check_profile)
      (parse_kind_none opt (b'!' ∷ m) w b'@' (omega arith) (omega arith) (omega arith) (omega arith)
        ∙ rw
            (cut_pair-append b'@' b'!' opt m
              (lacks IsNameByte b'@' (λ c h. h.0.0) opt (name_ok-IsNameByte opt w).0))
            (unfold parse_plain in refl))

pub alias-round :
    (t u : Term) (ts us : List Term) (m : Text)
    → All IsWritable (t ∷ ts)
    → All IsWritable (u ∷ us)
    → IsMode m
    → parse_alias (terms_string (t ∷ ts) ++ b'~' ∷ (terms_string (u ∷ us) ++ at_mode m))
      ≡ ok (record { kind = alias; a = t ∷ ts; b = u ∷ us; mode = m; profile = [] })
unfolding parse_alias
alias-round t u ts us m w v k =
    rw
      (
        ← append_assoc (terms_string (t ∷ ts)) (b'~' ∷ terms_string (u ∷ us)) (at_mode m),
        cut_mode-at_mode (terms_string (t ∷ ts) ++ b'~' ∷ terms_string (u ∷ us)) m no_ats k.no_at,
        cut-append b'~' (terms_string (t ∷ ts)) (terms_string (u ∷ us)) (no_tilde (t ∷ ts) w),
        parse_terms-terms_string t ts 0 w (inl refl),
        parse_terms-terms_string u us 0 v (inl refl),
      )
      refl
  where
    no_ats : Lacks b'@' (terms_string (t ∷ ts) ++ b'~' ∷ terms_string (u ∷ us))
    no_ats =
        All-append (λ c. c ≢ b'@') (terms_string (t ∷ ts)) (b'~' ∷ terms_string (u ∷ us))
          (no_at (t ∷ ts) w) (omega arith, no_at (u ∷ us) v)

pub pair-round :
    (t u : Term) (m : Text)
    → All IsWritable (t ∷ u ∷ [])
    → IsMode m
    → m ≢ []
    → parse_pair (terms_string (t ∷ u ∷ []) ++ at_mode m)
      ≡ ok (record { kind = pair; a = t ∷ u ∷ []; b = []; mode = m; profile = [] })
unfolding parse_pair
pair-round t u m w k ne =
    rw
      (
        at_mode-cons m ne,
        last_cut-append b'@' (terms_string (t ∷ u ∷ [])) m k.no_at,
        parse_terms-terms_string t (u ∷ []) 2 w (inr refl),
      )
      refl

profile-no_hash : (p : Text) → IsProfile p → Lacks b'#' p
profile-no_hash [] h = tt
profile-no_hash (a ∷ []) h = (λ e. ground (arith, h), tt)
profile-no_hash (a ∷ b ∷ []) h = (λ e. ground (arith, h), (λ e. ground (arith, h), tt))
profile-no_hash (a ∷ b ∷ c ∷ p) h = absurd (ground (arith, h))

pub env-round :
    (t : Term) (m p : Text)
    → IsWritable t
    → IsMode m
    → m ≢ []
    → IsProfile p
    → parse_env (terms_string (t ∷ []) ++ (at_mode m ++ b'#' ∷ p))
      ≡ ok (record { kind = env; a = t ∷ []; b = []; mode = m; profile = p })
unfolding parse_env
env-round t m p w k ne pr =
    rw
      (
        at_mode-cons m ne,
        ← append_assoc (terms_string (t ∷ [])) (b'@' ∷ m) (b'#' ∷ p),
        last_cut-append b'#' (terms_string (t ∷ []) ++ b'@' ∷ m) p (profile-no_hash p pr),
        last_cut-append b'@' (terms_string (t ∷ [])) m k.no_at,
        parse_terms-terms_string t [] 1 (w, tt) (inr refl),
      )
      refl
