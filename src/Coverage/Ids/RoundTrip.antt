-- ===== src/Coverage/Ids/RoundTrip.antt =====
-- internal/coverage/ids.go: `ParseID` reads back what `ID.String` writes.
use docker_net_dhcp_lab.Coverage.Cutting.{strip}
use docker_net_dhcp_lab.Coverage.Ids.{
  single, refused, out_of_mode, Term, VariantId, name_ok, id_string, is_refused, check_profile,
  parse_alias, parse_pair, parse_env, parse_out_of_mode, single_of, parse_id,
}
use docker_net_dhcp_lab.Coverage.Ids.Terms.{
  IsNameByte, lacks, name_ok-IsNameByte, has-Lacks, terms_string-one,
}
use docker_net_dhcp_lab.Prelude.{
  ok, ◌>>=◌, ◌≡◌, refl, ◌≢◌, ◌⊎◌, true, false, [], ◌∷◌, ◌++◌, arith, Text, codes, ap, ◌∙◌, inl, inr,
  text_eq_iff,
}
use docker_net_dhcp_lab.Coverage.Ids.Canonical.{
  IsProfile, IsCanonical, single_id, refused_id, out_of_mode_id, alias_id, pair_id, env_id,
}
use docker_net_dhcp_lab.Coverage.Ids.Rounds.{
  single-round, out_of_mode-round, alias-round, pair-round, env-round,
}

no_bang-single :
    (t : Term) (m : Text)
    → is_refused t.val ≡ false
    → single_of t m ≡ ok (record { kind = single; a = t ∷ []; b = []; mode = m; profile = [] })
unfolding single_of
no_bang-single t m h = rw h refl

bang-refused :
    (t : Term)
    → is_refused t.val ≡ true
    → single_of t [] ≡ ok (record { kind = refused; a = t ∷ []; b = []; mode = []; profile = [] })
unfolding single_of
bang-refused t h = rw h refl

out_of_mode-ok :
    (opt m : Text)
    → name_ok opt ≡ true
    → m ≢ []
    → parse_out_of_mode (opt, m)
      ≡ ok (record {
        kind = out_of_mode;
        a = (record { opt = opt; val = [] }) ∷ [];
        b = [];
        mode = m;
        profile = [];
      })
unfolding parse_out_of_mode
out_of_mode-ok opt [] w ne = absurd (ne refl)
out_of_mode-ok opt (c ∷ m) w ne =
    rw (w, has-Lacks b'*' opt (lacks IsNameByte b'*' (λ c h. h.2) opt (name_ok-IsNameByte opt w).0))
      refl

profile-ok : (i : VariantId) → (i.profile ≡ []) ⊎ IsProfile i.profile → check_profile i ≡ ok i
unfolding check_profile
profile-ok i (inl e) = rw e refl
profile-ok i (inr (inl e)) = rw ((text_eq_iff i.profile (b'*' ∷ [])).1 e) (ground arith)
profile-ok i (inr (inr e)) = rw e (ground arith)

alias-kind : (r : Text) → parse_id (codes "alias:" ++ r) ≡ (parse_alias r >>= check_profile)
unfolding parse_id strip
alias-kind r = refl

pair-kind : (r : Text) → parse_id (codes "pair:" ++ r) ≡ (parse_pair r >>= check_profile)
unfolding parse_id strip
pair-kind r = refl

env-kind : (r : Text) → parse_id (codes "env:" ++ r) ≡ (parse_env r >>= check_profile)
unfolding parse_id strip
env-kind r = refl

-- `ParseID` of the text that `ID.String` renders gives the ID back, for an ID of any kind whose
-- option names fit the grammar, whose values hold no separator and whose mode and profile its kind
-- allows.
pub parse_id-id_string : (i : VariantId) → IsCanonical i → parse_id (id_string i) ≡ ok i
unfolding id_string
parse_id-id_string _ (single_id t m w plain k) = rw terms_string-one (
    single-round t m w k
    ∙ ap (λ r. r >>= check_profile) (no_bang-single t m plain)
    ∙ profile-ok _ (inl refl))
parse_id-id_string _ (refused_id t w bang) = rw terms_string-one (
    single-round t [] w (record { no_at = tt; no_bang = refl })
    ∙ ap (λ r. r >>= check_profile) (bang-refused t bang)
    ∙ profile-ok _ (inl refl))
parse_id-id_string _ (out_of_mode_id opt m w ne) =
    out_of_mode-round opt m w ne
    ∙ ap (λ r. r >>= check_profile) (out_of_mode-ok opt m w ne)
    ∙ profile-ok _ (inl refl)
parse_id-id_string _ (alias_id t u ts us m w v k) =
    alias-kind _
    ∙ ap (λ r. r >>= check_profile) (alias-round t u ts us m w v k)
    ∙ profile-ok _ (inl refl)
parse_id-id_string _ (pair_id t u m w k ne) =
    pair-kind _ ∙ ap (λ r. r >>= check_profile) (pair-round t u m w k ne) ∙ profile-ok _ (inl refl)
parse_id-id_string _ (env_id t m p w k ne pr) =
    env-kind _ ∙ ap (λ r. r >>= check_profile) (env-round t m p w k ne pr) ∙ profile-ok _ (inr pr)
