-- ===== src/Coverage/Ids.antt =====
-- internal/coverage/ids.go: the grammar of variant IDs and placement patterns. An error carries
-- what its text shows.
pub mod Terms
pub mod Canonical
pub mod Rounds
pub mod RoundTrip
pub mod Matching
use docker_net_dhcp_lab.Prelude.{
  Result, err, need, ok, ◌>>=◌, ℕ, eq_pair, Bool, true, false, not, ◌&&◌, ◌||◌, Option, none, some,
  List, [], ◌∷◌, ◌++◌, ltb, leb, nat_eq, if◌then◌else◌, length, all, any, ◌==◌, Text, codes,
  eq_text,
}
use docker_net_dhcp_lab.Coverage.Cutting.{cut, last_cut, cut_pair, split, strip}

-- The kinds of a variant.
pub data Kind : Type 0 where
  single refused out_of_mode alias pair env : Kind

-- `Term`
pub record Term : Type 0 where
  pub opt : Text
  pub val : Text

-- `ID`
pub record VariantId : Type 0 where
  pub kind : Kind
  pub a : List Term
  pub b : List Term
  pub mode : Text
  pub profile : Text

pub data IdError : Type 0 where
  not_a_term : Text → IdError
  glob : IdError
  bad_name : Text → IdError
  wants_terms : ℕ → ℕ → IdError
  alias_without_tilde pair_without_mode env_without_profile env_without_mode : IdError
  not_out_of_mode refused_with_mode : IdError
  bad_profile : Text → IdError

abbrev pub within : ℕ → ℕ → ℕ → Bool
within lo hi c = leb lo c && leb c hi

-- a byte of `nameRE`
unfoldable pub is_name : ℕ → Bool
is_name c =
    within b'A' b'Z' c
    || within b'a' b'z' c
    || within b'0' b'9' c
    || nat_eq c b'_'
    || nat_eq c b'.'
    || nat_eq c b'-'

abbrev is_empty : Text → Bool
is_empty [] = true
is_empty (_ ∷ _) = false

abbrev has : ℕ → Text → Bool
has b s = any (λ c. nat_eq c b) s

-- `nameRE.MatchString`
unfoldable pub name_ok : Text → Bool
unfolding is_name
name_ok s = not (is_empty s) && all is_name s

-- `Term.String`
abbrev pub term_string : Term → Text
term_string t = t.opt ++ b'=' ∷ t.val

-- `termsString`
unfoldable pub terms_string : List Term → Text
terms_string [] = []
terms_string (t ∷ []) = term_string t
terms_string (t ∷ u ∷ ts) = term_string t ++ b'+' ∷ terms_string (u ∷ ts)

abbrev at_mode : Text → Text
at_mode [] = []
at_mode (c ∷ m) = b'@' ∷ c ∷ m

-- `id.A[0].Opt`, which panics on an empty list
abbrev pub first_opt : List Term → Text
first_opt [] = []
first_opt (t ∷ _) = t.opt

string_of : Kind → VariantId → Text
unfolding terms_string
string_of alias i =
    codes "alias:" ++ (terms_string i.a ++ b'~' ∷ (terms_string i.b ++ at_mode i.mode))
string_of pair i = codes "pair:" ++ (terms_string i.a ++ at_mode i.mode)
string_of env i = codes "env:" ++ (terms_string i.a ++ (at_mode i.mode ++ b'#' ∷ i.profile))
string_of out_of_mode i = first_opt i.a ++ b'@' ∷ b'!' ∷ i.mode
string_of _ i = terms_string i.a ++ at_mode i.mode

-- `ID.String`
unfoldable pub id_string : VariantId → Text
unfolding string_of
id_string i = string_of i.kind i

-- `parseTerm`, after the cut at `=`
term_of : Text → Text × Text → Result IdError Term
unfolding name_ok
term_of s (opt, val) =
    if is_empty opt || is_empty val
    then err (not_a_term s)
    else if has b'*' opt
    then err glob
    else if not (name_ok opt)
    then err (bad_name opt)
    else ok (record { opt = opt; val = val })

-- `parseTerm`
unfoldable pub parse_term : Text → Result IdError Term
unfolding term_of
parse_term s = do p ← need (cut b'=' s) (not_a_term s); term_of s p

-- the loop of `parseTerms`
unfoldable pub parse_each : List Text → Result IdError (List Term)
parse_each [] = ok []
parse_each (s ∷ ss) = let rest = parse_each ss in do t ← parse_term s; ts ← rest; ok (t ∷ ts)

-- `parseTerms`
unfoldable pub parse_terms : Text → ℕ → Result IdError (List Term)
unfolding parse_each
parse_terms s n =
    let parts = split b'+' s in
    if ltb 0 n && not (nat_eq (length parts) n)
    then err (wants_terms n (length parts))
    else parse_each parts

-- the text before the last `@`, and the mode behind it, empty where there is no `@`
abbrev pub cut_mode : Text → Text × Text
cut_mode s = elim (last_cut b'@' s) [ none ↦ (s, []) | some p ↦ p ]

-- `strings.HasPrefix(s, "alias:")`
unfoldable pub parse_alias : Text → Result IdError VariantId
parse_alias rest = do
  let (body, mode) = cut_mode rest
  (x, y) ← need (cut b'~' body) alias_without_tilde
  a ← parse_terms x 0
  b ← parse_terms y 0
  ok (record { kind = alias; a = a; b = b; mode = mode; profile = [] })

-- `strings.HasPrefix(s, "pair:")`
unfoldable pub parse_pair : Text → Result IdError VariantId
parse_pair rest = do
  (body, mode) ← need (last_cut b'@' rest) pair_without_mode
  a ← parse_terms body 2
  ok (record { kind = pair; a = a; b = []; mode = mode; profile = [] })

-- `strings.HasPrefix(s, "env:")`
unfoldable pub parse_env : Text → Result IdError VariantId
parse_env rest = do
  (front, profile) ← need (last_cut b'#' rest) env_without_profile
  (body, mode) ← need (last_cut b'@' front) env_without_mode
  a ← parse_terms body 1
  ok (record { kind = env; a = a; b = []; mode = mode; profile = profile })

-- `strings.Contains(s, "@!")`
unfoldable pub parse_out_of_mode : Text × Text → Result IdError VariantId
parse_out_of_mode (opt, mode) =
    if has b'*' opt
    then err glob
    else if not (name_ok opt) || is_empty mode
    then err not_out_of_mode
    else ok (record {
      kind = out_of_mode;
      a = (record { opt = opt; val = [] }) ∷ [];
      b = [];
      mode = mode;
      profile = [];
    })

-- `strings.HasPrefix(t.Val, "!")`
abbrev pub is_refused : Text → Bool
is_refused [] = false
is_refused (c ∷ _) = nat_eq c b'!'

pub single_of : Term → Text → Result IdError VariantId
single_of t mode =
    if is_refused t.val && not (is_empty mode)
    then err refused_with_mode
    else ok (record {
      kind = if is_refused t.val then refused else single;
      a = t ∷ [];
      b = [];
      mode = mode;
      profile = [];
    })

unfoldable pub parse_single : Text → Result IdError VariantId
unfolding single_of
parse_single s = do let (body, mode) = cut_mode s; t ← parse_term body; single_of t mode

-- the `switch` of `ParseID`
parse_plain : Option (Text × Text) → Text → Result IdError VariantId
unfolding parse_out_of_mode parse_single
parse_plain (some p) s = parse_out_of_mode p
parse_plain none s = parse_single s

parse_unless_env : Option Text → Text → Result IdError VariantId
unfolding parse_env parse_plain
parse_unless_env (some rest) s = parse_env rest
parse_unless_env none s = parse_plain (cut_pair b'@' b'!' s) s

parse_unless_pair : Option Text → Text → Result IdError VariantId
unfolding parse_pair parse_unless_env
parse_unless_pair (some rest) s = parse_pair rest
parse_unless_pair none s = parse_unless_env (strip (codes "env:") s) s

unfoldable pub parse_kind : Option Text → Text → Result IdError VariantId
unfolding parse_alias parse_unless_pair
parse_kind (some rest) s = parse_alias rest
parse_kind none s = parse_unless_pair (strip (codes "pair:") s) s

-- `profileRE`
abbrev pub profile_ok : Text → Bool
profile_ok (e ∷ n ∷ []) = nat_eq e b'E' && within b'1' b'4' n
profile_ok _ = false

-- the last test of `ParseID`
unfoldable pub check_profile : VariantId → Result IdError VariantId
check_profile i =
    if not (is_empty i.profile) && not (i.profile == b'*' ∷ []) && not (profile_ok i.profile)
    then err (bad_profile i.profile)
    else ok i

-- `ParseID`
unfoldable pub parse_id : Text → Result IdError VariantId
unfolding parse_kind check_profile
parse_id s = do i ← parse_kind (strip (codes "alias:") s) s; check_profile i
