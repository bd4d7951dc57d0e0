-- ===== src/Scenario/Verdict/Lines.antt =====
-- internal/scenario/verdict.go: the "key: value" lines, as `Write` prints them and the first loop of
-- `ReadVerdict` reads them.
use docker_net_dhcp_lab.Prelude.{
  List, Text, ℕ, Option, ◌++◌, ◌∷◌, Result, Bool, ◌||◌, none, ok, [], leb, some, false, ◌&&◌, all,
  nat_eq, eq_pair, if◌then◌else◌, ◌==◌, ◌>>=◌, need, eq_text,
}

-- `fmt.Fprintf(&b, "%s: %s\n", key, val)`
unfoldable pub line_of : Text × Text → Text
line_of (key, val) = key ++ (b':' ∷ b' ' ∷ val ++ 10 ∷ [])

unfoldable pub print : List (Text × Text) → Text
unfolding line_of
print [] = []
print (f ∷ fields) = line_of f ++ print fields

abbrev pub cons_first : ℕ → List Text → List Text
cons_first c [] = (c ∷ []) ∷ []
cons_first c (l ∷ ls) = (c ∷ l) ∷ ls

-- `strings.Split(s, "\n")`
unfoldable pub split_lines : Text → List Text
split_lines [] = [] ∷ []
split_lines (c ∷ s) =
    let rest = split_lines s in if nat_eq c 10 then [] ∷ rest else cons_first c rest

-- `strings.TrimRight(line, "\r")`
unfoldable pub trim_cr : Text → Text
trim_cr [] = []
trim_cr (c ∷ s) = let rest = trim_cr s in if nat_eq c 13 && rest == [] then [] else c ∷ rest

abbrev pub prepend : ℕ → Option (Text × Text) → Option (Text × Text)
prepend c none = none
prepend c (some (k, v)) = some (c ∷ k, v)

-- `strings.Cut(line, ": ")`
unfoldable pub cut_colon : Text → Option (Text × Text)
cut_colon [] = none
cut_colon (c ∷ []) = none
cut_colon (c ∷ d ∷ s) =
    let rest = cut_colon (d ∷ s) in
    if nat_eq c b':' && nat_eq d b' ' then some ([], s) else prepend c rest

abbrev pub prepend_key : ℕ → Option Text → Option Text
prepend_key c none = none
prepend_key c (some k) = some (c ∷ k)

-- `strings.CutSuffix(line, ":")`
unfoldable pub cut_last_colon : Text → Option Text
cut_last_colon [] = none
cut_last_colon (c ∷ []) = if nat_eq c b':' then some [] else none
cut_last_colon (c ∷ d ∷ s) = prepend_key c (cut_last_colon (d ∷ s))

unfoldable pub is_letter : ℕ → Bool
is_letter c = (leb b'A' c && leb c b'Z') || (leb b'a' c && leb c b'z')

unfoldable pub is_key_char : ℕ → Bool
unfolding is_letter
is_key_char c =
    is_letter c || (leb b'0' c && leb c b'9') || nat_eq c b'_' || nat_eq c b'.' || nat_eq c b'-'

-- `fieldKeyRE.MatchString`
unfoldable pub is_key : Text → Bool
unfolding is_letter is_key_char
is_key [] = false
is_key (c ∷ s) = is_letter c && all is_key_char s

abbrev pub or_suffix : Option (Text × Text) → Option Text → Option (Text × Text)
or_suffix (some p) key = some p
or_suffix none none = none
or_suffix none (some key) = some (key, [])

-- `key, val, ok` of a line
unfoldable pub pair_of : Text → Option (Text × Text)
unfolding cut_colon
pair_of line = or_suffix (cut_colon line) (cut_last_colon line)

-- the line joins the last field's value
unfoldable pub extend_last : List (Text × Text) → Text → Option (List (Text × Text))
extend_last [] line = none
extend_last ((k, v) ∷ []) line = some ((k, v ++ b' ' ∷ line) ∷ [])
extend_last (f ∷ g ∷ fields) line = elim (extend_last (g ∷ fields) line) [
  | none ↦ none
  | some rest ↦ some (f ∷ rest)
]

-- what one line that is not empty does to the fields
unfoldable pub add_line :
    List (Text × Text) → Text → Option (Text × Text) → Option (List (Text × Text))
add_line fields line none = extend_last fields line
add_line fields line (some (key, val)) =
    if is_key key then some (fields ++ (key, val) ∷ []) else extend_last fields line

-- the first loop of `ReadVerdict`
unfoldable pub read_lines : List (Text × Text) → List Text → Result Text (List (Text × Text))
unfolding trim_cr pair_of add_line
read_lines fields [] = ok fields
read_lines fields (raw ∷ lines) =
    let line = trim_cr raw in
    if line == []
    then read_lines fields lines
    else need (add_line fields line (pair_of line)) line >>= λ more. read_lines more lines
