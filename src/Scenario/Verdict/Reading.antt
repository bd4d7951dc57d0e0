-- ===== src/Scenario/Verdict/Reading.antt =====
-- The lines that `Write` prints are the fields that `ReadVerdict` collects.
use docker_net_dhcp_lab.Scenario.Verdict.Folding.{clean}
use docker_net_dhcp_lab.Prelude.{
  text_eq, Text, ◌++◌, ◌≡◌, ◌∷◌, List, true, ◌==◌, arith, some, All, all, [], ok, false, refl,
  eq_text, eq_pair, ap, append_assoc, sym, append_nil, ◌∙◌,
}
use docker_net_dhcp_lab.Scenario.Verdict.Lines.{
  pair_of, line_of, trim_cr, read_lines, cut_colon, split_lines, is_key, print, is_key_char,
  is_letter, add_line,
}

split_lines-line :
    (t rest : Text) → clean t ≡ true → split_lines (t ++ 10 ∷ rest) ≡ t ∷ split_lines rest
unfolding split_lines clean
split_lines-line [] rest h = refl
split_lines-line (c ∷ t) rest h = ground (arith, h, split_lines-line t rest)

trim_cr-clean : (t : Text) → clean t ≡ true → trim_cr t ≡ t
unfolding trim_cr clean
trim_cr-clean [] h = refl
trim_cr-clean (c ∷ t) h = ground (arith, h, trim_cr-clean t)

clean-append : (s t : Text) → clean s ≡ true → clean t ≡ true → clean (s ++ t) ≡ true
unfolding clean
clean-append [] t h k = k
clean-append (c ∷ s) t h k = ground (arith, h, k, clean-append s t)

clean-key : (k : Text) → all is_key_char k ≡ true → clean k ≡ true
unfolding clean is_key_char is_letter
clean-key [] h = refl
clean-key (c ∷ k) h = ground (arith, h, clean-key k)

cut_colon-key :
    (k v : Text) → all is_key_char k ≡ true → cut_colon (k ++ (b':' ∷ b' ' ∷ v)) ≡ some (k, v)
unfolding cut_colon is_key_char is_letter
cut_colon-key [] v h = refl
cut_colon-key (c ∷ []) v h = ground (arith, h)
cut_colon-key (c ∷ d ∷ k) v h = ground (arith, h, cut_colon-key (d ∷ k) v)

key_chars : (k : Text) → is_key k ≡ true → all is_key_char k ≡ true
unfolding is_key is_key_char
key_chars [] h = absurd (ground (arith, h))
key_chars (c ∷ k) h = ground (arith, h)

-- a key of the format, and a value of one line
abbrev pub Field : Text × Text → Type 0
Field (k, v) = (is_key k ≡ true) × (clean v ≡ true)

pair_of-line : (k v : Text) → is_key k ≡ true → pair_of (k ++ (b':' ∷ b' ' ∷ v)) ≡ some (k, v)
unfolding pair_of
pair_of-line k v h = ground (arith, cut_colon-key k v (key_chars k h))

not_empty : (k v : Text) → ((k ++ (b':' ∷ v)) == []) ≡ false
unfolding text_eq
not_empty [] v = refl
not_empty (c ∷ k) v = refl

line_split : (k v rest : Text) → line_of (k, v) ++ rest ≡ (k ++ (b':' ∷ b' ' ∷ v)) ++ 10 ∷ rest
unfolding line_of
line_split k v rest = simp (append_assoc)

clean-line : (k v : Text) → is_key k ≡ true → clean v ≡ true → clean (k ++ (b':' ∷ b' ' ∷ v)) ≡ true
unfolding clean
clean-line k v key plain = clean-append k (b':' ∷ b' ' ∷ v) (clean-key k (key_chars k key)) plain

-- one printed line, read
read_lines-line :
    (acc : List (Text × Text)) (k v rest : Text)
    → is_key k ≡ true
    → clean v ≡ true
    → read_lines acc (split_lines (line_of (k, v) ++ rest))
      ≡ read_lines (acc ++ (k, v) ∷ []) (split_lines rest)
unfolding read_lines add_line
read_lines-line acc k v rest key plain =
    let line = k ++ (b':' ∷ b' ' ∷ v) in
    let good = clean-line k v key plain in
    rw (line_split k v rest, split_lines-line line rest good, trim_cr-clean line good)
      (ground (arith, not_empty k (b' ' ∷ v), pair_of-line k v key, key))

-- Reading the printed fields gives them back, after those that were read before.
pub read_lines-print :
    (acc fields : List (Text × Text))
    → All Field fields
    → read_lines acc (split_lines (print fields)) ≡ ok (acc ++ fields)
unfolding read_lines print split_lines text_eq
read_lines-print acc [] h = ap ok (sym (append_nil acc))
read_lines-print acc ((k, v) ∷ fields) ((key, plain), h) =
    read_lines-line acc k v (print fields) key plain
    ∙ read_lines-print (acc ++ (k, v) ∷ []) fields h
    ∙ ap ok (append_assoc acc ((k, v) ∷ []) fields)
