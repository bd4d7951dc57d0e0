-- ===== src/Scenario/Verdict/Evidence/Laws.antt =====
-- The lines of the evidence files, in terms of their labels.
use mathlib.Core.List.{Perm}
use mathlib.Core.List.Perm
use docker_net_dhcp_lab.Scenario.Verdict.Folding.{clean}
use docker_net_dhcp_lab.Scenario.Verdict.Lines.{is_key, is_key_char, is_letter}
use docker_net_dhcp_lab.Scenario.Verdict.Evidence.{
  by_label, evidence_fields, evidence_field, put, Files, evidence_prefix, text_le,
}
use docker_net_dhcp_lab.Prelude.{
  Text, List, all, All, ◌≡◌, true, ok, arith, ◌++◌, Option-cases, subst, inl, inr, eq_pair, [], ◌∷◌,
  Bool-cases, Result-cases, some, map, refl,
}

-- the evidence that is read: the label and the relative path of each line, the last line in front
abbrev pub read_onto : List (Text × Text) → List (Text × Text) → List (Text × Text)
read_onto seen [] = seen
read_onto seen (p ∷ ps) = read_onto (p ∷ seen) ps

-- each file with its label and its path relative to the directory
pub Relative : Files → Text → List (Text × Text) → List (Text × Text) → Type 0
Relative files dir [] [] = Unit
Relative files dir ((label, path) ∷ ps) ((l, rel) ∷ rels) =
    (l ≡ label) × (files.rel dir path ≡ some rel) × Relative files dir ps rels
Relative files dir _ _ = ⊥

-- the line of a label and a relative path
abbrev pub line_at : Text × Text → Text × Text
line_at (label, rel) = (evidence_prefix ++ label, rel)

-- a label that a key of the format can carry
abbrev pub KeyLabel : Text × Text → Type 0
KeyLabel (label, path) = all is_key_char label ≡ true

put-All :
    (p : Text × Text) (ps : List (Text × Text))
    → KeyLabel p
    → All KeyLabel ps
    → All KeyLabel (put p ps)
unfolding put
put-All p [] h hs = (h, tt)
put-All p (q ∷ ps) h (k, ks) = elim (Bool-cases (text_le p.0 q.0)) [
  | inl before ↦ rw before (h, (k, ks))
  | inr after ↦ rw after (k, put-All p ps h ks)
]

put-Perm : (p : Text × Text) (ps : List (Text × Text)) → Perm (p ∷ ps) (put p ps)
unfolding put
put-Perm p [] = Perm.refl _
put-Perm p (q ∷ ps) = elim (Bool-cases (text_le p.0 q.0)) [
  | inl before ↦ rw before (Perm.refl (p ∷ q ∷ ps))
  | inr after ↦ rw after (Perm.trans (Perm.swap q p ps) (Perm.cons q (put-Perm p ps)))
]

pub by_label-Perm : (ps : List (Text × Text)) → Perm ps (by_label ps)
unfolding by_label
by_label-Perm [] = Perm.refl []
by_label-Perm (p ∷ ps) = Perm.trans (Perm.cons p (by_label-Perm ps)) (put-Perm p (by_label ps))

pub by_label-All : (ps : List (Text × Text)) → All KeyLabel ps → All KeyLabel (by_label ps)
unfolding by_label
by_label-All [] h = tt
by_label-All (p ∷ ps) (h, hs) = put-All p (by_label ps) h (by_label-All ps hs)

-- a line of an evidence file, on one line
abbrev pub EvidenceLine : Text × Text → Type 0
EvidenceLine (key, val) =
    ((label : Text) × (key ≡ evidence_prefix ++ label)) × (is_key key ≡ true) × (clean val ≡ true)

key_of_label :
    (label : Text) → all is_key_char label ≡ true → is_key (evidence_prefix ++ label) ≡ true
unfolding is_key is_key_char is_letter
key_of_label label h = h

evidence_field-EvidenceLine :
    (files : Files) (dir : Text) (p f : Text × Text)
    → KeyLabel p
    → evidence_field files dir p ≡ ok f
    → EvidenceLine f
unfolding evidence_field
evidence_field-EvidenceLine files dir (label, path) (key, val) good h =
    elim (Option-cases (files.rel dir path)) [
      | inl lost ↦ absurd (ground (arith, h, lost))
      | inr (rel, found) ↦
          let is_key_text : key ≡ evidence_prefix ++ label = ground (arith, h, found) in
          let is_rel : val ≡ rel = ground (arith, h, found) in
          (
            (label, is_key_text),
            rw is_key_text (key_of_label label good),
            rw is_rel (ground (arith, h, found)),
          )
    ]

pub evidence_fields-All :
    (files : Files) (dir : Text) (ps fs : List (Text × Text))
    → All KeyLabel ps
    → evidence_fields files dir ps ≡ ok fs
    → All EvidenceLine fs
unfolding evidence_fields
evidence_fields-All files dir [] fs good h =
    let e : [] ≡ fs = ground (arith, h) in subst (All EvidenceLine) e tt
evidence_fields-All files dir (p ∷ ps) fs (good, goods) h =
    elim (Result-cases (evidence_field files dir p)) [
      | inl (e, bad) ↦ absurd (ground (arith, h, bad))
      | inr (f, first) ↦ elim (Result-cases (evidence_fields files dir ps)) [
        | inl (e, bad) ↦ absurd (ground (arith, h, first, bad))
        | inr (rest, others) ↦
            let e : f ∷ rest ≡ fs = ground (arith, h, first, others) in
            subst (All EvidenceLine) e (
              evidence_field-EvidenceLine files dir p f good first,
              evidence_fields-All files dir ps rest goods others,
            )
      ]
    ]

evidence_field-Relative :
    (files : Files) (dir : Text) (p f : Text × Text)
    → evidence_field files dir p ≡ ok f
    → (rel : Text) × (f ≡ line_at (p.0, rel)) × (files.rel dir p.1 ≡ some rel)
unfolding evidence_field
evidence_field-Relative files dir (label, path) f h = elim (Option-cases (files.rel dir path)) [
  | inl lost ↦ absurd (ground (arith, h, lost))
  | inr (rel, found) ↦ (rel, ground (arith, h, found), found)
]

pub evidence_fields-Relative :
    (files : Files) (dir : Text) (ps fs : List (Text × Text))
    → evidence_fields files dir ps ≡ ok fs
    → (rels : List (Text × Text)) × (fs ≡ map line_at rels) × Relative files dir ps rels
unfolding evidence_fields Relative
evidence_fields-Relative files dir [] fs h = ([], ground (arith, h), tt)
evidence_fields-Relative files dir (p ∷ ps) fs h =
    elim (Result-cases (evidence_field files dir p)) [
      | inl (e, bad) ↦ absurd (ground (arith, h, bad))
      | inr (f, first) ↦ elim (Result-cases (evidence_fields files dir ps)) [
        | inl (e, bad) ↦ absurd (ground (arith, h, first, bad))
        | inr (rest, others) ↦
            let (rel, line, found) = evidence_field-Relative files dir p f first in
            let (rels, lines, related) = evidence_fields-Relative files dir ps rest others in
            let e : fs ≡ f ∷ rest = ground (arith, h, first, others) in
            ((p.0, rel) ∷ rels, rw (e, line, lines) refl, (refl, found, related))
      ]
    ]
