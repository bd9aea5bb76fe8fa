-- ===== src/Parser/Preamble/Cuts.antt =====
-- The first separator in a text, and what stands around it.
use remindb.Prelude.{
  ◌≡◌, refl, ap, ◌≢◌, inl, inr, true, false, ◌&&◌, some, [], ◌∷◌, ◌++◌, arith, ◌==◌, Bool-cases,
  Option-cases, Bytes, length, drop, All,
}
use remindb.Prelude.Text.{has_prefix-eq, has_prefix, cut, contains_text}
use remindb.Parser.Preamble.{
  PreambleKind, preamble_none, preamble_yaml, preamble_toml, yaml_delim, toml_delim,
}

-- The delimiter of a kind.
abbrev pub delim_of : PreambleKind → Bytes
delim_of preamble_none = []
delim_of preamble_yaml = yaml_delim
delim_of preamble_toml = toml_delim

pub has_prefix-append : (p s : Bytes) → has_prefix (p ++ s) p ≡ true
unfolding has_prefix
has_prefix-append [] s = refl
has_prefix-append (x ∷ p) s = ground (arith, has_prefix-append p s)

drop-append : (p s : Bytes) → drop (length p) (p ++ s) ≡ s
drop-append [] s = refl
drop-append (x ∷ p) s = drop-append p s

abbrev pub OneLine : Bytes → Type 0
OneLine s = All (λ c. c ≢ 10) s

-- A text of one line does not reach over a newline.
has_prefix-newline :
    (f delim rest : Bytes) → OneLine delim → has_prefix (f ++ 10 ∷ rest) delim ≡ has_prefix f delim
unfolding has_prefix
has_prefix-newline [] [] rest plain = refl
has_prefix-newline [] (d ∷ delim) rest plain = ground arith
has_prefix-newline (x ∷ f) [] rest plain = refl
has_prefix-newline (x ∷ f) (d ∷ delim) rest plain =
    ap (λ b. x == d && b) (has_prefix-newline f delim rest plain.1)

pub cut-append :
    (front delim rest : Bytes)
    → OneLine delim
    → contains_text front (10 ∷ delim) ≡ false
    → cut (front ++ 10 ∷ (delim ++ rest)) (10 ∷ delim) ≡ some (front, rest)
unfolding cut contains_text has_prefix
cut-append [] delim rest plain free =
    ground (arith, has_prefix-append delim rest, drop-append delim rest)
cut-append (x ∷ front) delim rest plain free =
    ground (
      arith,
      cut-append front delim rest plain,
      has_prefix-newline front delim (delim ++ rest) plain,
    )

-- What `Cut` returns are the parts around the separator.
pub cut-eq : (s sep : Bytes) {a b : Bytes} → cut s sep ≡ some (a, b) → s ≡ a ++ (sep ++ b)
unfolding cut
cut-eq [] sep e = cc
cut-eq (x ∷ s) sep {a} {b} e = elim (Bool-cases (has_prefix (x ∷ s) sep)) [
  | inl found ↦ ground (arith, has_prefix-eq (x ∷ s) sep found)
  | inr later ↦ elim (Option-cases (cut s sep)) [
    | inl missing ↦ ground arith
    | inr ((a', b'), found) ↦ ground (arith, cut-eq s sep found)
  ]
]
