-- ===== src/Transformer/Whitespace.antt =====
-- What the compression of pkg/transformer leaves of blank lines.
use remindb.Prelude.{
  ℕ, zero, suc, ◌+◌, ◌≤◌, ◌<◌, ◌≡◌, refl, sym, ap, ◌∙◌, ◌≢◌, inl, inr, true, false, Option, none,
  some, [], ◌∷◌, ◌++◌, arith, ◌==◌, Bool-cases, Bytes, length,
}
use remindb.Transformer.{
  newline, three, two, collapse_loop, collapse_blank_lines, trim_front, trim_back, trim_empty_edges,
  trim_trailing_per_line, compress, carriage_return,
}
use remindb.Prelude.Text.{has_prefix, contains_text, replace_from, replace_all}

has_prefix-three : (s : Bytes) → has_prefix s three ≡ true → 3 ≤ length s
unfolding has_prefix
has_prefix-three [] h = absurd (ground (arith, h))
has_prefix-three (a ∷ []) h = absurd (ground (arith, h))
has_prefix-three (a ∷ b ∷ []) h = absurd (ground (arith, h))
has_prefix-three (a ∷ b ∷ c ∷ s) h = omega arith

length-replace :
    (k : ℕ) (s : Bytes) → k ≤ length s → length (replace_from three two k s) + k ≤ length s
unfolding replace_from
length-replace zero [] h = omega arith
length-replace (suc k) [] h = omega (arith, h)
length-replace (suc k) (x ∷ s) h = omega (arith, length-replace k s (omega (arith, h)))
length-replace zero (x ∷ s) h = elim (Bool-cases (has_prefix (x ∷ s) three)) [
  | inl e ↦ ground (arith, e, has_prefix-three (x ∷ s) e, length-replace 2 s)
  | inr e ↦ ground (arith, e, length-replace 0 s (omega arith))
]

shorter :
    (s : Bytes) → contains_text s three ≡ true → length (replace_from three two 0 s) < length s
unfolding replace_from contains_text
shorter [] h = absurd (ground (arith, h))
shorter (x ∷ s) h = elim (Bool-cases (has_prefix (x ∷ s) three)) [
  | inl e ↦ ground (arith, e, has_prefix-three (x ∷ s) e, length-replace 2 s)
  | inr e ↦ ground (arith, e, h, shorter s)
]

collapse_loop-none :
    (fuel : ℕ) (s : Bytes) → length s ≤ fuel → contains_text (collapse_loop fuel s) three ≡ false
unfolding collapse_loop
collapse_loop-none zero [] h = unfold contains_text in refl
collapse_loop-none zero (x ∷ s) h = absurd (omega (arith, h))
collapse_loop-none (suc fuel) s h = elim (Bool-cases (contains_text s three)) [
  | inl e ↦ ground (arith, e, shorter s e, collapse_loop-none fuel (replace_from three two 0 s))
  | inr e ↦ ground (arith, e)
]

front-none :
    (s : Bytes) → contains_text s three ≡ false → contains_text (trim_front s) three ≡ false
unfolding trim_front contains_text
front-none [] h = h
front-none (x ∷ s) h = ground (arith, h, front-none s)

trim_back-prefix : (s : Bytes) → (rest : Bytes) × (trim_back s ++ rest ≡ s)
unfolding trim_back
trim_back-prefix [] = ([], refl)
trim_back-prefix (x ∷ s) = go (trim_back s) refl (trim_back-prefix s)
  where
    go :
        (t : Bytes)
        → trim_back s ≡ t
        → (rest : Bytes) × (trim_back s ++ rest ≡ s)
        → (rest : Bytes) × (trim_back (x ∷ s) ++ rest ≡ x ∷ s)
    go [] e (rest, p) = elim (Bool-cases (x == newline)) [
      | inl nl ↦ (x ∷ s, ground (arith, e, nl))
      | inr other ↦ (s, ground (arith, e, other))
    ]
    go (y ∷ l) e (rest, p) = (rest, ground (arith, e, p))

has_prefix-append : (a b p : Bytes) → has_prefix a p ≡ true → has_prefix (a ++ b) p ≡ true
unfolding has_prefix
has_prefix-append a b [] h = go (a ++ b)
  where
    go : (s : Bytes) → has_prefix s [] ≡ true
    go [] = refl
    go (x ∷ s) = refl
has_prefix-append [] b (y ∷ p) h = absurd (ground (arith, h))
has_prefix-append (x ∷ a) b (y ∷ p) h = ground (arith, h, has_prefix-append a b p)

contains-append : (a b p : Bytes) → contains_text a p ≡ true → contains_text (a ++ b) p ≡ true
unfolding contains_text
contains-append [] b p h = absurd (ground (arith, h))
contains-append (x ∷ a) b p h = elim (Bool-cases (has_prefix (x ∷ a) p)) [
  | inl e ↦ ground (arith, has_prefix-append (x ∷ a) b p e)
  | inr e ↦ ground (arith, e, h, contains-append a b p)
]

back-none : (s : Bytes) → contains_text s three ≡ false → contains_text (trim_back s) three ≡ false
back-none s h = elim (Bool-cases (contains_text (trim_back s) three)) [
  | inr none_left ↦ none_left
  | inl found ↦
      let (rest, p) = trim_back-prefix s in
      let longer = contains-append (trim_back s) rest three found in
      let whole : contains_text s three ≡ true = sym (ap (λ t. contains_text t three) p) ∙ longer in
      absurd (ground (arith, whole, h))
]

-- The first and the last byte.
abbrev pub first_byte : Bytes → Option ℕ
first_byte [] = none
first_byte (x ∷ s) = some x

abbrev pub last_byte : Bytes → Option ℕ
last_byte [] = none
last_byte (x ∷ []) = some x
last_byte (x ∷ y ∷ s) = last_byte (y ∷ s)

front-first : (s : Bytes) → first_byte (trim_front s) ≢ some newline
unfolding trim_front
front-first [] e = ground (arith, e)
front-first (x ∷ s) e = ground (arith, e, front-first s)

back-first : (s : Bytes) → first_byte s ≢ some newline → first_byte (trim_back s) ≢ some newline
back-first s h e = go (trim_back s) (trim_back-prefix s).0 (trim_back-prefix s).1 e
  where
    go : (t rest : Bytes) → t ++ rest ≡ s → first_byte t ≡ some newline → ⊥
    go [] rest p f = ground (arith, f)
    go (x ∷ t) rest p f = h (ap first_byte (sym p) ∙ f)

back-last : (s : Bytes) → last_byte (trim_back s) ≢ some newline
unfolding trim_back
back-last [] = λ e. ground (arith, e)
back-last (x ∷ s) = go (trim_back s) refl (back-last s)
  where
    go :
        (t : Bytes)
        → trim_back s ≡ t
        → last_byte (trim_back s) ≢ some newline
        → last_byte (trim_back (x ∷ s)) ≢ some newline
    go [] e h f = ground (arith, e, f)
    go (y ∷ l) e h f = ground (arith, e, h, f)

-- The compression of a content leaves no two blank lines in a row, and no newline at its start or its
-- end.
pub compress_lines :
    (s : Bytes)
    → (contains_text (compress s) three ≡ false)
      × (first_byte (compress s) ≢ some newline)
      × (last_byte (compress s) ≢ some newline)
unfolding compress trim_empty_edges collapse_blank_lines
compress_lines s =
    let unix = replace_all (carriage_return ∷ newline ∷ []) (newline ∷ []) s in
    let plain = replace_all (carriage_return ∷ []) (newline ∷ []) unix in
    let lines = trim_trailing_per_line plain in
    let dense = collapse_loop (length lines) lines in
    (
      back-none (trim_front dense)
          (front-none dense (collapse_loop-none (length lines) lines (omega arith))),
      back-first (trim_front dense) (front-first dense),
      back-last (trim_front dense),
    )
