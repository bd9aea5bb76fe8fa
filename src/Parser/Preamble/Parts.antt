-- ===== src/Parser/Preamble/Parts.antt =====
-- Front matter and body are the two parts of a file.
use remindb.Prelude.{
  ◌≡◌, refl, sym, ap, ◌∙◌, subst, ◌≢◌, ◌⊎◌, inl, inr, true, false, Option, none, some, [], ◌∷◌,
  ◌++◌, append_assoc, arith, Bool-cases, Bytes, length, drop,
}
use remindb.Prelude.Text.{has_prefix, cut}
use remindb.Parser.Preamble.{
  PreambleKind, preamble_none, preamble_yaml, preamble_toml, lf, crlf, yaml_delim, toml_delim,
  has_delim_line, trim_leading_newline, Split, close_preamble, split_found, split_at_delim,
  split_preamble,
}
use remindb.Parser.Preamble.Cuts.{delim_of, cut-eq}
use remindb.Prelude.Text.{has_prefix-eq}
use remindb.Logbuf.Slots.{drop-append}

abbrev pub Newline : Bytes → Type 0
Newline s = (s ≡ lf) ⊎ (s ≡ crlf)

-- The line break behind the closing delimiter may be missing where the file ends.
abbrev Closes : Bytes → Bytes → Type 0
Closes close body = Newline close ⊎ ((close ≡ []) × (body ≡ []))

-- A file with front matter, written out.
abbrev pub with_preamble : PreambleKind → Bytes → Bytes → Bytes → Bytes → Bytes
with_preamble kind opens front close body =
    delim_of kind ++ (opens ++ (front ++ 10 ∷ (delim_of kind ++ (close ++ body))))

abbrev pub Parts : Bytes → Split → Type 0
Parts text (front, body, preamble_none) = (front ≡ []) × (body ≡ text)
Parts text (front, body, kind) =
    (opens close : Bytes) × Newline opens
    × Closes close body
    × (text ≡ with_preamble kind opens front close body)

-- Either there is no front matter, or the file is framed by a delimiter.
abbrev Framed : Bytes → Bytes → PreambleKind → Split → Type 0
Framed text delim kind s =
    (s ≡ ([], text, preamble_none))
    ⊎ ((opens front close body : Bytes) × (s ≡ (front, body, kind))
        × Newline opens
        × Closes close body
        × (text ≡ delim ++ (opens ++ (front ++ 10 ∷ (delim ++ (close ++ body))))))

close_preamble-Framed :
    (text delim opens front rest : Bytes) (kind : PreambleKind)
    → Newline opens
    → text ≡ delim ++ (opens ++ (front ++ 10 ∷ (delim ++ rest)))
    → Framed text delim kind (close_preamble text front rest kind)
unfolding close_preamble
close_preamble-Framed text delim opens front [] kind n e =
    inr (opens, front, [], [], refl, n, inr (refl, refl), e)
close_preamble-Framed text delim opens front (c ∷ rest) kind n e =
    elim (Bool-cases (has_prefix (c ∷ rest) crlf)) [
      | inl cr ↦ inr (
        opens,
        front,
        crlf,
        drop 2 (c ∷ rest),
        rw cr,
        n,
        inl (inr refl),
        e
            ∙ ap (λ r. delim ++ (opens ++ (front ++ 10 ∷ (delim ++ r))))
                (has_prefix-eq (c ∷ rest) crlf cr),
      )
      | inr no_cr ↦ elim (Bool-cases (has_prefix (c ∷ rest) lf)) [
        | inl found ↦ inr (
          opens,
          front,
          lf,
          rest,
          rw no_cr (rw found),
          n,
          inl (inl refl),
          e
              ∙ ap (λ r. delim ++ (opens ++ (front ++ 10 ∷ (delim ++ r))))
                  (has_prefix-eq (c ∷ rest) lf found),
        )
        | inr no_lf ↦ inl (rw no_cr (rw no_lf))
      ]
    ]

split_found-Framed :
    (text delim opens after : Bytes) (kind : PreambleKind) (found : Option (Bytes × Bytes))
    → cut after (10 ∷ delim) ≡ found
    → Newline opens
    → text ≡ delim ++ (opens ++ after)
    → Framed text delim kind (split_found text kind found)
unfolding split_found
split_found-Framed text delim opens after kind none f n e = inl refl
split_found-Framed text delim opens after kind (some (front, rest)) f n e =
    close_preamble-Framed text delim opens front rest kind n
      (e ∙ ap (λ r. delim ++ (opens ++ r)) (cut-eq after (10 ∷ delim) f))

trim-Newline : (opens r : Bytes) → Newline opens → trim_leading_newline (opens ++ r) ≡ r
unfolding trim_leading_newline
trim-Newline opens r (inl e) = rw e
trim-Newline opens r (inr e) = rw e

-- What stands behind the opening line of a text.
abbrev after_open : Bytes → Bytes → Bytes
after_open text delim = trim_leading_newline (drop (length delim) text)

pub after_open-append :
    (delim opens r : Bytes) → Newline opens → after_open (delim ++ (opens ++ r)) delim ≡ r
after_open-append delim opens r n =
    ap trim_leading_newline (drop-append delim (opens ++ r)) ∙ trim-Newline opens r n

has_delim_line-eq :
    (text delim : Bytes)
    → has_delim_line text delim ≡ true
    → (opens : Bytes) × Newline opens × (text ≡ delim ++ (opens ++ after_open text delim))
unfolding has_delim_line
has_delim_line-eq text delim h =
    let framed : (opens : Bytes)
        → Newline opens
        → has_prefix text (delim ++ opens) ≡ true
        → text ≡ delim ++ (opens ++ after_open text delim) =
      λ opens n p.
        let r = drop (length (delim ++ opens)) text in
        let e : text ≡ delim ++ (opens ++ r) =
          has_prefix-eq text (delim ++ opens) p ∙ append_assoc delim opens r in
        e
        ∙ ap (λ s. delim ++ (opens ++ s))
            (sym (ap (λ s. after_open s delim) e ∙ after_open-append delim opens r n)) in
    elim (Bool-cases (has_prefix text (delim ++ lf))) [
      | inl found ↦ (lf, inl refl, framed lf (inl refl) found)
      | inr no_lf ↦ (crlf, inr refl, framed crlf (inr refl) (ground arith))
    ]

split_at_delim-Framed :
    (text delim : Bytes) (kind : PreambleKind)
    → has_delim_line text delim ≡ true
    → Framed text delim kind (split_at_delim text delim kind)
unfolding split_at_delim
split_at_delim-Framed text delim kind h =
    let (opens, n, e) = has_delim_line-eq text delim h in
    split_found-Framed text delim opens (after_open text delim) kind
      (cut (after_open text delim) (10 ∷ delim)) refl n e

Framed-Parts :
    (text : Bytes) (kind : PreambleKind) (s : Split)
    → kind ≢ preamble_none
    → Framed text (delim_of kind) kind s
    → Parts text s
Framed-Parts text preamble_none s ne f = absurd (ne refl)
Framed-Parts text kind s ne (inl e) = rw e (refl, refl)
Framed-Parts text preamble_yaml s ne (inr (opens, front, close, body, e, n, c, p)) =
    rw e (opens, close, n, c, p)
Framed-Parts text preamble_toml s ne (inr (opens, front, close, body, e, n, c, p)) =
    rw e (opens, close, n, c, p)

pub split_preamble-yaml :
    (text : Bytes)
    → has_delim_line text yaml_delim ≡ true
    → split_preamble text ≡ split_at_delim text yaml_delim preamble_yaml
unfolding split_preamble
split_preamble-yaml text yaml = rw yaml

pub split_preamble-toml :
    (text : Bytes)
    → has_delim_line text yaml_delim ≡ false
    → has_delim_line text toml_delim ≡ true
    → split_preamble text ≡ split_at_delim text toml_delim preamble_toml
unfolding split_preamble
split_preamble-toml text no_yaml toml = rw no_yaml (rw toml)

split_preamble-none :
    (text : Bytes)
    → has_delim_line text yaml_delim ≡ false
    → has_delim_line text toml_delim ≡ false
    → split_preamble text ≡ ([], text, preamble_none)
unfolding split_preamble
split_preamble-none text no_yaml no_toml = rw no_yaml (rw no_toml)

-- `splitPreamble` loses no byte of a file: without front matter the body is the whole file, and else
-- the file is its front matter between two delimiters of one kind, each on a line that ends in LF
-- or CRLF, or with the file, and behind them the body.
pub split_preamble-Parts : (text : Bytes) → Parts text (split_preamble text)
split_preamble-Parts text = elim (Bool-cases (has_delim_line text yaml_delim)) [
  | inl yaml ↦ subst (Parts text) (sym (split_preamble-yaml text yaml)) (
      Framed-Parts text preamble_yaml (split_at_delim text yaml_delim preamble_yaml) (cc)
        (split_at_delim-Framed text yaml_delim preamble_yaml yaml))
  | inr no_yaml ↦ elim (Bool-cases (has_delim_line text toml_delim)) [
    | inl toml ↦ subst (Parts text) (sym (split_preamble-toml text no_yaml toml)) (
        Framed-Parts text preamble_toml (split_at_delim text toml_delim preamble_toml) (cc)
          (split_at_delim-Framed text toml_delim preamble_toml toml))
    | inr no_toml ↦ subst (Parts text) (sym (split_preamble-none text no_yaml no_toml)) (refl, refl)
  ]
]
