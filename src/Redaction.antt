-- ===== src/Redaction.antt =====
-- internal/redaction: redact.go, patterns.go and config.go. A regular expression is what
-- `FindAllStringIndex` finds with it, the start and the end of each match.
pub mod Sorted
pub mod Merge
pub mod Found
pub mod Secrecy
mod Examples
use remindb.Prelude.{
  ℕ, zero, suc, ◌+◌, ◌-◌, ◌*◌, ◌/◌, ◌%◌, ◌≤◌, ◌<◌, min, max, ◌≡◌, refl, sym, ap, ◌∙◌, subst, ◌≢◌,
  ◌↔◌, ◌⊎◌, inl, inr, Bool, true, false, not, ◌&&◌, ◌||◌, Option, none, some, List, [], ◌∷◌, ◌++◌,
  map, append_assoc, append-nil, arith, ltb, leb, ◌==◌, if◌then◌else◌, Bool-cases, Option-cases,
  Bytes, codes, ◌=s◌, str_dec, length, get_elem?, set, take, drop, replicate, All, All-append,
  All-map, All-append_left, All-append_right, All-zip, All-pure, length-append, length-take,
}
use remindb.Prelude.Assoc.{lookup, insert}
use remindb.Prelude.Result.{Result, ok, err, ◌>>=◌}
use remindb.Prelude.Sorting.{sort}
use remindb.Store.Rows.{get_or}

abbrev Pattern : Type 0
Pattern = Bytes → List (ℕ × ℕ)

pub record KindPattern : Type 0 where
  pub kind : Bytes
  pub re : Pattern

pub record CustomPattern : Type 0 where
  pub kind : Bytes
  pub pattern : Bytes

pub record Config : Type 0 where
  pub builtin_kinds : List Bytes
  pub custom : List CustomPattern

pub data ConfigError : Type 0 where
  unknown_kind : Bytes → ConfigError
  empty_kind : ConfigError
  bad_pattern : Bytes → ConfigError

pub record Hit : Type 0 where
  pub kind : Bytes
  pub start : ℕ
  pub end : ℕ

-- `New`, over the table of built-in patterns and `regexp.Compile`.
module _ (builtin : Bytes → Option Pattern) (compile : Bytes → Option Pattern) where
  unfoldable builtin_patterns : List Bytes → Result ConfigError (List KindPattern)
  builtin_patterns [] = ok []
  builtin_patterns (kind ∷ kinds) = elim (builtin kind) [
    | none ↦ err (unknown_kind kind)
    | some re ↦ builtin_patterns kinds >>= λ pats. ok (record { kind = kind; re = re } ∷ pats)
  ]

  unfoldable custom_patterns : List CustomPattern → Result ConfigError (List KindPattern)
  custom_patterns [] = ok []
  custom_patterns (cp ∷ cps) =
      let rest = custom_patterns cps in
      if cp.kind =s [] then err empty_kind else elim (compile cp.pattern) [
        | none ↦ err (bad_pattern cp.kind)
        | some re ↦ rest >>= λ pats. ok (record { kind = cp.kind; re = re } ∷ pats)
      ]

  unfoldable new_redactor : Config → Result ConfigError (List KindPattern)
  unfolding builtin_patterns custom_patterns
  new_redactor cfg = do
    built ← builtin_patterns cfg.builtin_kinds
    own ← custom_patterns cfg.custom
    ok (built ++ own)

abbrev pub hit_of : Bytes → ℕ × ℕ → Hit
hit_of kind (a, b) = record { kind = kind; start = a; end = b }

unfoldable pub find_hits : List KindPattern → Bytes → List Hit
find_hits [] s = []
find_hits (kp ∷ patterns) s = map (hit_of kp.kind) (kp.re s) ++ find_hits patterns s

-- Earliest first, the longest first on a tie.
abbrev pub hit_leb : Hit → Hit → Bool
hit_leb a b = if a.start == b.start then leb b.end a.end else leb a.start b.start

-- The loop that merges overlapping spans; `last` is the last one that it accepted.
unfoldable pub accept : Hit → List Hit → List Hit
accept last [] = last ∷ []
accept last (h ∷ hits) =
    let merged = accept (record last { end = max last.end h.end }) hits in
    let next = last ∷ accept h hits in if ltb h.start last.end then merged else next

unfoldable pub merge_hits : List Hit → List Hit
unfolding accept
merge_hits [] = []
merge_hits (h ∷ hits) = accept h hits

-- `s[a:b]`, a panic out of bounds.
unfoldable pub slice : Bytes → ℕ → ℕ → Option Bytes
slice s a b = if leb a b && leb b (length s) then some (take (b - a) (drop a s)) else none

-- "«redacted:" and "»" in UTF-8.
abbrev pub redacted_open : Bytes
redacted_open = 0xC2 ∷ 0xAB ∷ codes "redacted:"

abbrev pub redacted_close : Bytes
redacted_close = 0xC2 ∷ 0xBB ∷ []

abbrev pub marker : Bytes → Bytes
marker kind = redacted_open ++ kind ++ redacted_close

unfoldable pub render : Bytes → ℕ → List Hit → Option Bytes
unfolding slice
render s cursor [] = slice s cursor (length s)
render s cursor (h ∷ accepted) = elim (slice s cursor h.start) [
  | none ↦ none
  | some gap ↦ elim (render s h.end accepted) [
    | none ↦ none
    | some rest ↦ some (gap ++ marker h.kind ++ rest)
  ]
]

-- `slices.SortFunc` by `hit_leb`: hits of one span and two kinds may come in either order.
module _ (sort_hits : List Hit → List Hit) where
  unfoldable pub scrub_hits : Bytes → List Hit → Option (Bytes × List Hit)
  unfolding merge_hits render
  scrub_hits s [] = some (s, [])
  scrub_hits s (h ∷ hits) =
      let accepted = merge_hits (sort_hits (h ∷ hits)) in
      elim (render s 0 accepted) [ none ↦ none | some out ↦ some (out, accepted) ]

  -- `Scrub`: the text and the spans. A nil receiver is the empty list of patterns.
  unfoldable pub scrub : List KindPattern → Bytes → Option (Bytes × List Hit)
  unfolding find_hits scrub_hits
  scrub patterns s = if s =s [] then some (s, []) else scrub_hits s (find_hits patterns s)

unfoldable kind_counts : List Hit → List (Bytes × ℕ) → List (Bytes × ℕ)
kind_counts [] counts = counts
kind_counts (h ∷ hits) counts =
    kind_counts hits (insert h.kind (get_or (lookup h.kind counts) 0 + 1) counts)
