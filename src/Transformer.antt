-- ===== src/Transformer.antt =====
-- pkg/transformer/compress.go: the whitespace of a node's content.
pub mod Whitespace
pub mod Identity
pub mod Label
pub mod Prefix
pub mod Pipeline
mod Examples
use remindb.Prelude.{
  ℕ, zero, suc, ◌+◌, ◌-◌, ◌*◌, ◌/◌, ◌%◌, ◌≤◌, ◌<◌, min, max, ◌≡◌, refl, sym, ap, ◌∙◌, subst, ◌≢◌,
  ◌↔◌, ◌⊎◌, inl, inr, Bool, true, false, not, ◌&&◌, ◌||◌, Option, none, some, List, [], ◌∷◌, ◌++◌,
  map, append_assoc, append-nil, arith, ltb, leb, ◌==◌, if◌then◌else◌, Bool-cases, Option-cases,
  Bytes, codes, ◌=s◌, str_dec, length, get_elem?, set, take, drop, replicate, All, All-append,
  All-map, length-append,
}
use remindb.Prelude.Text.{has_prefix, contains_text, replace_from, replace_all}

abbrev pub newline : ℕ
newline = 10

abbrev pub carriage_return : ℕ
carriage_return = 13

-- `strings.Split` at newlines.
unfoldable split_lines : Bytes → List Bytes
split_lines [] = [] ∷ []
split_lines (x ∷ s) =
    let rest = split_lines s in
    if x == newline then [] ∷ rest else elim rest [ [] ↦ (x ∷ []) ∷ [] | l ∷ ls ↦ (x ∷ l) ∷ ls ]

-- `strings.TrimRight` of blanks and tabs.
unfoldable trim_right : Bytes → Bytes
trim_right [] = []
trim_right (x ∷ s) = elim (trim_right s) [
  | [] ↦ if x == 32 || x == 9 then [] else x ∷ []
  | y ∷ l ↦ x ∷ y ∷ l
]

-- `strings.Join` with newlines.
unfoldable join_lines : List Bytes → Bytes
join_lines [] = []
join_lines (l ∷ []) = l
join_lines (l ∷ k ∷ ls) = l ++ newline ∷ join_lines (k ∷ ls)

unfoldable pub trim_trailing_per_line : Bytes → Bytes
unfolding split_lines trim_right join_lines
trim_trailing_per_line s = join_lines (map trim_right (split_lines s))

abbrev pub three : Bytes
three = newline ∷ newline ∷ newline ∷ []

abbrev pub two : Bytes
two = newline ∷ newline ∷ []

-- The loop of `collapseBlankLines`; each round makes the text shorter, so that its length is fuel
-- enough.
unfoldable pub collapse_loop : ℕ → Bytes → Bytes
unfolding contains_text replace_from
collapse_loop zero s = s
collapse_loop (suc fuel) s =
    let more = collapse_loop fuel (replace_all three two s) in
    if contains_text s three then more else s

unfoldable pub collapse_blank_lines : Bytes → Bytes
unfolding collapse_loop
collapse_blank_lines s = collapse_loop (length s) s

-- The two loops of `trimEmptyEdges`.
unfoldable pub trim_front : Bytes → Bytes
trim_front [] = []
trim_front (x ∷ s) = let rest = trim_front s in if x == newline then rest else x ∷ s

unfoldable pub trim_back : Bytes → Bytes
trim_back [] = []
trim_back (x ∷ s) = elim (trim_back s) [
  | [] ↦ if x == newline then [] else x ∷ []
  | y ∷ l ↦ x ∷ y ∷ l
]

unfoldable pub trim_empty_edges : Bytes → Bytes
unfolding trim_front trim_back
trim_empty_edges s = trim_back (trim_front s)

-- `compress` on the content of a node.
unfoldable pub compress : Bytes → Bytes
unfolding trim_trailing_per_line collapse_blank_lines trim_empty_edges
compress s =
    let unix = replace_all (carriage_return ∷ newline ∷ []) (newline ∷ []) s in
    let plain = replace_all (carriage_return ∷ []) (newline ∷ []) unix in
    trim_empty_edges (collapse_blank_lines (trim_trailing_per_line plain))
