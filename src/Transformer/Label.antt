-- ===== src/Transformer/Label.antt =====
-- pkg/transformer/label.go: the labels of the nodes by their types.
pub mod Bounds
use remindb.Prelude.{
  ℕ, zero, suc, ◌+◌, ◌-◌, ◌*◌, ◌/◌, ◌%◌, ◌≤◌, ◌<◌, min, max, ◌≡◌, refl, sym, ap, ◌∙◌, subst, ◌≢◌,
  ◌↔◌, ◌⊎◌, inl, inr, Bool, true, false, not, ◌&&◌, ◌||◌, Option, none, some, List, [], ◌∷◌, ◌++◌,
  map, append_assoc, append-nil, arith, ltb, leb, ◌==◌, if◌then◌else◌, Bool-cases, Option-cases,
  Bytes, codes, ◌=s◌, str_dec, length, get_elem?, set, take, drop, replicate, All, All-append,
  All-map, length-append,
}
use mathlib.Core.List.{reverse}
use remindb.Prelude.Text.{
  has_prefix, trim_prefix, contains_text, cut, split, join, trim_space, itoa,
}
use remindb.Parser.Ast.{ContextNode}

abbrev pub max_label_len : ℕ
max_label_len = 80

abbrev pub ellipsis : Bytes
ellipsis = codes "..."

abbrev pub kv_label_keys : ℕ
kv_label_keys = 3

-- `utf8.RuneStart`, of the byte at an index below the length.
abbrev rune_start : Option ℕ → Bool
rune_start none = true
rune_start (some b) = ltb b 0x80 || leb 0xC0 b

-- The loop of `truncate`.
unfoldable pub back_to_rune : Bytes → ℕ → ℕ
back_to_rune s zero = zero
back_to_rune s (suc end) =
    let back = back_to_rune s end in if rune_start (get_elem? s (suc end)) then suc end else back

-- For a `max` of at least three, as the length of every label is.
unfoldable pub truncate : Bytes → ℕ → Bytes
unfolding back_to_rune
truncate s limit =
    if leb (length s) limit then s else take (back_to_rune s (limit - 3)) s ++ ellipsis

-- The loop of `extractTopKeys`, with the keys that it has.
unfoldable collect_keys : ℕ → List Bytes → List Bytes → List Bytes
unfolding cut
collect_keys limit keys [] = keys
collect_keys limit keys (l ∷ lines) =
    let next = collect_keys limit keys lines in
    elim l [
      | [] ↦ next
      | c ∷ cs ↦ elim (cut (c ∷ cs) (codes ":")) [
        | none ↦ next
        | some (key, value) ↦
            let more = keys ++ key ∷ [] in
            let rest = collect_keys limit more lines in
            if c == 32 || c == 9 || key =s []
            then next
            else if ltb 0 limit && leb limit (length more)
            then more
            else rest
      ]
    ]

unfoldable pub extract_top_keys : Bytes → ℕ → List Bytes
unfolding split collect_keys
extract_top_keys content limit = collect_keys limit [] (split 10 content)

-- The loop of `labelList`: the number of items and the text of the first that is not empty.
unfoldable pub list_items : List Bytes → ℕ → Bytes → ℕ × Bytes
unfolding trim_space has_prefix
list_items [] count first = (count, first)
list_items (l ∷ lines) count first =
    let trimmed = trim_space l in
    let item = has_prefix trimmed (codes "- ") in
    list_items lines (if item then count + 1 else count)
      (if item && first =s [] then trim_prefix trimmed (codes "- ") else first)

unfoldable pub list_label : Bytes → Bytes
unfolding list_items
list_label content =
    let (count, first) = list_items (split 10 content) 0 [] in
    if count == 0
    then truncate content max_label_len
    else truncate (itoa count ++ codes "-item list: " ++ first) max_label_len

-- The key in front of a TOON list.
unfoldable pub label_list : ContextNode → Bytes
unfolding list_label
label_list n =
    let plain = list_label n.content in
    if not (n.format =s codes "toon") then plain else elim (cut n.content (codes ":")) [
      | none ↦ plain
      | some (key, rest) ↦ truncate key max_label_len
    ]

unfoldable pub table_label : List Bytes → Bytes
table_label [] = codes "Table"
table_label (first ∷ rows) =
    truncate
      (codes "Table: "
        ++ join (codes ", ") (split 9 first)
        ++ codes " ("
        ++ itoa (length rows)
        ++ codes " rows)")
      max_label_len

unfoldable pub label_table : ContextNode → Bytes
unfolding table_label
label_table n = table_label (split 10 n.content)

abbrev is_lang : Bytes → Bool
is_lang first =
    ltb 0 (length first) && ltb (length first) max_label_len && not (contains_text first (32 ∷ []))

unfoldable pub code_label : List Bytes → Bytes
code_label [] = codes "Code"
code_label (line ∷ []) = truncate (codes "Code: " ++ trim_space line) max_label_len
code_label (line ∷ code_line ∷ more) =
    let first = trim_space line in
    if is_lang first
    then truncate (codes "Code (" ++ first ++ codes "): " ++ trim_space code_line) max_label_len
    else truncate (codes "Code: " ++ first) max_label_len

unfoldable pub label_code : ContextNode → Bytes
unfolding code_label
label_code n = code_label (split 10 n.content)

unfoldable pub kv_label : Bytes → List Bytes → Bytes
kv_label content [] = truncate content max_label_len
kv_label content (k ∷ keys) = truncate (join (codes ", ") (k ∷ keys)) max_label_len

unfoldable pub label_kv : ContextNode → Bytes
unfolding kv_label
label_kv n = kv_label n.content (extract_top_keys n.content kv_label_keys)

unfoldable pub label_preamble : ContextNode → Bytes
unfolding extract_top_keys join
label_preamble n = elim (extract_top_keys n.content 0) [
  | [] ↦ codes "Preamble"
  | k ∷ keys ↦ codes "Preamble: " ++ join (codes ", ") (k ∷ keys)
]

-- `firstSentence` walks runes, and stops at bytes that only runes of one byte have.
unfoldable pub sentence_end : Bytes → ℕ → Option ℕ
sentence_end [] i = none
sentence_end (c ∷ s) i =
    let later = sentence_end s (i + 1) in
    let last : Bool = elim s [ [] ↦ true | d ∷ r ↦ d == 32 || d == 10 ] in
    if (c == b'.' || c == b'!' || c == b'?') && last then some (i + 1) else later

unfoldable pub sentence_label : Bytes → Option ℕ → ℕ → Bytes
sentence_label s none limit = truncate s limit
sentence_label s (some end) limit = truncate (take end s) limit

unfoldable pub first_sentence : Bytes → ℕ → Bytes
unfolding sentence_label
first_sentence s limit = sentence_label s (sentence_end s 0) limit

-- `strings.ToUpper` of a first byte: one that is no rune becomes U+FFFD.
abbrev upper_byte : ℕ → Bytes
upper_byte c =
    if leb b'a' c && leb c b'z'
    then (c - 32) ∷ []
    else if ltb c 0x80
    then c ∷ []
    else 0xEF ∷ 0xBF ∷ 0xBD ∷ []

unfoldable pub embed_title : Bytes → Bytes
embed_title [] = codes "Embed"
embed_title (c ∷ kind) = upper_byte c ++ kind

unfoldable pub embed_alt_or_src : Bytes → Bytes
unfolding trim_prefix cut
embed_alt_or_src s = elim (cut (trim_prefix (trim_prefix s (codes "!")) (codes "[")) (codes "]")) [
  | none ↦ []
  | some (alt, tail) ↦ elim alt [
    | c ∷ cs ↦ c ∷ cs
    | [] ↦ elim (cut (trim_prefix tail (codes "(")) (codes ")")) [
      | none ↦ []
      | some (src, rest) ↦ src
    ]
  ]
]

unfoldable pub embed_label : Bytes → Bytes → Bytes
embed_label title [] = title
embed_label title (c ∷ text) = truncate (title ++ codes ": " ++ c ∷ text) max_label_len

unfoldable pub label_embed : ContextNode → Bytes
unfolding embed_label
label_embed n = embed_label (embed_title n.format) (embed_alt_or_src n.content)

-- The label that `setLabel` sets.
unfoldable pub label_of : ContextNode → Bytes
label_of n =
    if n.node_type =s codes "heading"
    then truncate n.content max_label_len
    else if n.node_type =s codes "list"
    then label_list n
    else if n.node_type =s codes "table"
    then label_table n
    else if n.node_type =s codes "code"
    then label_code n
    else if n.node_type =s codes "text"
    then first_sentence n.content max_label_len
    else if n.node_type =s codes "kv"
    then label_kv n
    else if n.node_type =s codes "preamble"
    then label_preamble n
    else if n.node_type =s codes "embed"
    then label_embed n
    else truncate n.content max_label_len

unfoldable pub set_label : ContextNode → ContextNode
unfolding label_of
set_label n = record n { label = label_of n }
