-- ===== src/Parser/Preamble.antt =====
-- pkg/parser/preamble.go: the front matter of a markdown file.
pub mod Cuts
pub mod Parts
pub mod RoundTrip
use remindb.Prelude.{
  ℕ, zero, suc, ◌+◌, ◌-◌, ◌*◌, ◌/◌, ◌%◌, ◌≤◌, ◌<◌, min, max, ◌≡◌, refl, sym, ap, ◌∙◌, subst, ◌≢◌,
  ◌↔◌, ◌⊎◌, inl, inr, Bool, true, false, not, ◌&&◌, ◌||◌, Option, none, some, List, [], ◌∷◌, ◌++◌,
  map, append_assoc, append-nil, arith, ltb, leb, ◌==◌, if◌then◌else◌, Bool-cases, Option-cases,
  Bytes, codes, ◌=s◌, str_dec, length, get_elem?, set, take, drop, replicate, All, All-append,
  All-map, length-append,
}
use remindb.Prelude.Text.{has_prefix, cut, trim_space}
use remindb.Prelude.Result.{Result, ok, err, ◌>>=◌}
use remindb.Parser.Ast.{ContextNode, Tree, node, nil}

pub data PreambleKind : Type 0 where
  preamble_none : PreambleKind
  preamble_yaml : PreambleKind
  preamble_toml : PreambleKind

abbrev pub lf : Bytes
lf = 10 ∷ []

abbrev pub crlf : Bytes
crlf = 13 ∷ 10 ∷ []

abbrev pub yaml_delim : Bytes
yaml_delim = codes "---"

abbrev pub toml_delim : Bytes
toml_delim = codes "+++"

unfoldable pub has_delim_line : Bytes → Bytes → Bool
unfolding has_prefix
has_delim_line text delim = has_prefix text (delim ++ lf) || has_prefix text (delim ++ crlf)

unfoldable pub trim_leading_newline : Bytes → Bytes
unfolding has_prefix
trim_leading_newline b =
    if has_prefix b crlf then drop 2 b else if has_prefix b lf then drop 1 b else b

abbrev pub Split : Type 0
Split = Bytes × Bytes × PreambleKind

-- The cases of `splitAtDelim` on what stands behind the closing delimiter.
unfoldable pub close_preamble : Bytes → Bytes → Bytes → PreambleKind → Split
unfolding has_prefix
close_preamble text front [] kind = (front, [], kind)
close_preamble text front (c ∷ rest) kind =
    if has_prefix (c ∷ rest) crlf
    then (front, drop 2 (c ∷ rest), kind)
    else if has_prefix (c ∷ rest) lf
    then (front, rest, kind)
    else ([], text, preamble_none)

unfoldable pub split_found : Bytes → PreambleKind → Option (Bytes × Bytes) → Split
unfolding close_preamble
split_found text kind none = ([], text, preamble_none)
split_found text kind (some (front, rest)) = close_preamble text front rest kind

unfoldable pub split_at_delim : Bytes → Bytes → PreambleKind → Split
unfolding trim_leading_newline split_found
split_at_delim text delim kind =
    split_found text kind (cut (trim_leading_newline (drop (length delim) text)) (lf ++ delim))

unfoldable pub split_preamble : Bytes → Split
split_preamble text =
    if has_delim_line text yaml_delim
    then split_at_delim text yaml_delim preamble_yaml
    else if has_delim_line text toml_delim
    then split_at_delim text toml_delim preamble_toml
    else ([], text, preamble_none)

abbrev toml_node : Bytes → Bytes → Tree
toml_node path content =
    node
      (record {
        wikilink_refs = [];
        id = [];
        parent_id = [];
        source_file = path;
        label = [];
        content = content;
        content_hash = [];
        format = codes "plain";
        temperature = none;
        depth = 1;
        token_count = 0;
        seed_pinned = false;
        node_type = codes "preamble";
      })
      nil

abbrev as_preamble : Tree → Tree
as_preamble (node n kids) = node (record n { node_type = codes "preamble" }) kids

-- `preambleNode`, over the parser of YAML, which returns at most one root.
unfoldable preamble_node :
    (Bytes → Bytes → Result Bytes (Option Tree))
    → Bytes
    → Bytes
    → PreambleKind
    → Result Bytes (Option Tree)
unfolding trim_space
preamble_node parse_yaml path front preamble_none = ok none
preamble_node parse_yaml path front preamble_yaml =
    parse_yaml path front >>= λ root. ok (elim root [ none ↦ none | some t ↦ some (as_preamble t) ])
preamble_node parse_yaml path front preamble_toml = ok (some (toml_node path (trim_space front)))
