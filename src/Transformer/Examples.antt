-- ===== src/Transformer/Examples.antt =====
-- pkg/transformer at small inputs.
use remindb.Prelude.{
  ℕ, ◌+◌, ◌*◌, ◌%◌, ◌<◌, ◌≡◌, refl, ◌≢◌, false, none, some, [], ◌∷◌, ◌++◌, arith, Bytes, codes,
  str_dec, ◌^◌,
}
use remindb.Redaction.{hit_leb}
use remindb.Prelude.Sorting.{sort}
use remindb.Transformer.Whitespace.{compress_lines, first_byte, last_byte}
use remindb.Transformer.{compress, three, newline}
use remindb.Prelude.Text.{contains_text, split, itoa, trim_prefix}
use remindb.Parser.Ast.{Trees, cons, nil, node, ContextNode, flatten}
use remindb.Transformer.Pipeline.{prepare, transform, Linked, transform-Distinct, each_node}
use remindb.Transformer.Label.{label_of, label_list, truncate}
use remindb.Transformer.Identity.Apart.{any_collides}
use remindb.Transformer.Identity.Distinct.{hashed_payloads}
use remindb.Diff.Patch.{Distinct}
use remindb.Transformer.Identity.Positions.{id_of}
use remindb.Prelude.Assoc.{lookup, insert}
use remindb.Contentid.{identify_node}

-- A line that ends in a blank, three blank lines, and newlines at both ends.
abbrev messy : Bytes
messy = 10 ∷ codes "a" ++ 32 ∷ 13 ∷ 10 ∷ 10 ∷ 10 ∷ 10 ∷ codes "b" ++ 10 ∷ []

compress_runs : compress messy ≡ codes "a" ++ 10 ∷ 10 ∷ codes "b"
unfolding compress
compress_runs = refl

compress_lines_example :
    (contains_text (compress messy) three ≡ false)
    × (first_byte (compress messy) ≢ some newline)
    × (last_byte (compress messy) ≢ some newline)
compress_lines_example = compress_lines messy

-- A page with one section below its title, and a second page.
abbrev plain_node : Bytes → Bytes → Bytes → ContextNode
plain_node file type content = record {
  wikilink_refs = [];
  id = [];
  parent_id = [];
  source_file = file;
  label = [];
  content = content;
  content_hash = [];
  format = codes "plain";
  temperature = none;
  depth = 1;
  token_count = 0;
  seed_pinned = false;
  node_type = type;
}

abbrev pages : Trees
pages =
    cons
      (node (plain_node (codes "/w/a.md") (codes "heading") (codes "Title "))
        (cons (node (plain_node (codes "/w/a.md") (codes "text") (codes "One. Two.")) nil) nil))
      (cons (node (plain_node (codes "/w/b.md") (codes "kv") (codes "k: v")) nil) nil)

-- A hash of bytes for the tests.
unfoldable byte_hash : Bytes → ℕ
byte_hash [] = 7
byte_hash (c ∷ s) = (c * 1000003 + byte_hash s * 31) % 2 ^ 64

byte_hash-lt : (s : Bytes) → byte_hash s < 2 ^ 64
unfolding byte_hash
byte_hash-lt [] = omega arith
byte_hash-lt (c ∷ s) = omega arith

abbrev prepared_pages : Trees
prepared_pages = elim (prepare byte_hash (sort hit_leb) [] (codes "/w") pages) [
  | none ↦ nil
  | some ts ↦ ts
]

prepare-pages : prepare byte_hash (sort hit_leb) [] (codes "/w") pages ≡ some prepared_pages
unfolding prepare str_dec byte_hash each_node
prepare-pages = refl

label_lines :
    label_of (plain_node (codes "a") (codes "list") (codes "- one" ++ 10 ∷ codes "- two"))
    ≡ codes "2-item list: one"
unfolding label_of str_dec label_list split truncate itoa trim_prefix
label_lines = refl

transform-Distinct_example :
    (out : Trees) × (transform byte_hash (sort hit_leb) [] (codes "/w") pages ≡ some out)
    × Distinct (flatten out)
    × Linked [] out
unfolding any_collides hashed_payloads byte_hash str_dec flatten prepare each_node id_of itoa lookup
    identify_node insert
transform-Distinct_example =
    transform-Distinct byte_hash (sort hit_leb) [] (codes "/w") pages prepared_pages prepare-pages
      byte_hash-lt (omega arith) refl
