-- ===== src/Relations/Resolved.antt =====
-- A reference resolves to nothing, or to the id of a row.
use remindb.Prelude.{
  ◌≡◌, refl, ◌≢◌, inl, inr, Bool, true, false, not, ◌&&◌, Option, none, some, [], ◌∷◌, arith,
  if◌then◌else◌, Option-cases, Bytes, ◌=s◌, All,
}
use remindb.Prelude.Assoc.{lookup}
use remindb.Parser.Ast.{WikilinkRef}
use remindb.Store.Rows.{Node, Table}
use remindb.Store.Relations.{
  has_row, first_row, id_or_empty, find_heading_by_label, find_heading_by_label_in_file, is_heading,
  in_file, depth_leb, file_leb,
}
use remindb.Relations.{resolve}

-- Every row stands under its id.
abbrev pub KeyedRows : Table → Type 0
KeyedRows nodes = All (λ (e : Bytes × Node). e.0 ≡ e.1.id) nodes

has_row-cons :
    (id k : Bytes) (n : Node) (t : Table) → has_row id t ≡ true → has_row id ((k, n) ∷ t) ≡ true
unfolding lookup
has_row-cons id k n t h = ground arith

first_row-has_row :
    (accepts : Node → Bool) (before : Node → Node → Bool) (t : Table) (n : Node)
    → KeyedRows t
    → first_row accepts before t ≡ some n
    → has_row n.id t ≡ true
unfolding first_row lookup
first_row-has_row accepts before [] n k e = cc
first_row-has_row accepts before ((id, m) ∷ t) n k e =
    elim (Option-cases (first_row accepts before t)) [
      | inl none_found ↦ ground arith
      | inr (r, found) ↦ ground (arith, first_row-has_row accepts before t r k.1 found)
    ]

lookup-key : (id : Bytes) (t : Table) (n : Node) → KeyedRows t → lookup id t ≡ some n → n.id ≡ id
unfolding lookup
lookup-key id [] n k e = cc
lookup-key id ((j, m) ∷ t) n k e = ground (arith, lookup-key id t n k.1)

-- Nothing, or the id of a row.
abbrev Found : Table → Bytes → Type 0
Found nodes id = id ≢ [] → has_row id nodes ≡ true

id_or_empty-Found :
    (nodes : Table) (found : Option Node)
    → ((n : Node) → found ≡ some n → has_row n.id nodes ≡ true)
    → Found nodes (id_or_empty found)
id_or_empty-Found nodes none h ne = absurd (ne refl)
id_or_empty-Found nodes (some n) h ne = h n refl

if-Found :
    (nodes : Table) (b : Bool) (x y : Bytes)
    → Found nodes x
    → Found nodes y
    → Found nodes (if b then x else y)
if-Found nodes true x y hx hy = hx
if-Found nodes false x y hx hy = hy

first_row-Found :
    (nodes : Table) (accepts : Node → Bool) (before : Node → Node → Bool)
    → KeyedRows nodes
    → Found nodes (id_or_empty (first_row accepts before nodes))
first_row-Found nodes accepts before k =
    id_or_empty-Found nodes (first_row accepts before nodes)
      λ n e. first_row-has_row accepts before nodes n k e

-- A reference resolves to nothing, or to the id of a row.
pub resolve-Found :
    (nodes : Table) (ref : WikilinkRef) → KeyedRows nodes → Found nodes (resolve nodes ref)
unfolding resolve find_heading_by_label find_heading_by_label_in_file
resolve-Found nodes ref k =
    let in_one_file =
      first_row-Found nodes (λ n. is_heading ref.label n && in_file ref.source_qual n) depth_leb
        k in
    let anywhere = first_row-Found nodes (is_heading ref.label) file_leb k in
    let hinted =
      id_or_empty-Found nodes (lookup ref.id_hint nodes)
        (λ n e. let own = lookup-key ref.id_hint nodes n k e in ground arith) in
    if-Found nodes (not (ref.id_hint =s [])) (id_or_empty (lookup ref.id_hint nodes)) _ hinted (
      if-Found nodes (ref.label =s []) [] _ (λ ne. absurd (ne refl))
        (if-Found nodes (not (ref.source_qual =s [])) _ _ in_one_file anywhere))
