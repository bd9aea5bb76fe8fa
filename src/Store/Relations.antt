-- ===== src/Store/Relations.antt =====
-- pkg/store/relations.go and the statements of queries.go on `relations` and `pending_relations`.
-- Both tables are in the order of their ids, which AUTOINCREMENT gives out. An empty text stands for
-- NULL, as it does once a row is scanned. `now` is what `unixepoch()` answers.
use remindb.Prelude.{
  ℕ, ◌+◌, Bool, true, false, not, ◌&&◌, ◌||◌, Option, none, some, List, [], ◌∷◌, ◌++◌, map, leb,
  ◌==◌, if◌then◌else◌, Bytes, codes, ◌=s◌,
}
use remindb.Prelude.Assoc.{lookup}
use remindb.Prelude.Text.{has_suffix}
use remindb.Prelude.Result.{Result, ok, err}
use remindb.Prelude.Sorting.{str_leb}
use remindb.Parser.Ast.{Float64}
use remindb.Store.Rows.{Node, Table, Error, foreign_key}
use mathlib.Core.List.{reverse}

pub record Relation : Type 0 where
  pub id : ℕ
  pub source_node_id : Bytes
  pub target_node_id : Bytes
  pub weight : Float64
  pub origin : Bytes
  pub created_at : ℕ

pub record PendingRelation : Type 0 where
  pub id : ℕ
  pub source_node_id : Bytes
  pub target_label : Bytes
  pub target_source : Bytes
  pub target_id_hint : Bytes
  pub weight : Float64
  pub origin : Bytes
  pub created_at : ℕ

abbrev pub origin_parsed : Bytes
origin_parsed = codes "parsed"

-- The two tables and the next id of each.
pub record Graph : Type 0 where
  pub relations : List Relation
  pub pending : List PendingRelation
  pub next_relation : ℕ
  pub next_pending : ℕ

abbrev pub has_row : Bytes → Table → Bool
has_row id nodes = elim (lookup id nodes) [ none ↦ false | some n ↦ true ]

-- The UNIQUE constraint.
abbrev same_edge : Relation → Bytes → Bytes → Bytes → Bool
same_edge r source target origin =
    r.source_node_id =s source && r.target_node_id =s target && r.origin =s origin

unfoldable pub has_relation : Bytes → Bytes → Bytes → List Relation → Bool
has_relation source target origin [] = false
has_relation source target origin (r ∷ rs) =
    same_edge r source target origin || has_relation source target origin rs

unfoldable pub set_weight : Bytes → Bytes → Bytes → Float64 → List Relation → List Relation
set_weight source target origin w [] = []
set_weight source target origin w (r ∷ rs) =
    (if same_edge r source target origin then record r { weight = w } else r)
    ∷ set_weight source target origin w rs

-- The row of an edge that is not there.
abbrev pub new_edge : ℕ → Bytes → Bytes → Float64 → Bytes → Graph → Relation
new_edge now source target w origin g = record {
  id = g.next_relation;
  source_node_id = source;
  target_node_id = target;
  weight = w;
  origin = origin;
  created_at = now;
}

-- `qUpsertRelation`: both ends are foreign keys.
unfoldable pub upsert_relation :
    ℕ → Table → Bytes → Bytes → Float64 → Bytes → Graph → Result Error Graph
unfolding has_relation set_weight
upsert_relation now nodes source target w origin g =
    let updated = record g { relations = set_weight source target origin w g.relations } in
    let inserted = record g {
      relations = g.relations ++ new_edge now source target w origin g ∷ [];
      next_relation = g.next_relation + 1;
    } in
    if not (has_row source nodes && has_row target nodes)
    then err foreign_key
    else if has_relation source target origin g.relations
    then ok updated
    else ok inserted

-- `qInsertPendingRelation`, whose id and time the row gets here.
unfoldable pub insert_pending : ℕ → Table → PendingRelation → Graph → Result Error Graph
insert_pending now nodes p g =
    let row = record p { id = g.next_pending; created_at = now } in
    if has_row p.source_node_id nodes
    then ok (record g { pending = g.pending ++ row ∷ []; next_pending = g.next_pending + 1 })
    else err foreign_key

unfoldable pub drop_pending : (PendingRelation → Bool) → List PendingRelation → List PendingRelation
drop_pending dropped [] = []
drop_pending dropped (p ∷ ps) =
    let rest = drop_pending dropped ps in if dropped p then rest else p ∷ rest

-- `DeletePendingByID`.
unfoldable pub delete_pending_by_id : ℕ → Graph → Graph
unfolding drop_pending
delete_pending_by_id id g = record g { pending = drop_pending (λ p. p.id == id) g.pending }

-- `DeleteParsedPendingForSource`.
unfoldable pub delete_parsed_pending : Bytes → Graph → Graph
unfolding drop_pending
delete_parsed_pending source g = record g {
  pending = drop_pending (λ p. p.source_node_id =s source && p.origin =s origin_parsed) g.pending;
}

-- SQLite's `LOWER` and `TRIM`: of ASCII letters, and of blanks.
abbrev lower : ℕ → ℕ
lower c = if leb b'A' c && leb c b'Z' then c + 32 else c

unfoldable drop_blanks : Bytes → Bytes
drop_blanks [] = []
drop_blanks (c ∷ s) = let rest = drop_blanks s in if c == 32 then rest else c ∷ s

unfoldable pub label_key : Bytes → Bytes
unfolding drop_blanks
label_key s = map lower (reverse (drop_blanks (reverse (drop_blanks s))))

-- `LIKE` of the escaped pattern: the path ends in a slash and the source, but for the case.
unfoldable pub in_file : Bytes → Node → Bool
unfolding has_suffix
in_file source n =
    n.source_file =s source || has_suffix (map lower n.source_file) (b'/' ∷ map lower source)

abbrev pub is_heading : Bytes → Node → Bool
is_heading label n = n.node_type =s codes "heading" && label_key n.label =s label_key label

-- The first row of an order among those that a test accepts.
unfoldable pub first_row : (Node → Bool) → (Node → Node → Bool) → Table → Option Node
first_row accepts before [] = none
first_row accepts before ((k, n) ∷ t) =
    let best : Option Node = elim (first_row accepts before t) [
      | none ↦ some n
      | some m ↦ if before n m then some n else some m
    ] in
    let rest = first_row accepts before t in if accepts n then best else rest

-- `ORDER BY depth, id`.
abbrev pub depth_leb : Node → Node → Bool
depth_leb a b = if a.depth == b.depth then str_leb a.id b.id else leb a.depth b.depth

-- `ORDER BY source_file, depth, id`.
abbrev pub file_leb : Node → Node → Bool
file_leb a b =
    if a.source_file =s b.source_file then depth_leb a b else str_leb a.source_file b.source_file

abbrev pub id_or_empty : Option Node → Bytes
id_or_empty none = []
id_or_empty (some n) = n.id

unfoldable pub find_heading_by_label : Table → Bytes → Bytes
unfolding first_row
find_heading_by_label nodes label = id_or_empty (first_row (is_heading label) file_leb nodes)

unfoldable pub find_heading_by_label_in_file : Table → Bytes → Bytes → Bytes
unfolding first_row in_file
find_heading_by_label_in_file nodes source label =
    id_or_empty (first_row (λ n. is_heading label n && in_file source n) depth_leb nodes)
