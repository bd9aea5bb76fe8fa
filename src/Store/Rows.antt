-- ===== src/Store/Rows.antt =====
-- pkg/store/node.go and the `nodes` statements of queries.go. The table is keyed by the id.
-- A `float64` column is a bit pattern. `now` is what `unixepoch()` answers.
use remindb.Prelude.{
  ℕ, zero, suc, ◌≡◌, sym, ◌⊎◌, Bool, true, false, Option, none, some, List, [], ◌∷◌, arith,
  if◌then◌else◌, Bytes, ◌=s◌, str_dec, length,
}
use remindb.Prelude.Assoc.{lookup, insert}
use remindb.Prelude.Result.{Result, ok, err}
use remindb.Parser.Ast.{Float64}

pub record Node : Type 0 where
  pub id : Bytes
  pub parent_id : Bytes
  pub source_file : Bytes
  pub node_type : Bytes
  pub depth : ℕ
  pub label : Bytes
  pub content : Bytes
  pub format : Bytes
  pub token_count : ℕ
  pub content_hash : Bytes
  pub temperature : Float64
  pub access_count : ℕ
  pub last_accessed : Option ℕ
  pub created_at : ℕ
  pub updated_at : ℕ
  pub pinned : Bool
  pub seed_pinned : Bool
  pub seed_temp : Option Float64

abbrev pub Table : Type 0
Table = List (Bytes × Node)

pub data Error : Type 0 where
  node_not_found : Bytes → Error
  has_children : Bytes → ℕ → Error
  foreign_key : Error
  unique_violation : Error
  snapshot_not_found : ℕ → Error
  ahead_of_head : ℕ → Error
  invalid_id : Error

-- The bits of the column default 0.5.
abbrev pub default_temperature : Float64
default_temperature = 0x3FE0000000000000

abbrev pub get_or {ℓ} : {A : Type ℓ} → Option A → A → A
get_or none a = a
get_or (some b) a = b

-- The row of `qUpsertNode`: a fresh row takes the seeds or the defaults, an old row keeps what is
-- not content, but for a seeded temperature.
unfoldable pub upsert_row : ℕ → Node → Option Node → Node
upsert_row now n none = record n {
  temperature = get_or n.seed_temp default_temperature;
  access_count = 0;
  last_accessed = none;
  created_at = now;
  updated_at = now;
  pinned = n.seed_pinned;
  seed_pinned = false;
  seed_temp = none;
}
upsert_row now n (some old) = record old {
  parent_id = n.parent_id;
  source_file = n.source_file;
  node_type = n.node_type;
  depth = n.depth;
  label = n.label;
  content = n.content;
  format = n.format;
  token_count = n.token_count;
  content_hash = n.content_hash;
  temperature = get_or n.seed_temp old.temperature;
  updated_at = now;
}

-- `parent_id REFERENCES nodes(id)`, where the empty string is NULL.
abbrev pub has_parent : Table → Node → Bool
has_parent t n =
    if n.parent_id =s [] then true else elim (lookup n.parent_id t) [ none ↦ false | some _ ↦ true ]

-- `UpsertNodeTx`, with the foreign key checked at the end of the statement.
unfoldable pub upsert_node : ℕ → Node → Table → Result Error Table
unfolding upsert_row
upsert_node now n t =
    let t' = insert n.id (upsert_row now n (lookup n.id t)) t in
    if has_parent t' n then ok t' else err foreign_key

-- The walk from a row up to its root meets `root`. The fuel is the number of rows.
unfoldable pub is_under : ℕ → Table → Bytes → Bytes → Bool
is_under zero t root q = q =s root
is_under (suc fuel) t root q = elim (q =s root) [
  | true ↦ true
  | false ↦ elim (lookup q t) [
    | none ↦ false
    | some n ↦ elim (n.parent_id =s []) [ true ↦ false | false ↦ is_under fuel t root n.parent_id ]
  ]
]

unfoldable drop_rows : (Bytes → Bool) → Table → Table
drop_rows p [] = []
drop_rows p ((k, n) ∷ t) = let rest = drop_rows p t in if p k then rest else (k, n) ∷ rest

-- `DeleteNodeTx`: `ON DELETE CASCADE` takes the rows below along.
unfoldable pub delete_node : Bytes → Table → Table
unfolding is_under drop_rows
delete_node id t = elim (lookup id t) [ none ↦ t | some _ ↦ drop_rows (is_under (length t) t id) t ]

lookup-drop_rows :
    (q : Bytes) (p : Bytes → Bool) (t : Table)
    → lookup q (drop_rows p t) ≡ (if p q then none else lookup q t)
unfolding lookup drop_rows
lookup-drop_rows q p [] = ground arith
lookup-drop_rows q p ((k, n) ∷ t) = elim (str_dec q k) [
  | yes e ↦ rw e (ground (arith, lookup-drop_rows k p t, sym e))
  | no e ↦ ground (arith, lookup-drop_rows q p t)
]

-- A deletion changes no row that it leaves.
pub delete_node_cases :
    (q id : Bytes) (t : Table)
    → (lookup q (delete_node id t) ≡ none) ⊎ (lookup q (delete_node id t) ≡ lookup q t)
unfolding delete_node
delete_node_cases q id t = ground (arith, lookup-drop_rows q (is_under (length t) t id) t)

is_under_self : (fuel : ℕ) (t : Table) (q : Bytes) → is_under fuel t q q ≡ true
unfolding is_under
is_under_self zero t q = ground arith
is_under_self (suc fuel) t q = ground arith

pub delete_node_self : (id : Bytes) (t : Table) → lookup id (delete_node id t) ≡ none
unfolding delete_node
delete_node_self id t =
    ground (arith, lookup-drop_rows id (is_under (length t) t id) t, is_under_self (length t) t id)
