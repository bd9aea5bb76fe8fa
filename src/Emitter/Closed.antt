-- ===== src/Emitter/Closed.antt =====
-- Deletions of pkg/emitter that take along only rows removed in their turn.
use remindb.Prelude.{
  ℕ, ◌≡◌, ◌≢◌, Bool, true, false, ◌&&◌, Option, none, some, List, [], ◌∷◌, arith, if◌then◌else◌,
  Bytes, ◌=s◌,
}
use remindb.Prelude.Assoc.{lookup}
use remindb.Prelude.Result.{ok, err}
use remindb.Diff.{op_rem, Delta}
use remindb.Store.Rows.{Node, Table, delete_node}
use remindb.Emitter.{NodeMap, apply_delta}

unfoldable pub find_delta : Bytes → List Delta → Option Delta
find_delta q [] = none
find_delta q (d ∷ ds) = if q =s d.node_id then some d else find_delta q ds

-- A later delta removes the id.
abbrev pub is_removal : Option Delta → Bool
is_removal none = false
is_removal (some d) = elim d.op [ op_rem ↦ true | _ ↦ false ]

-- Every row that a deletion takes along is one that a later delta removes. `rows` are the rows
-- looked at.
unfoldable pub covered : Bytes → Table → List Delta → Table → Bool
covered id t ds [] = true
covered id t ds ((k, n) ∷ rows) =
    (if k =s id then true else elim (lookup k (delete_node id t)) [
      | some _ ↦ true
      | none ↦ is_removal (find_delta k ds)
    ])
    && covered id t ds rows

unfoldable pub closes : Delta → Table → List Delta → Bool
unfolding covered
closes d t ds = elim d.op [ op_rem ↦ covered d.node_id t ds t | _ ↦ true ]

-- Deletions take along only rows that are removed in their turn.
unfoldable pub is_closed : ℕ → NodeMap → Table → List Delta → Bool
unfolding closes
is_closed now m t [] = true
is_closed now m t (d ∷ ds) =
    closes d t ds && elim (apply_delta now m d t) [ ok t' ↦ is_closed now m t' ds | err e ↦ true ]

pub covered_at :
    (q id : Bytes) (t : Table) (ds : List Delta) (rows : Table) (n : Node)
    → covered id t ds rows ≡ true
    → lookup q rows ≡ some n
    → q ≢ id
    → lookup q (delete_node id t) ≡ none
    → is_removal (find_delta q ds) ≡ true
unfolding covered lookup
covered_at q id t ds [] n c e h g = ground arith
covered_at q id t ds ((k, x) ∷ rows) n c e h g = ground (arith, covered_at q id t ds rows n)
