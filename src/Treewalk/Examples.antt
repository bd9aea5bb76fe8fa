-- ===== src/Treewalk/Examples.antt =====
-- A walk of internal/treewalk over a node that is its own child.
use remindb.Prelude.{
  ℕ, ◌+◌, ◌≡◌, refl, ◌≢◌, false, Option, none, some, List, [], ◌∷◌, arith, Bytes, codes,
}
use remindb.Store.Rows.{Node}
use remindb.Treewalk.{walk_tree, walk_tree-ended}

abbrev looped : Node
looped = record {
  id = codes "a";
  parent_id = codes "a";
  source_file = codes "a.md";
  node_type = codes "text";
  depth = 1;
  label = codes "a";
  content = codes "one";
  format = codes "plain";
  token_count = 1;
  content_hash = codes "one";
  temperature = 0;
  access_count = 0;
  last_accessed = none;
  created_at = 0;
  updated_at = 0;
  pinned = false;
  seed_pinned = false;
  seed_temp = none;
}

abbrev sum_all : List ℕ → ℕ
sum_all [] = 0
sum_all (n ∷ ns) = n + sum_all ns

abbrev count_nodes : Node → Option Node → ℕ → List ℕ → ℕ
count_nodes n parent depth below = 1 + sum_all below

abbrev loop_kids : Bytes → List Node
loop_kids id = looped ∷ looped ∷ []

-- Three levels below the root: 1 + 2 + 4 + 8 nodes.
walk_loop : walk_tree loop_kids 3 count_nodes 4 looped ≡ some 15
unfolding walk_tree
walk_loop = refl

walk_tree-ended_example : walk_tree loop_kids 3 count_nodes 4 looped ≢ none
walk_tree-ended_example = walk_tree-ended loop_kids 3 count_nodes looped (omega arith)
