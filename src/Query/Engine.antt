-- ===== src/Query/Engine.antt =====
-- `Fetch`, `FetchBatch` and `Search` of pkg/query/engine.go, with traversal.go and rank.go. The
-- engine reads through the `QueryStore` interface, whose errors are `none`. The arithmetic of a
-- score is a parameter; equal scores keep their order.
use remindb.Prelude.{
  ℕ, ◌+◌, ◌-◌, Bool, ◌&&◌, Option, none, some, List, [], ◌∷◌, ◌++◌, map, ltb, ◌==◌, if◌then◌else◌,
  Bytes,
}
use remindb.Prelude.Assoc.{lookup, insert}
use remindb.Prelude.Sorting.{sort, contains}
use remindb.Parser.Ast.{Float64}
use remindb.Store.Rows.{Node}
use remindb.Query.Budget.{ScoredNode, Filled, all_nodes, fill_budget}

pub record RankedNode : Type 0 where
  pub node : Node
  pub rank : Float64

pub record QueryStore : Type 0 where
  pub get_node : Bytes → Option Node
  pub get_nodes_by_ids : List Bytes → Option (List Node)
  pub get_ancestors : Bytes → Option (List Node)
  pub get_descendants : Bytes → ℕ → Option (List Node)
  pub get_siblings : Bytes → Option (List Node)
  pub search_ranked : Bytes → ℕ → Option (List RankedNode)

-- `scoreNode` at the present time, the negation of a rank, and the order of scores.
pub record Scoring : Type 0 where
  pub score_node : Node → Float64 → Float64
  pub one : Float64
  pub negate : Float64 → Float64
  pub at_least : Float64 → Float64 → Bool

abbrev pub default_max_depth : ℕ
default_max_depth = 32

abbrev max_depth_cap : ℕ
max_depth_cap = 128

abbrev search_limit : ℕ
search_limit = 50

-- `ClampDepth` of internal/treewalk.
unfoldable clamp_depth_in : ℕ → ℕ → ℕ → ℕ
clamp_depth_in d fallback maximum =
    if d == 0 then fallback else if ltb 0 maximum && ltb maximum d then maximum else d

unfoldable pub clamp_depth : ℕ → ℕ
unfolding clamp_depth_in
clamp_depth d = clamp_depth_in d default_max_depth max_depth_cap

-- The loop over the batches, with what it has seen.
unfoldable pub dedupe_nodes : List Node → List Bytes → List Node
unfolding contains
dedupe_nodes [] seen = []
dedupe_nodes (n ∷ nodes) seen =
    let skip = dedupe_nodes nodes seen in
    let keep = n ∷ dedupe_nodes nodes (n.id ∷ seen) in if contains n.id seen then skip else keep

unfoldable pub reverse_onto : List ScoredNode → List ScoredNode → List ScoredNode
reverse_onto [] out = out
reverse_onto (n ∷ nodes) out = reverse_onto nodes (n ∷ out)

-- The map of the rows by id; a later row of an id replaces an earlier one.
unfoldable pub by_id : List Node → List (Bytes × Node) → List (Bytes × Node)
by_id [] m = m
by_id (n ∷ nodes) m = by_id nodes (insert n.id n m)

module _ (store : QueryStore) (scoring : Scoring) where
  unfoldable pub collect_context : Node → ℕ → Option (List Node)
  unfolding dedupe_nodes
  collect_context anchor depth = elim (store.get_ancestors anchor.id) [
    | none ↦ none
    | some ancestors ↦ elim (store.get_descendants anchor.id depth) [
      | none ↦ none
      | some descendants ↦ elim (store.get_siblings anchor.id) [
        | none ↦ none
        | some siblings ↦
            some (dedupe_nodes (ancestors ++ descendants ++ siblings) (anchor.id ∷ []))
      ]
    ]
  ]

  abbrev pub score_one : Node → ScoredNode
  score_one n = record { node = n; score = scoring.score_node n scoring.one }

  abbrev score_ranked : RankedNode → ScoredNode
  score_ranked r = record {
    node = r.node;
    score = scoring.score_node r.node (scoring.negate r.rank);
  }

  abbrev by_score : ScoredNode → ScoredNode → Bool
  by_score a b = scoring.at_least a.score b.score

  unfoldable pub rank_nodes : List Node → List ScoredNode
  rank_nodes nodes = sort by_score (map score_one nodes)

  unfoldable rank_search_results : List RankedNode → List ScoredNode
  rank_search_results results = sort by_score (map score_ranked results)

  unfoldable pub fetch : Bytes → ℕ → ℕ → Option Filled
  unfolding rank_nodes collect_context clamp_depth reverse_onto
  fetch anchor budget depth = elim (store.get_node anchor) [
    | none ↦ none
    | some node ↦
        elim (collect_context node (if ltb 0 depth then clamp_depth depth else default_max_depth)) [
          | none ↦ none
          | some context ↦
              let scored = rank_nodes context in
              let filled =
                if ltb 0 budget
                then fill_budget scored (budget - node.token_count)
                else all_nodes scored in
              some (record {
                nodes = reverse_onto filled.nodes [] ++ score_one node ∷ [];
                tokens_used = filled.tokens_used + node.token_count;
              })
        ]
  ]

  -- The loop over the ids: the nodes found, and the ids that are missing.
  unfoldable pub batch_order :
      List Bytes → List (Bytes × Node) → List Bytes → List ScoredNode × List Bytes
  unfolding contains
  batch_order [] nodes seen = ([], [])
  batch_order (id ∷ ids) nodes seen =
      let again = batch_order ids nodes seen in
      let (ordered, missing) = batch_order ids nodes (id ∷ seen) in
      if contains id seen then again else elim (lookup id nodes) [
        | none ↦ (ordered, id ∷ missing)
        | some n ↦ (score_one n ∷ ordered, missing)
      ]

  unfoldable pub fetch_batch : List Bytes → ℕ → Option (Filled × List Bytes)
  unfolding batch_order by_id
  fetch_batch [] budget = some (record { nodes = []; tokens_used = 0 }, [])
  fetch_batch (id ∷ ids) budget = elim (store.get_nodes_by_ids (id ∷ ids)) [
    | none ↦ none
    | some nodes ↦
        let (ordered, missing) = batch_order (id ∷ ids) (by_id nodes []) [] in
        some (if budget == 0 then all_nodes ordered else fill_budget ordered budget, missing)
  ]

  unfoldable search : Bytes → ℕ → Option Filled
  unfolding rank_search_results reverse_onto
  search query budget = elim (store.search_ranked query search_limit) [
    | none ↦ none
    | some ranked ↦
        let scored = rank_search_results ranked in
        let filled = if ltb 0 budget then fill_budget scored budget else all_nodes scored in
        some (record filled { nodes = reverse_onto filled.nodes [] })
  ]
