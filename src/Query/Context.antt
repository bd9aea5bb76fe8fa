-- ===== src/Query/Context.antt =====
-- The context that `Fetch` collects, and what it spends.
use remindb.Prelude.{
  ℕ, ◌+◌, ◌-◌, ◌≤◌, ◌<◌, max, ◌≡◌, refl, sym, ◌∙◌, subst, ◌≢◌, inl, inr, Bool, false, ◌||◌, none,
  some, List, [], ◌∷◌, ◌++◌, arith, ltb, if◌then◌else◌, Option-cases, Bytes, ◌=s◌, last_of,
}
use remindb.Prelude.Sorting.{contains}
use remindb.Store.Rows.{Node}
use remindb.Query.Budget.{
  ScoredNode, Filled, sum_tokens, sum_tokens-from, sum_tokens-append, fill_budget,
  fill_budget-Chosen,
}
use remindb.Query.Engine.{
  QueryStore, Scoring, dedupe_nodes, collect_context, fetch, rank_nodes, clamp_depth,
  default_max_depth, score_one, reverse_onto,
}

-- No id twice, and none of those seen before.
abbrev pub Fresh : List Bytes → List Node → Type 0
Fresh seen [] = Unit
Fresh seen (n ∷ nodes) = (contains n.id seen ≡ false) × Fresh (n.id ∷ seen) nodes

unfoldable pub has_id : Bytes → List Node → Bool
has_id q [] = false
has_id q (n ∷ nodes) = q =s n.id || has_id q nodes

dedupe-Fresh : (nodes : List Node) (seen : List Bytes) → Fresh seen (dedupe_nodes nodes seen)
unfolding dedupe_nodes
dedupe-Fresh [] seen = tt
dedupe-Fresh (n ∷ nodes) seen =
    ground (arith, dedupe-Fresh nodes seen, dedupe-Fresh nodes (n.id ∷ seen))

dedupe-has_id :
    (q : Bytes) (nodes : List Node) (seen : List Bytes)
    → contains q seen ≡ false
    → has_id q (dedupe_nodes nodes seen) ≡ has_id q nodes
unfolding dedupe_nodes has_id contains
dedupe-has_id q [] seen h = refl
dedupe-has_id q (n ∷ nodes) seen h =
    ground (arith, dedupe-has_id q nodes seen h, dedupe-has_id q nodes (n.id ∷ seen))

sum_tokens-one :
    (sn : ScoredNode) (used : ℕ) → sum_tokens (sn ∷ []) used ≡ used + sn.node.token_count
unfolding sum_tokens
sum_tokens-one sn used = refl

sum_tokens-none : sum_tokens [] 0 ≡ 0
unfolding sum_tokens
sum_tokens-none = refl

sum_tokens-reverse_onto :
    (nodes out : List ScoredNode)
    → sum_tokens (reverse_onto nodes out) 0 ≡ sum_tokens nodes 0 + sum_tokens out 0
unfolding reverse_onto sum_tokens
sum_tokens-reverse_onto [] out = omega arith
sum_tokens-reverse_onto (sn ∷ nodes) out = omega (
  arith,
  sum_tokens-reverse_onto nodes (sn ∷ out),
  sum_tokens-from nodes (0 + sn.node.token_count),
  sum_tokens-from out (0 + sn.node.token_count),
)

last_of-snoc {ℓ} : {A : Type ℓ} (l : List A) (a : A) → last_of (l ++ a ∷ []) ≡ some a
last_of-snoc [] a = refl
last_of-snoc (x ∷ []) a = refl
last_of-snoc (x ∷ y ∷ l) a = last_of-snoc (y ∷ l) a

some_injective {ℓ} : {A : Type ℓ} {a b : A} → some a ≡ some b → a ≡ b
some_injective e = cc

module _ (store : QueryStore) (scoring : Scoring) where
  -- Where the three reads of `collectContext` succeed, so does it: an id is in its result at most
  -- once, the anchor's never, and every other id that some read returned is.
  pub collect_context-Fresh :
      (anchor : Node) (depth : ℕ) (ancestors descendants siblings : List Node) (q : Bytes)
      → q ≢ anchor.id
      → store.get_ancestors anchor.id ≡ some ancestors
      → store.get_descendants anchor.id depth ≡ some descendants
      → store.get_siblings anchor.id ≡ some siblings
      → (context : List Node) × (collect_context store scoring anchor depth ≡ some context)
        × Fresh (anchor.id ∷ []) context
        × (has_id q context ≡ has_id q (ancestors ++ descendants ++ siblings))
  unfolding collect_context contains
  collect_context-Fresh anchor depth ancestors descendants siblings q other a d s =
      let all = ancestors ++ descendants ++ siblings in
      (
        dedupe_nodes all (anchor.id ∷ []),
        cc,
        dedupe-Fresh all (anchor.id ∷ []),
        dedupe-has_id q all (anchor.id ∷ []) (ground arith),
      )

  -- The tokens of a fetch under a budget.
  fetch_tokens :
      (anchor : Bytes) (budget depth : ℕ) (node : Node) (context : List Node)
      → store.get_node anchor ≡ some node
      → collect_context store scoring node
          (if ltb 0 depth then clamp_depth depth else default_max_depth)
        ≡ some context
      → 0 < budget
      → fetch store scoring anchor budget depth
        ≡ some (record {
          nodes =
              reverse_onto
                (fill_budget (rank_nodes store scoring context) (budget - node.token_count)).nodes
                []
              ++ score_one store scoring node ∷ [];
          tokens_used =
              (fill_budget
                (rank_nodes store scoring context)
                (budget - node.token_count)).tokens_used
              + node.token_count;
        })
  unfolding fetch
  fetch_tokens anchor budget depth node context n c p = ground arith

  fetch_fails :
      (anchor : Bytes) (budget depth : ℕ) (node : Node)
      → store.get_node anchor ≡ some node
      → collect_context store scoring node
          (if ltb 0 depth then clamp_depth depth else default_max_depth)
        ≡ none
      → fetch store scoring anchor budget depth ≡ none
  unfolding fetch
  fetch_fails anchor budget depth node n c = cc

  -- The nodes of a fetch under a budget, in the order of the answer.
  abbrev filled_nodes : ℕ → Node → List Node → List ScoredNode
  filled_nodes budget node context =
      reverse_onto
        (fill_budget (rank_nodes store scoring context) (budget - node.token_count)).nodes []
      ++ score_one store scoring node ∷ []

  filled_nodes_tokens :
      (budget : ℕ) (node : Node) (context : List Node)
      → let filled = fill_budget (rank_nodes store scoring context) (budget - node.token_count) in
        sum_tokens (filled_nodes budget node context) 0 ≡ filled.tokens_used + node.token_count
  filled_nodes_tokens budget node context =
      let scored = rank_nodes store scoring context in
      let filled = fill_budget scored (budget - node.token_count) in
      let anchor = score_one store scoring node in
      omega (
        arith,
        sum_tokens-append (reverse_onto filled.nodes []) (anchor ∷ []) 0,
        sum_tokens-one anchor (sum_tokens (reverse_onto filled.nodes []) 0),
        sum_tokens-reverse_onto filled.nodes [],
        sum_tokens-none,
        (fill_budget-Chosen scored (budget - node.token_count)).1,
      )

  -- Under a positive budget, the nodes that `Fetch` returns have together at most as many tokens as the
  -- budget, or as the anchor alone where the anchor has more; `TokensUsed` is their sum, and the
  -- anchor is the last of them.
  pub fetch-budget :
      (anchor : Bytes) (budget depth : ℕ) (node : Node) (r : Filled)
      → store.get_node anchor ≡ some node
      → 0 < budget
      → fetch store scoring anchor budget depth ≡ some r
      → (sum_tokens r.nodes 0 ≤ max budget node.token_count)
        × (r.tokens_used ≡ sum_tokens r.nodes 0)
        × (last_of r.nodes ≡ some (score_one store scoring node))
  fetch-budget anchor budget depth node r n p e =
      elim (Option-cases (
        collect_context store scoring node
          (if ltb 0 depth then clamp_depth depth else default_max_depth))) [
            | inl fails ↦ absurd (ground (arith, fetch_fails anchor budget depth node n fails))
            | inr (context, c) ↦
                let scored = rank_nodes store scoring context in
                let filled = fill_budget scored (budget - node.token_count) in
                let spent = (fill_budget-Chosen scored (budget - node.token_count)).0 in
                let total = filled_nodes_tokens budget node context in
                subst
                  (λ (r : Filled).
                    (sum_tokens r.nodes 0 ≤ max budget node.token_count)
                    × (r.tokens_used ≡ sum_tokens r.nodes 0)
                    × (last_of r.nodes ≡ some (score_one store scoring node)))
                  (some_injective (sym (fetch_tokens anchor budget depth node context n c p) ∙ e))
                  (
                    omega (arith, spent, total),
                    sym total,
                    last_of-snoc (reverse_onto filled.nodes []) _,
                  )
          ]
