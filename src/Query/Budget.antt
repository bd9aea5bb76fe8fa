-- ===== src/Query/Budget.antt =====
-- pkg/query/budget.go, and the `ScoredNode` of rank.go. A score is only carried along here.
use remindb.Prelude.{
  ℕ, ◌+◌, ◌-◌, ◌≤◌, ◌<◌, ◌≡◌, refl, sym, ◌∙◌, subst, List, [], ◌∷◌, ◌++◌, append_assoc, append-nil,
  arith, ltb, if◌then◌else◌, dec_lt,
}
use remindb.Parser.Ast.{Float64}
use remindb.Store.Rows.{Node}

pub record ScoredNode : Type 0 where
  pub node : Node
  pub score : Float64

pub record Filled : Type 0 where
  pub nodes : List ScoredNode
  pub tokens_used : ℕ

abbrev cost : ScoredNode → ℕ
cost sn = sn.node.token_count

-- The loop of `allNodes`.
unfoldable pub sum_tokens : List ScoredNode → ℕ → ℕ
sum_tokens [] used = used
sum_tokens (sn ∷ scored) used = sum_tokens scored (used + cost sn)

unfoldable pub all_nodes : List ScoredNode → Filled
unfolding sum_tokens
all_nodes scored = record { nodes = scored; tokens_used = sum_tokens scored 0 }

-- The loop of `fillBudget`.
unfoldable fill_loop : ℕ → List ScoredNode → List ScoredNode → ℕ → Filled
fill_loop budget [] out used = record { nodes = out; tokens_used = used }
fill_loop budget (sn ∷ scored) out used =
    let skip = fill_loop budget scored out used in
    let keep = fill_loop budget scored (out ++ sn ∷ []) (used + cost sn) in
    if ltb budget (used + cost sn) then skip else keep

unfoldable pub fill_budget : List ScoredNode → ℕ → Filled
unfolding fill_loop
fill_budget scored budget = fill_loop budget scored [] 0

pub sum_tokens-from :
    (scored : List ScoredNode) (used : ℕ) → sum_tokens scored used ≡ used + sum_tokens scored 0
unfolding sum_tokens
sum_tokens-from [] used = omega arith
sum_tokens-from (sn ∷ scored) used =
    omega (arith, sum_tokens-from scored (used + cost sn), sum_tokens-from scored (0 + cost sn))

pub sum_tokens-append :
    (xs ys : List ScoredNode) (used : ℕ)
    → sum_tokens (xs ++ ys) used ≡ sum_tokens ys (sum_tokens xs used)
unfolding sum_tokens
sum_tokens-append [] ys used = refl
sum_tokens-append (sn ∷ xs) ys used = sum_tokens-append xs ys (used + cost sn)

fill_loop_tokens :
    (budget : ℕ) (scored out : List ScoredNode) (used : ℕ)
    → sum_tokens out 0 ≡ used
    → used ≤ budget
    → let r = fill_loop budget scored out used in
      (sum_tokens r.nodes 0 ≡ r.tokens_used) × (r.tokens_used ≤ budget) × (used ≤ r.tokens_used)
unfolding fill_loop sum_tokens
fill_loop_tokens budget [] out used s h = ground arith
fill_loop_tokens budget (sn ∷ scored) out used s h = ground (
  arith,
  fill_loop_tokens budget scored out used s h,
  fill_loop_tokens budget scored (out ++ sn ∷ []) (used + cost sn),
  sum_tokens-append out (sn ∷ []) 0,
)

-- The result is the input with some nodes left out, in order, and a node is left out only if it
-- does not fit beside the tokens of the result.
pub data Chosen (spare : ℕ) : List ScoredNode → List ScoredNode → Type 0 where
  done : Chosen spare [] []
  keep :
      {xs ys : List ScoredNode} (sn : ScoredNode)
      → Chosen spare xs ys
      → Chosen spare (sn ∷ xs) (sn ∷ ys)
  skip :
      {xs ys : List ScoredNode} (sn : ScoredNode)
      → spare < cost sn
      → Chosen spare xs ys
      → Chosen spare (sn ∷ xs) ys

module _ (budget : ℕ) (sn : ScoredNode) (scored out : List ScoredNode) (used : ℕ) where
  fill_skip :
      budget < used + cost sn
      → fill_loop budget (sn ∷ scored) out used ≡ fill_loop budget scored out used
  unfolding fill_loop
  fill_skip h = ground arith

  fill_keep :
      ¬ (budget < used + cost sn)
      → fill_loop budget (sn ∷ scored) out used
        ≡ fill_loop budget scored (out ++ sn ∷ []) (used + cost sn)
  unfolding fill_loop
  fill_keep h = ground arith

fill_loop-Chosen :
    (budget : ℕ) (scored out : List ScoredNode) (used : ℕ)
    → sum_tokens out 0 ≡ used
    → used ≤ budget
    → let r = fill_loop budget scored out used in
      (picked : List ScoredNode) × (r.nodes ≡ out ++ picked)
      × Chosen (budget - r.tokens_used) scored picked
fill_loop-Chosen budget [] out used s h = ([], unfold fill_loop in rw append-nil, done)
fill_loop-Chosen budget (sn ∷ scored) out used s h = elim (dec_lt budget (used + cost sn)) [
  | yes over ↦ rw (fill_skip budget sn scored out used over) (
      let (picked, e, c) = fill_loop-Chosen budget scored out used s h in
      (picked, e, skip sn (omega (arith, (fill_loop_tokens budget scored out used s h).2)) c))
  | no fits ↦ rw (fill_keep budget sn scored out used fits) (
      let (picked, e, c) =
        fill_loop-Chosen budget scored (out ++ sn ∷ []) (used + cost sn)
          (unfold sum_tokens in ground (arith, sum_tokens-append out (sn ∷ []) 0)) (omega arith) in
      (sn ∷ picked, e ∙ append_assoc out (sn ∷ []) picked, keep sn c))
]

-- `fillBudget` never spends more tokens than the budget and reports exactly what it spends. It
-- keeps the order of the ranking, and is greedy: a node that it leaves out has more tokens than
-- are left of the budget at the end.
pub fill_budget-Chosen :
    (scored : List ScoredNode) (budget : ℕ)
    → let r = fill_budget scored budget in
      (r.tokens_used ≤ budget)
      × (sum_tokens r.nodes 0 ≡ r.tokens_used)
      × Chosen (budget - r.tokens_used) scored r.nodes
unfolding fill_budget sum_tokens
fill_budget-Chosen scored budget =
    let (exact, bound, _) = fill_loop_tokens budget scored [] 0 refl (omega arith) in
    let (picked, e, c) = fill_loop-Chosen budget scored [] 0 refl (omega arith) in
    (
      bound,
      exact,
      subst (Chosen (budget - (fill_budget scored budget).tokens_used) scored) (sym e) c,
    )
