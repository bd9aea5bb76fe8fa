-- ===== src/Treewalk.antt =====
-- internal/treewalk: the walk over a tree of nodes that is given by the children of each id, which a
-- database can make cyclic. The callback gets what `descend` returns, and `none` is a walk that has not
-- ended.
mod Examples
use remindb.Prelude.{
  ℕ, zero, suc, ◌+◌, ◌-◌, ◌*◌, ◌/◌, ◌%◌, ◌≤◌, ◌<◌, min, max, ◌≡◌, refl, sym, ap, ◌∙◌, subst, ◌≢◌,
  ◌↔◌, ◌⊎◌, inl, inr, Bool, true, false, not, ◌&&◌, ◌||◌, Option, none, some, List, [], ◌∷◌, ◌++◌,
  map, append_assoc, append-nil, arith, ltb, leb, ◌==◌, if◌then◌else◌, Bool-cases, Option-cases,
  Bytes, codes, ◌=s◌, str_dec, length, get_elem?, set, take, drop, replicate, All, All-append,
  All-map, All-append_left, All-append_right, All-zip, All-pure, length-append, length-take,
}
use remindb.Store.Rows.{Node}

module _ {ℓ} {T : Type ℓ} where
  -- The results for the children, in their order.
  unfoldable walk_all : (Node → Option T) → List Node → Option (List T)
  walk_all step [] = some []
  walk_all step (c ∷ kids) = elim (step c) [
    | none ↦ none
    | some t ↦ elim (walk_all step kids) [ none ↦ none | some ts ↦ some (t ∷ ts) ]
  ]

  walk_all-ended :
      (step : Node → Option T) (kids : List Node)
      → ((c : Node) → step c ≢ none)
      → walk_all step kids ≢ none
  unfolding walk_all
  walk_all-ended step [] h = λ e. ground (arith, e)
  walk_all-ended step (c ∷ kids) h = λ e. ground (arith, e, h c, walk_all-ended step kids h)

  module _ (children : Bytes → List Node) (max_depth : ℕ)
      (fn : Node → Option Node → ℕ → List T → T) where
    unfoldable walk_from : ℕ → Node → Option Node → ℕ → Option T
    unfolding walk_all
    walk_from zero n parent depth = none
    walk_from (suc fuel) n parent depth =
        let below : Option T =
          elim (walk_all (λ c. walk_from fuel c (some n) (depth + 1)) (children n.id)) [
            | none ↦ none
            | some out ↦ some (fn n parent depth out)
          ] in
        if ltb 0 max_depth && leb max_depth depth then some (fn n parent depth []) else below

    -- `Walk`.
    unfoldable pub walk_tree : ℕ → Node → Option T
    unfolding walk_from
    walk_tree fuel root = walk_from fuel root none 0

    walk_from-ended :
        (fuel : ℕ) (n : Node) (parent : Option Node) (depth : ℕ)
        → 0 < max_depth
        → max_depth - depth < fuel
        → walk_from fuel n parent depth ≢ none
    unfolding walk_from
    walk_from-ended zero n parent depth h k = absurd (omega arith)
    walk_from-ended (suc fuel) n parent depth h k =
        elim (Bool-cases (ltb 0 max_depth && leb max_depth depth)) [
          | inl deep ↦ λ e. ground (arith, e, deep)
          | inr more ↦ λ e.
              let left : max_depth - (depth + 1) < fuel = ground (arith, more, h, k) in
              let below =
                walk_all-ended (λ c. walk_from fuel c (some n) (depth + 1)) (children n.id)
                  (λ c. walk_from-ended fuel c (some n) (depth + 1) h left) in
              ground (arith, e, more, below)
        ]

    -- A walk with a positive depth limit ends, even where the children form a cycle: one round for
    -- each level and one more are enough.
    pub walk_tree-ended : (root : Node) → 0 < max_depth → walk_tree (suc max_depth) root ≢ none
    unfolding walk_tree
    walk_tree-ended root h = walk_from-ended (suc max_depth) root none 0 h (omega arith)
