-- ===== src/Emitter/Forward.antt =====
-- What the first loop of pkg/emitter leaves at an id.
use remindb.Prelude.{
  ℕ, ◌≡◌, refl, ◌∙◌, subst, ◌≢◌, ◌⊎◌, true, false, Option, none, some, List, [], ◌∷◌, arith,
  Option-cases, Bytes, str_dec,
}
use remindb.Prelude.Assoc.{lookup}
use remindb.Prelude.Result.{ok, >>=-ok}
use remindb.Diff.{Op, op_add, op_mod, op_rem, Delta}
use remindb.Store.Rows.{Table}
use remindb.Emitter.{NodeMap, apply_delta, apply_deltas}
use remindb.Emitter.Core.{core_at, KeyedMap, Keyed}
use remindb.Emitter.Step.{Fate, FateOf, apply_delta-Keyed, apply_delta_self, apply_delta_other}
use remindb.Diff.Distinct.{touched, DistinctDeltas}
use remindb.Emitter.Closed.{is_closed, find_delta, is_removal, closes}

Fate-untouched :
    (m : NodeMap) (q : Bytes) (t t₁ t' : Table) (o : Option Delta)
    → Fate m q t₁ t' o
    → (lookup q t₁ ≡ lookup q t) ⊎ (is_removal o ≡ true)
    → Fate m q t t' o
Fate-untouched m q t t₁ t' none f h = ground arith
Fate-untouched m q t t₁ t' (some d) f h = f

pub fate_kept :
    (m : NodeMap) (q : Bytes) (t₁ t' : Table) (o : Op)
    → core_at q t' ≡ core_at q t₁
    → FateOf m q t₁ o
    → FateOf m q t' o
fate_kept m q t₁ t' op_add e (cn, h, s) = (cn, h, e ∙ s)
fate_kept m q t₁ t' op_mod e (cn, h, s) = (cn, h, e ∙ s)
fate_kept m q t₁ t' op_rem e h = ground (arith, Option-cases (lookup q t'))

pub find-touched : (q : Bytes) (ds : List Delta) → touched q ds ≡ false → find_delta q ds ≡ none
unfolding touched find_delta
find-touched q [] h = refl
find-touched q (d ∷ ds) h = ground (arith, find-touched q ds)

module _ (now : ℕ) (m : NodeMap) (t t₁ : Table) (d : Delta) (ds : List Delta) where
  is_closed_now : is_closed now m t (d ∷ ds) ≡ true → closes d t ds ≡ true
  unfolding is_closed
  is_closed_now c = ground arith

  is_closed_later :
      is_closed now m t (d ∷ ds) ≡ true
      → apply_delta now m d t ≡ ok t₁
      → is_closed now m t₁ ds ≡ true
  unfolding is_closed
  is_closed_later c e = ground arith

pub find_delta_here :
    (q : Bytes) (d : Delta) (ds : List Delta) → q ≡ d.node_id → find_delta q (d ∷ ds) ≡ some d
unfolding find_delta
find_delta_here q d ds e = ground arith

pub find_delta_there :
    (q : Bytes) (d : Delta) (ds : List Delta)
    → q ≢ d.node_id
    → find_delta q (d ∷ ds) ≡ find_delta q ds
unfolding find_delta
find_delta_there q d ds e = ground arith

Fate-step :
    (now : ℕ) (m : NodeMap) (k : KeyedMap m) (d : Delta) (ds : List Delta) (t t₁ t' : Table)
    (q : Bytes)
    → Keyed t
    → touched d.node_id ds ≡ false
    → closes d t ds ≡ true
    → apply_delta now m d t ≡ ok t₁
    → Fate m q t₁ t' (find_delta q ds)
    → Fate m q t t' (find_delta q (d ∷ ds))
Fate-step now m k d ds t t₁ t' q kt dd c e later = elim (str_dec q d.node_id) [
  | yes here ↦ rw (find_delta_here q d ds here) (
      rw here (
        fate_kept m d.node_id t₁ t' d.op
          (subst (λ o. Fate m d.node_id t₁ t' o) (find-touched d.node_id ds dd)
            (subst (λ p. Fate m p t₁ t' (find_delta p ds)) here later))
          (apply_delta_self now m k d t t₁ kt e)))
  | no there ↦ rw (find_delta_there q d ds there) (
      Fate-untouched m q t t₁ t' (find_delta q ds) later
        (apply_delta_other now m k q d t t₁ ds there c e))
]

-- The loop of `emit` leaves at each id what the one delta about the id says, and the row that was
-- there where no delta is about it: an added or modified node with the content of the node in the
-- tree, nothing for a removed one. Nodes and rows stand under their ids, no id has two deltas, and
-- deletions take along only rows that later deltas remove.
pub apply_deltas-Fate :
    (now : ℕ) (m : NodeMap) (ds : List Delta) (t t' : Table) (q : Bytes)
    → KeyedMap m
    → Keyed t
    → DistinctDeltas ds
    → is_closed now m t ds ≡ true
    → apply_deltas now m ds t ≡ ok t'
    → Fate m q t t' (find_delta q ds)
unfolding apply_deltas is_closed find_delta
apply_deltas-Fate now m [] t t' q k kt dd c e = ground arith
apply_deltas-Fate now m (d ∷ ds) t t' q k kt dd c e =
    let (t₁, first, rest) = >>=-ok (apply_delta now m d t) (λ s. apply_deltas now m ds s) e in
    let kt₁ = apply_delta-Keyed now m k d t t₁ kt first in
    let later =
      apply_deltas-Fate now m ds t₁ t' q k kt₁ dd.1 (is_closed_later now m t t₁ d ds c first)
        rest in
    Fate-step now m k d ds t t₁ t' q kt dd.0 (is_closed_now now m t t₁ d ds c) first later

pub apply_deltas-Keyed :
    (now : ℕ) (m : NodeMap) (ds : List Delta) (t t' : Table)
    → KeyedMap m
    → Keyed t
    → apply_deltas now m ds t ≡ ok t'
    → Keyed t'
unfolding apply_deltas
apply_deltas-Keyed now m [] t t' k kt e = let same : t ≡ t' = ground arith in rw (← same) kt
apply_deltas-Keyed now m (d ∷ ds) t t' k kt e =
    let (t₁, first, rest) = >>=-ok (apply_delta now m d t) (λ s. apply_deltas now m ds s) e in
    apply_deltas-Keyed now m ds t₁ t' k (apply_delta-Keyed now m k d t t₁ kt first) rest
