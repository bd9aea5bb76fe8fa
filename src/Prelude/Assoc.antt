-- ===== src/Prelude/Assoc.antt =====
-- A Go map with string keys as an association list. The first entry of a key counts.
use mathlib.Core.Path.{◌≡◌, refl}
use mathlib.Core.List.{List, [], ◌∷◌}
use mathlib.Core.Option.{Option, none, some}
use native.Mathlib.Omega.{arith}
use remindb.Prelude.Tests.{if◌then◌else◌}
use remindb.Prelude.Strings.{Bytes, ◌=s◌}

module _ {ℓ} {V : Type ℓ} where
  -- `m[k]`
  unfoldable pub lookup : Bytes → List (Bytes × V) → Option V
  lookup k [] = none
  lookup k ((j, v) ∷ m) = if k =s j then some v else lookup k m

  -- `m[k] = v`
  unfoldable pub insert : Bytes → V → List (Bytes × V) → List (Bytes × V)
  insert k v [] = (k, v) ∷ []
  insert k v ((j, w) ∷ m) = if k =s j then (k, v) ∷ m else (j, w) ∷ insert k v m

  -- `delete(m, k)`
  unfoldable pub erase : Bytes → List (Bytes × V) → List (Bytes × V)
  erase k [] = []
  erase k ((j, w) ∷ m) = let rest = erase k m in if k =s j then rest else (j, w) ∷ rest

  pub lookup-insert :
      (q k : Bytes) (v : V) (m : List (Bytes × V))
      → lookup q (insert k v m) ≡ (if q =s k then some v else lookup q m)
  unfolding lookup insert
  lookup-insert q k v [] = refl
  lookup-insert q k v ((j, w) ∷ m) = ground (arith, lookup-insert q k v m)

  pub lookup-erase :
      (q k : Bytes) (m : List (Bytes × V))
      → lookup q (erase k m) ≡ (if q =s k then none else lookup q m)
  unfolding lookup erase
  lookup-erase q k [] = ground arith
  lookup-erase q k ((j, w) ∷ m) = ground (arith, lookup-erase q k m)
