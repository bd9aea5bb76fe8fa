-- ===== src/Prelude/Sorting.antt =====
-- `sort.Strings` and `sort.Slice` over a strict test, as insertion. Where the order is total the
-- sorted list is unique, so any sorting routine gives this one.
use mathlib.Core.Path.{◌≡◌, refl}
use mathlib.Core.Bool.{Bool, true, false}
use mathlib.Core.List.{List, [], ◌∷◌, Perm}
use mathlib.Core.List.Perm
use native.Mathlib.Omega.{arith}
use remindb.Prelude.Tests.{ltb, if◌then◌else◌}
use remindb.Prelude.Strings.{Bytes, ◌=s◌}
use remindb.Prelude.Lists.{All}

-- Go's `<=` on strings: bytewise, a prefix first.
unfoldable pub str_leb : Bytes → Bytes → Bool
str_leb [] t = true
str_leb (a ∷ s) [] = false
str_leb (a ∷ s) (b ∷ t) =
    let rest = str_leb s t in if ltb a b then true else if ltb b a then false else rest

unfoldable pub contains : Bytes → List Bytes → Bool
contains q [] = false
contains q (k ∷ ks) = if q =s k then true else contains q ks

module _ {ℓ} {A : Type ℓ} (le : A → A → Bool) where
  unfoldable pub insert_sorted : A → List A → List A
  insert_sorted a [] = a ∷ []
  insert_sorted a (b ∷ l) = let rest = insert_sorted a l in if le a b then a ∷ b ∷ l else b ∷ rest

  unfoldable pub sort : List A → List A
  unfolding insert_sorted
  sort [] = []
  sort (a ∷ l) = insert_sorted a (sort l)

  insert_sorted-perm : (a : A) (l : List A) → Perm (insert_sorted a l) (a ∷ l)
  unfolding insert_sorted
  insert_sorted-perm a [] = Perm.refl _
  insert_sorted-perm a (b ∷ l) = ground (
    arith,
    Perm.refl (a ∷ b ∷ l),
    Perm.trans (Perm.cons b (insert_sorted-perm a l)) (Perm.swap a b l),
  )

  -- Sorting moves entries and neither drops nor adds one.
  pub sort-perm : (l : List A) → Perm (sort l) l
  unfolding sort
  sort-perm [] = Perm.refl _
  sort-perm (a ∷ l) = Perm.trans (insert_sorted-perm a (sort l)) (Perm.cons a (sort-perm l))

  module _ {κ} (P : A → Type κ) where
    pub insert_sorted-All : (a : A) (l : List A) → P a → All P l → All P (insert_sorted a l)
    unfolding insert_sorted
    insert_sorted-All a [] p h = (p, tt)
    insert_sorted-All a (b ∷ l) p h = ground (arith, insert_sorted-All a l p h.1)

    pub sort-All : (l : List A) → All P l → All P (sort l)
    unfolding sort
    sort-All [] h = tt
    sort-All (a ∷ l) h = insert_sorted-All a (sort l) h.0 (sort-All l h.1)

module _ (le : Bytes → Bytes → Bool) where
  contains-insert_sorted :
      (q a : Bytes) (l : List Bytes)
      → contains q (insert_sorted le a l) ≡ (if q =s a then true else contains q l)
  unfolding insert_sorted contains
  contains-insert_sorted q a [] = refl
  contains-insert_sorted q a (b ∷ l) = ground (arith, contains-insert_sorted q a l)

  pub contains-sort : (q : Bytes) (l : List Bytes) → contains q (sort le l) ≡ contains q l
  unfolding sort contains
  contains-sort q [] = refl
  contains-sort q (a ∷ l) =
      ground (arith, contains-insert_sorted q a (sort le l), contains-sort q l)

-- No string twice.
abbrev pub DistinctStrings : List Bytes → Type 0
DistinctStrings [] = Unit
DistinctStrings (k ∷ ks) = (contains k ks ≡ false) × DistinctStrings ks

module _ (le : Bytes → Bytes → Bool) where
  insert_sorted-DistinctStrings :
      (a : Bytes) (l : List Bytes)
      → contains a l ≡ false
      → DistinctStrings l
      → DistinctStrings (insert_sorted le a l)
  unfolding insert_sorted contains
  insert_sorted-DistinctStrings a [] h d = (refl, tt)
  insert_sorted-DistinctStrings a (b ∷ l) h d =
      ground (arith, insert_sorted-DistinctStrings a l, contains-insert_sorted le b a l)

  pub sort-DistinctStrings : (l : List Bytes) → DistinctStrings l → DistinctStrings (sort le l)
  unfolding sort
  sort-DistinctStrings [] d = tt
  sort-DistinctStrings (a ∷ l) d =
      insert_sorted-DistinctStrings a (sort le l) (ground (arith, contains-sort le a l))
        (sort-DistinctStrings l d.1)
