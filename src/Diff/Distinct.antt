-- ===== src/Diff/Distinct.antt =====
-- pkg/diff makes at most one delta for an id.
use remindb.Diff.{Delta, States, seen, find, changes, gone, removals, diff_flat}
use remindb.Diff.Patch.{Distinct, contains-gone}
use remindb.Prelude.{
  ◌≡◌, refl, ◌∙◌, Bool, true, false, none, some, List, [], ◌∷◌, ◌++◌, arith, if◌then◌else◌, Bytes,
  ◌=s◌, All, All-map,
}
use remindb.Parser.Ast.{ContextNode}
use remindb.Prelude.Assoc.{lookup}
use remindb.Prelude.Sorting.{
  contains, sort, str_leb, contains-sort, DistinctStrings, sort-DistinctStrings,
}
use remindb.Diff.Genuine.{find_self}

-- An id that some delta of the list is about.
unfoldable pub touched : Bytes → List Delta → Bool
touched q [] = false
touched q (d ∷ ds) = if q =s d.node_id then true else touched q ds

abbrev pub DistinctDeltas : List Delta → Type 0
DistinctDeltas [] = Unit
DistinctDeltas (d ∷ ds) = (touched d.node_id ds ≡ false) × DistinctDeltas ds

touched-append :
    (q : Bytes) (xs ys : List Delta)
    → touched q (xs ++ ys) ≡ (if touched q xs then true else touched q ys)
unfolding touched
touched-append q [] ys = refl
touched-append q (d ∷ xs) ys = ground (arith, touched-append q xs ys)

touched-changes_unseen :
    (q : Bytes) (prev : States) (flat : List ContextNode)
    → seen q flat ≡ false
    → touched q (changes prev flat) ≡ false
unfolding touched changes seen
touched-changes_unseen q prev [] h = refl
touched-changes_unseen q prev (n ∷ flat) h = ground (arith, touched-changes_unseen q prev flat)

changes-DistinctDeltas :
    (prev : States) (flat : List ContextNode) → Distinct flat → DistinctDeltas (changes prev flat)
unfolding changes
changes-DistinctDeltas prev [] d = tt
changes-DistinctDeltas prev (n ∷ flat) d =
    ground (arith, touched-changes_unseen n.id prev flat d.0, changes-DistinctDeltas prev flat d.1)

touched-removals :
    (q : Bytes) (prev : States) (ids : List Bytes) → touched q (removals prev ids) ≡ contains q ids
unfolding touched removals contains
touched-removals q prev [] = refl
touched-removals q prev (id ∷ ids) = ground (arith, touched-removals q prev ids)

removals-DistinctDeltas :
    (prev : States) (ids : List Bytes) → DistinctStrings ids → DistinctDeltas (removals prev ids)
unfolding removals
removals-DistinctDeltas prev [] d = tt
removals-DistinctDeltas prev (id ∷ ids) d =
    (touched-removals id prev ids ∙ d.0, removals-DistinctDeltas prev ids d.1)

-- The keys of a map are distinct.
abbrev pub IsMap {ℓ} : {V : Type ℓ} → List (Bytes × V) → Type ℓ
IsMap [] = Unit
IsMap ((k, v) ∷ m) = (lookup k m ≡ none) × IsMap m

gone-DistinctStrings :
    (flat : List ContextNode) (prev : States) → IsMap prev → DistinctStrings (gone flat prev)
unfolding gone
gone-DistinctStrings flat [] m = tt
gone-DistinctStrings flat ((id, s) ∷ prev) m =
    ground (arith, contains-gone id flat prev, gone-DistinctStrings flat prev m.1)

pub append-DistinctDeltas :
    (xs ys : List Delta)
    → DistinctDeltas xs
    → DistinctDeltas ys
    → All (λ d. touched d.node_id ys ≡ false) xs
    → DistinctDeltas (xs ++ ys)
append-DistinctDeltas [] ys dx dy h = dy
append-DistinctDeltas (d ∷ xs) ys dx dy h =
    (ground (arith, touched-append d.node_id xs ys), append-DistinctDeltas xs ys dx.1 dy h.1)

changes-not-gone :
    (prev : States) (flat ns : List ContextNode)
    → All (λ n. find n.id flat ≡ some n) ns
    → All (λ d. contains d.node_id (gone flat prev) ≡ false) (changes prev ns)
unfolding changes
changes-not-gone prev flat [] h = tt
changes-not-gone prev flat (n ∷ ns) h =
    ground (arith, contains-gone n.id flat prev, changes-not-gone prev flat ns h.1)

-- `DiffFlat` has at most one delta for an id, where the nodes have distinct ids and the previous
-- state is a map.
pub diff_flat-DistinctDeltas :
    (flat : List ContextNode) (prev : States)
    → Distinct flat
    → IsMap prev
    → DistinctDeltas (diff_flat flat prev)
unfolding diff_flat
diff_flat-DistinctDeltas flat prev d m =
    let ids = sort str_leb (gone flat prev) in
    append-DistinctDeltas (changes prev flat) (removals prev ids)
      (changes-DistinctDeltas prev flat d)
      (removals-DistinctDeltas prev ids
        (sort-DistinctStrings str_leb _ (gone-DistinctStrings flat prev m)))
      (All-map
        (λ x e. touched-removals x.node_id prev ids ∙ contains-sort str_leb _ (gone flat prev) ∙ e)
        (changes prev flat) (changes-not-gone prev flat flat (find_self flat d)))
