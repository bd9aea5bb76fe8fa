-- ===== src/Tools/Rollback/Sorted.antt =====
-- Sorting the deltas of a rollback keeps the one about an id.
use remindb.Prelude.{◌≡◌, refl, ◌∙◌, false, none, some, List, [], ◌∷◌, ◌++◌, arith, Bytes}
use remindb.Prelude.Sorting.{sort, insert_sorted}
use remindb.Diff.{Delta}
use remindb.Diff.Distinct.{DistinctDeltas, touched}
use remindb.Emitter.Closed.{find_delta}
use remindb.Tools.Rollback.{by_node}

pub find-append :
    (q : Bytes) (ds es : List Delta)
    → find_delta q (ds ++ es) ≡ elim (find_delta q ds) [ none ↦ find_delta q es | some d ↦ some d ]
unfolding find_delta
find-append q [] es = refl
find-append q (d ∷ ds) es = ground (arith, find-append q ds es)

touched-insert :
    (q : Bytes) (d : Delta) (ds : List Delta)
    → touched q (insert_sorted by_node d ds) ≡ touched q (d ∷ ds)
unfolding insert_sorted touched
touched-insert q d [] = refl
touched-insert q d (e ∷ ds) = ground (arith, touched-insert q d ds)

touched-sort : (q : Bytes) (ds : List Delta) → touched q (sort by_node ds) ≡ touched q ds
unfolding sort touched
touched-sort q [] = refl
touched-sort q (d ∷ ds) = ground (arith, touched-insert q d (sort by_node ds), touched-sort q ds)

insert-DistinctDeltas :
    (d : Delta) (ds : List Delta)
    → touched d.node_id ds ≡ false
    → DistinctDeltas ds
    → DistinctDeltas (insert_sorted by_node d ds)
unfolding insert_sorted touched
insert-DistinctDeltas d [] h dd = (refl, tt)
insert-DistinctDeltas d (e ∷ ds) h dd =
    ground (arith, insert-DistinctDeltas d ds, touched-insert e.node_id d ds)

pub sort-DistinctDeltas : (ds : List Delta) → DistinctDeltas ds → DistinctDeltas (sort by_node ds)
unfolding sort
sort-DistinctDeltas [] dd = tt
sort-DistinctDeltas (d ∷ ds) dd =
    insert-DistinctDeltas d (sort by_node ds) (touched-sort d.node_id ds ∙ dd.0)
      (sort-DistinctDeltas ds dd.1)

find-insert :
    (q : Bytes) (d : Delta) (ds : List Delta)
    → touched d.node_id ds ≡ false
    → find_delta q (insert_sorted by_node d ds) ≡ find_delta q (d ∷ ds)
unfolding insert_sorted touched find_delta
find-insert q d [] h = refl
find-insert q d (e ∷ ds) h = ground (arith, find-insert q d ds)

pub find-sort :
    (q : Bytes) (ds : List Delta)
    → DistinctDeltas ds
    → find_delta q (sort by_node ds) ≡ find_delta q ds
unfolding sort find_delta
find-sort q [] dd = refl
find-sort q (d ∷ ds) dd = ground (
  arith,
  find-insert q d (sort by_node ds) (touched-sort d.node_id ds ∙ dd.0),
  find-sort q ds dd.1,
)
