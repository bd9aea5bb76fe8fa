-- ===== src/Query/Delta/Sorted.antt =====
-- The rows of `GetDiffsSince` in the order of their snapshots.
use remindb.Prelude.{
  ℕ, zero, suc, ◌≤◌, ◌<◌, ◌≡◌, refl, sym, ap, ◌∙◌, List, [], ◌∷◌, arith, ltb, if◌then◌else◌, length,
  drop, All, All-map,
}
use remindb.Prelude.Sorting.{sort, insert_sorted, sort-All}
use remindb.Store.Snapshots.{DiffRecord, Database, diffs_after}
use remindb.Query.Delta.{by_snapshot, rows_since, snapshot_at}

-- Snapshot ids do not fall along the rows.
abbrev pub From : ℕ → List DiffRecord → Type 0
From b = All (λ d. b ≤ d.snapshot_id)

abbrev pub IsSorted : List DiffRecord → Type 0
IsSorted [] = Unit
IsSorted (d ∷ l) = From d.snapshot_id l × IsSorted l

From-le : (a b : ℕ) (l : List DiffRecord) → a ≤ b → From b l → From a l
From-le a b l h f = All-map (λ d g. omega arith) l f

insert_sorted-From :
    (b : ℕ) (d : DiffRecord) (l : List DiffRecord)
    → b ≤ d.snapshot_id
    → From b l
    → From b (insert_sorted by_snapshot d l)
unfolding insert_sorted
insert_sorted-From b d [] h f = (h, tt)
insert_sorted-From b d (x ∷ l) h f = ground (arith, insert_sorted-From b d l h f.1)

insert_sorted-IsSorted :
    (d : DiffRecord) (l : List DiffRecord) → IsSorted l → IsSorted (insert_sorted by_snapshot d l)
unfolding insert_sorted
insert_sorted-IsSorted d [] s = (tt, tt)
insert_sorted-IsSorted d (x ∷ l) s = ground (
  arith,
  insert_sorted-From x.snapshot_id d l,
  insert_sorted-IsSorted d l s.1,
  From-le d.snapshot_id x.snapshot_id l,
)

pub rows-IsSorted : (l : List DiffRecord) → IsSorted (sort by_snapshot l)
unfolding sort
rows-IsSorted [] = tt
rows-IsSorted (d ∷ l) = insert_sorted-IsSorted d (sort by_snapshot l) (rows-IsSorted l)

-- Filtering by the snapshot and sorting commute.
insert_sorted-after :
    (b : ℕ) (d : DiffRecord) (l : List DiffRecord)
    → IsSorted l
    → diffs_after b (insert_sorted by_snapshot d l) ≡ (
        if ltb b d.snapshot_id
        then insert_sorted by_snapshot d (diffs_after b l)
        else diffs_after b l)
unfolding insert_sorted diffs_after
insert_sorted-after b d [] s = refl
insert_sorted-after b d (x ∷ l) s = ground (arith, insert_sorted-after b d l s.1)

sort-after :
    (b : ℕ) (l : List DiffRecord)
    → diffs_after b (sort by_snapshot l) ≡ sort by_snapshot (diffs_after b l)
unfolding sort diffs_after
sort-after b [] = refl
sort-after b (d ∷ l) =
    ground (arith, insert_sorted-after b d (sort by_snapshot l) (rows-IsSorted l), sort-after b l)

after-after :
    (a b : ℕ) (l : List DiffRecord) → a ≤ b → diffs_after b (diffs_after a l) ≡ diffs_after b l
unfolding diffs_after
after-after a b [] h = refl
after-after a b (d ∷ l) h = ground (arith, after-after a b l h)

-- A later page reads from the same rows.
pub rows_since_later :
    (db : Database) (a b : ℕ) → a ≤ b → rows_since db b ≡ diffs_after b (rows_since db a)
unfolding rows_since
rows_since_later db a b h =
    ap (sort by_snapshot) (sym (after-after a b db.diffs h))
    ∙ sym (sort-after b (diffs_after a db.diffs))

diffs_after-From : (b : ℕ) (l : List DiffRecord) → From (suc b) (diffs_after b l)
unfolding diffs_after
diffs_after-From b [] = tt
diffs_after-From b (d ∷ l) = ground (arith, diffs_after-From b l)

pub rows-From : (db : Database) (since : ℕ) → From (suc since) (rows_since db since)
unfolding rows_since
rows-From db since =
    sort-All by_snapshot (λ d. suc since ≤ d.snapshot_id) (diffs_after since db.diffs)
      (diffs_after-From since db.diffs)

after-All : (b : ℕ) (l : List DiffRecord) → All (λ d. b < d.snapshot_id) l → diffs_after b l ≡ l
unfolding diffs_after
after-All b [] h = refl
after-All b (d ∷ l) h = ground (arith, after-All b l h.1)

pub From-at : (b : ℕ) (l : List DiffRecord) (i : ℕ) → From b l → i < length l → b ≤ snapshot_at l i
unfolding snapshot_at
From-at b [] i f h = absurd (omega arith)
From-at b (d ∷ l) zero f h = f.0
From-at b (d ∷ l) (suc i) f h = From-at b l i f.1 (omega arith)

-- The rows after the snapshot of row `c` are those behind it, where the next row is of a later one.
pub after_boundary :
    (l : List DiffRecord) (c : ℕ)
    → IsSorted l
    → suc c < length l
    → snapshot_at l c < snapshot_at l (suc c)
    → diffs_after (snapshot_at l c) l ≡ drop (suc c) l
unfolding snapshot_at diffs_after
after_boundary [] c s h b = absurd (omega arith)
after_boundary (d ∷ []) c s h b = absurd (omega arith)
after_boundary (d ∷ e ∷ l) zero s h b =
    ground (arith, after-All d.snapshot_id (e ∷ l) (b, All-map (λ x g. omega (arith, b)) l s.1.0))
after_boundary (d ∷ e ∷ l) (suc c) s h b =
    ground (arith, after_boundary (e ∷ l) c s.1, From-at d.snapshot_id (e ∷ l) c s.0)
