-- ===== src/Query/Delta.antt =====
-- `Engine.Delta` of pkg/query/engine.go, over `GetDiffsSince` of pkg/store/snapshot.go.
pub mod Sorted
pub mod Trim
pub mod Verdict
pub mod Resume
use remindb.Prelude.{
  ℕ, zero, suc, ◌+◌, ◌-◌, ◌*◌, ◌/◌, ◌%◌, ◌≤◌, ◌<◌, min, max, ◌≡◌, refl, sym, ap, ◌∙◌, subst, ◌≢◌,
  ◌↔◌, ◌⊎◌, inl, inr, Bool, true, false, not, ◌&&◌, ◌||◌, Option, none, some, List, [], ◌∷◌, ◌++◌,
  map, append_assoc, append-nil, arith, ltb, leb, ◌==◌, if◌then◌else◌, Bool-cases, Option-cases,
  Bytes, codes, ◌=s◌, str_dec, length, get_elem?, set, take, drop, replicate, All, All-append,
  All-map, length-append,
}
use remindb.Prelude.Sorting.{sort}
use remindb.Store.Snapshots.{DiffRecord, Database, diffs_after}

-- `ORDER BY snapshot_id, id`: the table is in the order of its ids, and the sort is stable.
abbrev pub by_snapshot : DiffRecord → DiffRecord → Bool
by_snapshot a b = leb a.snapshot_id b.snapshot_id

unfoldable pub rows_since : Database → ℕ → List DiffRecord
rows_since db since = sort by_snapshot (diffs_after since db.diffs)

unfoldable pub get_diffs_since : Database → ℕ → ℕ → List DiffRecord
get_diffs_since db since limit = take limit (rows_since db since)

pub record Page : Type 0 where
  pub diffs : List DiffRecord
  pub truncated : Bool
  pub overflow : Bool

-- `diffs[i].SnapshotID`; the code reads it in bounds only.
unfoldable pub snapshot_at : List DiffRecord → ℕ → ℕ
snapshot_at diffs i = elim (get_elem? diffs i) [ none ↦ 0 | some d ↦ d.snapshot_id ]

-- `for cut > 0 && diffs[cut-1].SnapshotID == last { cut-- }`.
unfoldable pub trim : List DiffRecord → ℕ → ℕ → ℕ
unfolding snapshot_at
trim diffs last zero = zero
trim diffs last (suc cut) =
    let rest = trim diffs last cut in if snapshot_at diffs cut == last then rest else suc cut

-- What follows the query: `rows` are at most `limit + 1`.
unfoldable pub page_of : List DiffRecord → ℕ → Page
unfolding trim snapshot_at
page_of rows limit =
    let diffs = take limit rows in
    let last = snapshot_at diffs (limit - 1) in
    if leb (length rows) limit
    then record { diffs = rows; truncated = false; overflow = false }
    else if not (snapshot_at rows limit == last)
    then record { diffs = diffs; truncated = true; overflow = false }
    else if snapshot_at diffs 0 == last
    then record { diffs = diffs; truncated = true; overflow = true }
    else record { diffs = take (trim diffs last limit) diffs; truncated = true; overflow = false }

unfoldable pub delta : Database → ℕ → ℕ → Page
unfolding get_diffs_since page_of
delta db since limit =
    if limit == 0
    then record { diffs = []; truncated = false; overflow = false }
    else page_of (get_diffs_since db since (limit + 1)) limit
