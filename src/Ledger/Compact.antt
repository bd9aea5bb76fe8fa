-- ===== src/Ledger/Compact.antt =====
-- Compaction keeps the summary of a client.
use remindb.Prelude.{ℕ, ◌≡◌, refl, ap, ◌∙◌, Bool, false, Option, List, [], ◌∷◌, arith, Bytes, All}
use remindb.Prelude.Sorting.{contains, sort, insert_sorted, sort-All, DistinctStrings}
use remindb.Session.{ClientMeta, LedgerRecord}
use remindb.Ledger.{
  latest_per_session, summarize, summarize_client, connected_leb, write_records, compact,
}
use remindb.Ledger.Totals.{OfClient, summarize-sort}
use remindb.Ledger.Order.{ids_of}
use remindb.Ledger.Sessions.{Holds, latest-marshal, latest-DistinctStrings}

module _ (le : LedgerRecord → LedgerRecord → Bool) where
  contains-ids_insert :
      (q : Bytes) (r : LedgerRecord) (rs : List LedgerRecord)
      → contains q (ids_of (insert_sorted le r rs)) ≡ contains q (r.session_id ∷ ids_of rs)
  unfolding insert_sorted contains
  contains-ids_insert q r [] = refl
  contains-ids_insert q r (s ∷ rs) = ground (arith, contains-ids_insert q r rs)

  contains-ids_sort :
      (q : Bytes) (rs : List LedgerRecord)
      → contains q (ids_of (sort le rs)) ≡ contains q (ids_of rs)
  unfolding sort contains
  contains-ids_sort q [] = refl
  contains-ids_sort q (r ∷ rs) =
      ground (arith, contains-ids_insert q r (sort le rs), contains-ids_sort q rs)

  insert-DistinctStrings :
      (r : LedgerRecord) (rs : List LedgerRecord)
      → contains r.session_id (ids_of rs) ≡ false
      → DistinctStrings (ids_of rs)
      → DistinctStrings (ids_of (insert_sorted le r rs))
  unfolding insert_sorted contains
  insert-DistinctStrings r [] h d = (refl, tt)
  insert-DistinctStrings r (s ∷ rs) h d =
      ground (arith, insert-DistinctStrings r rs, contains-ids_insert s.session_id r rs)

  sort-DistinctIds :
      (rs : List LedgerRecord) → DistinctStrings (ids_of rs) → DistinctStrings (ids_of (sort le rs))
  unfolding sort
  sort-DistinctIds [] d = tt
  sort-DistinctIds (r ∷ rs) d =
      insert-DistinctStrings r (sort le rs) (contains-ids_sort r.session_id rs ∙ d.0)
        (sort-DistinctIds rs d.1)

latest-write_records :
    (marshal : LedgerRecord → Bytes) (unmarshal : Bytes → Option LedgerRecord) (lines : List Bytes)
    (rs : List LedgerRecord)
    → latest_per_session unmarshal lines ≡ rs
    → All (Holds unmarshal marshal) rs
    → DistinctStrings (ids_of rs)
    → latest_per_session unmarshal (write_records marshal lines rs) ≡ sort connected_leb rs
latest-write_records marshal unmarshal lines [] e h d = unfold sort in e
latest-write_records marshal unmarshal lines (r ∷ rs) e h d =
    latest-marshal unmarshal marshal (sort connected_leb (r ∷ rs))
      (sort-All connected_leb (Holds unmarshal marshal) (r ∷ rs) h)
      (sort-DistinctIds connected_leb (r ∷ rs) d)

-- Compacting the file of a client does not change what `summarizeClient` tells of it, whatever its
-- lines: repeated checkpoints, empty or corrupt lines, or a line too long to be read. The last
-- records of its sessions name one client and transport, as those of one file do, and each of them
-- has a line of less than a mebibyte that is read back as this record.
pub compact-summarize_client :
    (xxhash : Bytes → ℕ) (marshal : LedgerRecord → Bytes) (unmarshal : Bytes → Option LedgerRecord)
    (lines : List Bytes) (c : ClientMeta) (transport : Bytes)
    → All (Holds unmarshal marshal) (latest_per_session unmarshal lines)
    → All (OfClient c transport) (latest_per_session unmarshal lines)
    → summarize_client xxhash unmarshal (compact marshal unmarshal lines)
      ≡ summarize_client xxhash unmarshal lines
compact-summarize_client xxhash marshal unmarshal lines c transport holds same =
    let rs = latest_per_session unmarshal lines in
    unfold summarize_client compact in
    (ap (summarize xxhash) (
        latest-write_records marshal unmarshal lines rs refl holds
          (latest-DistinctStrings unmarshal lines))
      ∙ summarize-sort xxhash connected_leb c transport rs same)
