-- ===== src/Ledger/Sessions.antt =====
-- The records that are read from a file: one for each session, the last of its lines.
use remindb.Prelude.{
  ℕ, ◌<◌, ◌≡◌, refl, sym, ap, ◌∙◌, subst, ◌≢◌, false, Option, none, some, List, [], ◌∷◌, ◌++◌, map,
  append_assoc, append-nil, arith, leb, Bytes, ◌=s◌, length, All, All-map, All-zip, All-pure,
}
use remindb.Prelude.Assoc.{lookup}
use remindb.Prelude.Sorting.{contains, DistinctStrings}
use remindb.Session.{LedgerRecord}
use remindb.Ledger.{
  Latest, note_record, note_found, note_line, no_sessions, record_at, scan_lines,
  latest_per_session, scan_max_line,
}
use remindb.Ledger.Order.{
  keys_of, ids_of, Ordered, values_of, if-Ordered, note_record-new, note_found-Ordered,
  KeyedRecords,
}

map-record_at_cons :
    (k : Bytes) (r : LedgerRecord) (m : List (Bytes × LedgerRecord)) (ks : List Bytes)
    → contains k ks ≡ false
    → map (record_at ((k, r) ∷ m)) ks ≡ map (record_at m) ks
unfolding contains lookup
map-record_at_cons k r m [] h = refl
map-record_at_cons k r m (j ∷ ks) h =
    let rest = map-record_at_cons k r m ks (ground arith) in
    let head : record_at ((k, r) ∷ m) j ≡ record_at m j = ground (arith, h) in cc

pub record_at_self :
    (k : Bytes) (r : LedgerRecord) (m : List (Bytes × LedgerRecord)) → record_at ((k, r) ∷ m) k ≡ r
unfolding lookup
record_at_self k r m = ground arith

-- The records in the order of their sessions are the values of the map.
map-record_at :
    (m : List (Bytes × LedgerRecord))
    → DistinctStrings (keys_of m)
    → map (record_at m) (keys_of m) ≡ values_of m
map-record_at [] d = refl
map-record_at ((k, r) ∷ m) d =
    let head = record_at_self k r m in
    let rest = map-record_at_cons k r m (keys_of m) d.0 ∙ map-record_at m d.1 in cc

ids-values : (m : List (Bytes × LedgerRecord)) → KeyedRecords m → ids_of (values_of m) ≡ keys_of m
ids-values [] h = refl
ids-values ((k, r) ∷ m) h = let rest = ids-values m h.1 in let own = h.0 in cc

other_sessions :
    (id : Bytes) (rs : List LedgerRecord)
    → contains id (ids_of rs) ≡ false
    → All (λ (r : LedgerRecord). (r.session_id =s id) ≡ false) rs
unfolding contains
other_sessions id [] h = tt
other_sessions id (r ∷ rs) h = ground (arith, other_sessions id rs)

leb-false : (a b : ℕ) → b < a → leb a b ≡ false
leb-false a b h = ground arith

module _ (unmarshal : Bytes → Option LedgerRecord) where
  scan_lines-Ordered :
      (lines : List Bytes) (l : Latest) → Ordered l → Ordered (scan_lines unmarshal lines l)
  unfolding scan_lines
  scan_lines-Ordered [] l o = o
  scan_lines-Ordered (raw ∷ lines) l o = if-Ordered (leb scan_max_line (length raw)) l _ o (
      scan_lines-Ordered lines (note_line unmarshal raw l) (
        if-Ordered (raw =s []) l (note_found (unmarshal raw) l) o
          (note_found-Ordered (unmarshal raw) l o)))

  no_sessions-Ordered : Ordered no_sessions
  no_sessions-Ordered = record { keys = refl; distinct = tt; keyed = tt }

  latest-values :
      (lines : List Bytes)
      → latest_per_session unmarshal lines
        ≡ values_of (scan_lines unmarshal lines no_sessions).by_session
  unfolding latest_per_session
  latest-values lines =
      let l = scan_lines unmarshal lines no_sessions in
      let o = scan_lines-Ordered lines no_sessions no_sessions-Ordered in
      ap (map (record_at l.by_session)) o.keys
      ∙ map-record_at l.by_session (subst DistinctStrings o.keys o.distinct)

  -- No session has two records.
  pub latest-DistinctStrings :
      (lines : List Bytes) → DistinctStrings (ids_of (latest_per_session unmarshal lines))
  latest-DistinctStrings lines =
      let l = scan_lines unmarshal lines no_sessions in
      let o = scan_lines-Ordered lines no_sessions no_sessions-Ordered in
      rw (latest-values lines)
        (rw (ids-values l.by_session o.keyed) (subst DistinctStrings o.keys o.distinct))

  -- A line that holds a record.
  abbrev pub Holds : (LedgerRecord → Bytes) → LedgerRecord → Type 0
  Holds marshal r =
      (unmarshal (marshal r) ≡ some r) × (marshal r ≢ []) × (length (marshal r) < scan_max_line)

  abbrev entries_of : List LedgerRecord → List (Bytes × LedgerRecord)
  entries_of rs = map (λ (r : LedgerRecord). (r.session_id, r)) rs

  note_line-Holds :
      (marshal : LedgerRecord → Bytes) (r : LedgerRecord) (l : Latest)
      → Holds marshal r
      → note_line unmarshal (marshal r) l ≡ note_record r l
  unfolding note_line
  note_line-Holds marshal r l (read, full, short) = rw read (ground (arith, full))

  lookup-snoc :
      (q k : Bytes) (r : LedgerRecord) (m : List (Bytes × LedgerRecord))
      → lookup q m ≡ none
      → (q =s k) ≡ false
      → lookup q (m ++ (k, r) ∷ []) ≡ none
  unfolding lookup
  lookup-snoc q k r [] h ne = ground arith
  lookup-snoc q k r ((j, s) ∷ m) h ne = ground (arith, lookup-snoc q k r m)

  abbrev Unlisted : List (Bytes × LedgerRecord) → List LedgerRecord → Type 0
  Unlisted m rs = All (λ (r : LedgerRecord). lookup r.session_id m ≡ none) rs

  -- Records of distinct sessions are read back one behind the other.
  scan_lines-marshal :
      (marshal : LedgerRecord → Bytes) (rs : List LedgerRecord) (l : Latest)
      → All (Holds marshal) rs
      → DistinctStrings (ids_of rs)
      → Unlisted l.by_session rs
      → scan_lines unmarshal (map marshal rs) l
        ≡ record { by_session = l.by_session ++ entries_of rs; order = l.order ++ ids_of rs }
  unfolding scan_lines
  scan_lines-marshal marshal [] l h d u = simp append-nil
  scan_lines-marshal marshal (r ∷ rs) l h d u =
      let short : leb scan_max_line (length (marshal r)) ≡ false = leb-false _ _ h.0.2 in
      let noted = note_line-Holds marshal r l h.0 ∙ note_record-new r l u.0 in
      let l' : Latest = record {
        by_session = l.by_session ++ (r.session_id, r) ∷ [];
        order = l.order ++ r.session_id ∷ [];
      } in
      let unlisted =
        All-map
          (λ (s : LedgerRecord) h.
            let (old, other) = h in lookup-snoc s.session_id r.session_id r l.by_session old other)
          rs (All-zip _ _ rs u.1 (other_sessions r.session_id rs d.0)) in
      rw short (
        ap (scan_lines unmarshal (map marshal rs)) noted
        ∙ scan_lines-marshal marshal rs l' h.1 d.1 unlisted
        ∙ simp append_assoc)

  keys_of-entries : (rs : List LedgerRecord) → keys_of (entries_of rs) ≡ ids_of rs
  keys_of-entries [] = refl
  keys_of-entries (r ∷ rs) = ap (λ l. r.session_id ∷ l) (keys_of-entries rs)

  values_of-entries : (rs : List LedgerRecord) → values_of (entries_of rs) ≡ rs
  values_of-entries [] = refl
  values_of-entries (r ∷ rs) = ap (λ l. r ∷ l) (values_of-entries rs)

  -- What is written for records of distinct sessions is read back.
  pub latest-marshal :
      (marshal : LedgerRecord → Bytes) (rs : List LedgerRecord)
      → All (Holds marshal) rs
      → DistinctStrings (ids_of rs)
      → latest_per_session unmarshal (map marshal rs) ≡ rs
  unfolding latest_per_session lookup
  latest-marshal marshal rs h d =
      rw (scan_lines-marshal marshal rs no_sessions h d (All-pure _ (λ r. refl) rs)) (
        ap (map (record_at (entries_of rs))) (sym (keys_of-entries rs))
        ∙ map-record_at (entries_of rs) (rw (keys_of-entries rs) d)
        ∙ values_of-entries rs)
