-- ===== src/Ledger/Order.antt =====
-- The loop over the lines of a file keeps one record for each session, in the order of their first lines.
use remindb.Prelude.{
  ◌≡◌, refl, sym, ap, ◌∙◌, subst, inl, inr, Bool, true, false, not, Option, none, some, List, [],
  ◌∷◌, ◌++◌, map, arith, if◌then◌else◌, Option-cases, Bytes, ◌=s◌, All, All-append,
}
use remindb.Prelude.Assoc.{lookup, insert}
use mathlib.Core.List.{map-append}
use remindb.Prelude.Sorting.{contains, DistinctStrings}
use remindb.Session.{LedgerRecord}
use remindb.Ledger.{Latest, note_record, note_found}

abbrev pub ids_of : List LedgerRecord → List Bytes
ids_of rs = map (λ (r : LedgerRecord). r.session_id) rs

abbrev pub keys_of : List (Bytes × LedgerRecord) → List Bytes
keys_of m = map (λ (e : Bytes × LedgerRecord). e.0) m

abbrev pub values_of : List (Bytes × LedgerRecord) → List LedgerRecord
values_of m = map (λ (e : Bytes × LedgerRecord). e.1) m

-- Every record stands under its session.
abbrev pub KeyedRecords : List (Bytes × LedgerRecord) → Type 0
KeyedRecords m = All (λ (e : Bytes × LedgerRecord). e.0 ≡ e.1.session_id) m

-- The order of the loop is that of the keys, which are distinct.
pub record Ordered (l : Latest) : Type 0 where
  pub keys : l.order ≡ keys_of l.by_session
  pub distinct : DistinctStrings l.order
  pub keyed : KeyedRecords l.by_session

abbrev is_none {ℓ} : {A : Type ℓ} → Option A → Bool
is_none none = true
is_none (some a) = false

contains-keys :
    (q : Bytes) (m : List (Bytes × LedgerRecord))
    → contains q (keys_of m) ≡ not (is_none (lookup q m))
unfolding contains lookup
contains-keys q [] = refl
contains-keys q ((k, r) ∷ m) = ground (arith, contains-keys q m)

keys-insert_new :
    (k : Bytes) (r : LedgerRecord) (m : List (Bytes × LedgerRecord))
    → lookup k m ≡ none
    → insert k r m ≡ m ++ (k, r) ∷ []
unfolding lookup insert
keys-insert_new k r [] h = refl
keys-insert_new k r ((j, s) ∷ m) h = ground (arith, keys-insert_new k r m)

keys-insert_old :
    (k : Bytes) (r old : LedgerRecord) (m : List (Bytes × LedgerRecord))
    → lookup k m ≡ some old
    → keys_of (insert k r m) ≡ keys_of m
unfolding lookup insert
keys-insert_old k r old [] h = cc
keys-insert_old k r old ((j, s) ∷ m) h = ground (arith, keys-insert_old k r old m)

insert-KeyedRecords :
    (r : LedgerRecord) (m : List (Bytes × LedgerRecord))
    → KeyedRecords m
    → KeyedRecords (insert r.session_id r m)
unfolding insert
insert-KeyedRecords r [] h = (refl, tt)
insert-KeyedRecords r ((j, s) ∷ m) h = ground (arith, insert-KeyedRecords r m h.1)

contains-snoc :
    (q k : Bytes) (l : List Bytes)
    → contains k (l ++ q ∷ []) ≡ (if contains k l then true else k =s q)
unfolding contains
contains-snoc q k [] = ground arith
contains-snoc q k (j ∷ l) = ground (arith, contains-snoc q k l)

DistinctStrings-snoc :
    (q : Bytes) (l : List Bytes)
    → contains q l ≡ false
    → DistinctStrings l
    → DistinctStrings (l ++ q ∷ [])
unfolding contains
DistinctStrings-snoc q [] h d = (refl, tt)
DistinctStrings-snoc q (k ∷ l) h d =
    (ground (arith, contains-snoc q k l, h, d.0), DistinctStrings-snoc q l (ground arith) d.1)

pub note_record-new :
    (r : LedgerRecord) (l : Latest)
    → lookup r.session_id l.by_session ≡ none
    → note_record r l ≡ record {
      by_session = l.by_session ++ (r.session_id, r) ∷ [];
      order = l.order ++ r.session_id ∷ [];
    }
unfolding note_record
note_record-new r l new = ground (arith, new, keys-insert_new r.session_id r l.by_session new)

note_record-Ordered : (r : LedgerRecord) (l : Latest) → Ordered l → Ordered (note_record r l)
note_record-Ordered r l o = elim (Option-cases (lookup r.session_id l.by_session)) [
  | inl new ↦ subst Ordered (sym (note_record-new r l new)) (record {
    keys =
        rw (map-append (λ (e : Bytes × LedgerRecord). e.0) l.by_session ((r.session_id, r) ∷ []))
          (ap (λ (ks : List Bytes). ks ++ r.session_id ∷ []) o.keys);
    distinct =
        DistinctStrings-snoc r.session_id l.order
          (rw o.keys (rw (contains-keys r.session_id l.by_session) (rw new refl))) o.distinct;
    keyed = All-append _ l.by_session ((r.session_id, r) ∷ []) o.keyed (refl, tt);
  })
  | inr (old, found) ↦
      unfold note_record in
      rw found (record {
        keys = o.keys ∙ sym (keys-insert_old r.session_id r old l.by_session found);
        distinct = o.distinct;
        keyed = insert-KeyedRecords r l.by_session o.keyed;
      })
]

pub if-Ordered : (b : Bool) (x y : Latest) → Ordered x → Ordered y → Ordered (if b then x else y)
if-Ordered true x y hx hy = hx
if-Ordered false x y hx hy = hy

pub note_found-Ordered :
    (found : Option LedgerRecord) (l : Latest) → Ordered l → Ordered (note_found found l)
unfolding note_found
note_found-Ordered none l o = o
note_found-Ordered (some r) l o = note_record-Ordered r l o
