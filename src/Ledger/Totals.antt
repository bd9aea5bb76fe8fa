-- ===== src/Ledger/Totals.antt =====
-- The summary of a client whose records all name it, in any order.
use remindb.Prelude.{
  ℕ, suc, ◌+◌, ◌-◌, ◌<◌, max, ◌≡◌, refl, sym, ap, ◌∙◌, Bool, true, false, Option, none, some, List,
  [], ◌∷◌, arith, ◌==◌, if◌then◌else◌, Bytes, length, All,
}
use remindb.Session.{ClientMeta, LedgerRecord}
use remindb.Ledger.{
  ClientLedger, client_hash, summarize_loop, empty_ledger, summarize, named, is_newest, counted,
}
use remindb.Prelude.Sorting.{sort, insert_sorted, sort-All}

-- How long a session has lasted.
abbrev lasted : LedgerRecord → ℕ
lasted r = (if r.disconnected_at == 0 then r.last_seen else r.disconnected_at) - r.connected_at

unfoldable total : (LedgerRecord → ℕ) → List LedgerRecord → ℕ
total f [] = 0
total f (r ∷ rs) = f r + total f rs

unfoldable latest : (LedgerRecord → ℕ) → List LedgerRecord → ℕ
latest f [] = 0
latest f (r ∷ rs) = max (f r) (latest f rs)

abbrev pub OfClient : ClientMeta → Bytes → LedgerRecord → Type 0
OfClient c transport r = (r.client ≡ c) × (r.transport ≡ transport)

abbrev plus_totals : ClientMeta → Bytes → ClientLedger → List LedgerRecord → ClientLedger
plus_totals c transport cl rs = record cl {
  client = c;
  transport = transport;
  lifetime_seconds = cl.lifetime_seconds + total lasted rs;
  tool_calls = cl.tool_calls + total (λ r. r.tool_calls) rs;
  last_disconnect = max cl.last_disconnect (latest (λ r. r.disconnected_at) rs);
}

module _ (c : ClientMeta) (transport : Bytes) where
  named-OfClient :
      (b : Bool) (r : LedgerRecord) (cl : ClientLedger)
      → OfClient c transport r
      → cl.client ≡ c
      → cl.transport ≡ transport
      → ((named b r cl).client ≡ c) × ((named b r cl).transport ≡ transport)
  named-OfClient true r cl o hc ht = o
  named-OfClient false r cl o hc ht = (hc, ht)

  plus_totals-named :
      (b : Bool) (r : LedgerRecord) (cl : ClientLedger) (rs : List LedgerRecord)
      → plus_totals c transport (named b r (counted r cl)) rs ≡ plus_totals c transport cl (r ∷ rs)
  unfolding total latest
  plus_totals-named true r cl rs = ground arith
  plus_totals-named false r cl rs = ground arith

  summarize_loop-totals :
      (newest : Option ℕ) (cl : ClientLedger) (rs : List LedgerRecord)
      → All (OfClient c transport) rs
      → cl.client ≡ c
      → cl.transport ≡ transport
      → summarize_loop newest cl rs ≡ plus_totals c transport cl rs
  unfolding summarize_loop total latest
  summarize_loop-totals newest cl [] h hc ht = ground arith
  summarize_loop-totals newest cl (r ∷ rs) h hc ht =
      let b = is_newest newest r in
      let (hc', ht') = named-OfClient b r (counted r cl) h.0 hc ht in
      summarize_loop-totals (if b then some r.last_seen else newest) (named b r (counted r cl)) rs
        h.1 hc' ht'
      ∙ plus_totals-named b r cl rs

  -- The first record names the client.
  summarize_loop-first :
      (cl : ClientLedger) (r : LedgerRecord) (rs : List LedgerRecord)
      → All (OfClient c transport) (r ∷ rs)
      → summarize_loop none cl (r ∷ rs) ≡ plus_totals c transport cl (r ∷ rs)
  unfolding summarize_loop
  summarize_loop-first cl r rs h =
      summarize_loop-totals (some r.last_seen) (named true r (counted r cl)) rs h.1 h.0.0 h.0.1
      ∙ plus_totals-named true r cl rs

module _ (le : LedgerRecord → LedgerRecord → Bool) where
  total-insert_sorted :
      (f : LedgerRecord → ℕ) (r : LedgerRecord) (rs : List LedgerRecord)
      → total f (insert_sorted le r rs) ≡ f r + total f rs
  unfolding total insert_sorted
  total-insert_sorted f r [] = refl
  total-insert_sorted f r (s ∷ rs) = ground (arith, total-insert_sorted f r rs)

  latest-insert_sorted :
      (f : LedgerRecord → ℕ) (r : LedgerRecord) (rs : List LedgerRecord)
      → latest f (insert_sorted le r rs) ≡ max (f r) (latest f rs)
  unfolding latest insert_sorted
  latest-insert_sorted f r [] = refl
  latest-insert_sorted f r (s ∷ rs) = ground (arith, latest-insert_sorted f r rs)

  length-insert_sorted :
      (r : LedgerRecord) (rs : List LedgerRecord) → length (insert_sorted le r rs) ≡ suc (length rs)
  unfolding insert_sorted
  length-insert_sorted r [] = refl
  length-insert_sorted r (s ∷ rs) = ground (arith, length-insert_sorted r rs)

  total-sort : (f : LedgerRecord → ℕ) (rs : List LedgerRecord) → total f (sort le rs) ≡ total f rs
  unfolding total sort
  total-sort f [] = refl
  total-sort f (r ∷ rs) = omega (arith, total-insert_sorted f r (sort le rs), total-sort f rs)

  latest-sort :
      (f : LedgerRecord → ℕ) (rs : List LedgerRecord) → latest f (sort le rs) ≡ latest f rs
  unfolding latest sort
  latest-sort f [] = refl
  latest-sort f (r ∷ rs) = omega (arith, latest-insert_sorted f r (sort le rs), latest-sort f rs)

  length-sort : (rs : List LedgerRecord) → length (sort le rs) ≡ length rs
  unfolding sort
  length-sort [] = refl
  length-sort (r ∷ rs) = omega (arith, length-insert_sorted r (sort le rs), length-sort rs)

-- The summary does not depend on the order of the records.
abbrev sum_up : (Bytes → ℕ) → ClientMeta → Bytes → List LedgerRecord → ClientLedger
sum_up xxhash c transport rs = record (plus_totals c transport (empty_ledger (length rs)) rs) {
  hash = client_hash xxhash c transport;
}

summarize-sum_up :
    (xxhash : Bytes → ℕ) (c : ClientMeta) (transport : Bytes) (r : LedgerRecord)
    (rs : List LedgerRecord)
    → All (OfClient c transport) (r ∷ rs)
    → summarize xxhash (r ∷ rs) ≡ some (sum_up xxhash c transport (r ∷ rs))
unfolding summarize
summarize-sum_up xxhash c transport r rs h =
    ap
      (λ (cl : ClientLedger). some (record cl { hash = client_hash xxhash cl.client cl.transport }))
      (summarize_loop-first c transport (empty_ledger (length (r ∷ rs))) r rs h)

summarize-full :
    (xxhash : Bytes → ℕ) (c : ClientMeta) (transport : Bytes) (rs : List LedgerRecord)
    → All (OfClient c transport) rs
    → 0 < length rs
    → summarize xxhash rs ≡ some (sum_up xxhash c transport rs)
summarize-full xxhash c transport [] h full = absurd (omega arith)
summarize-full xxhash c transport (r ∷ rs) h full = summarize-sum_up xxhash c transport r rs h

sum_up-sort :
    (xxhash : Bytes → ℕ) (le : LedgerRecord → LedgerRecord → Bool) (c : ClientMeta)
    (transport : Bytes) (rs : List LedgerRecord)
    → sum_up xxhash c transport (sort le rs) ≡ sum_up xxhash c transport rs
sum_up-sort xxhash le c transport rs = rw (
  total-sort le lasted rs,
  total-sort le (λ r. r.tool_calls) rs,
  latest-sort le (λ r. r.disconnected_at) rs,
  length-sort le rs,
)

pub summarize-sort :
    (xxhash : Bytes → ℕ) (le : LedgerRecord → LedgerRecord → Bool) (c : ClientMeta)
    (transport : Bytes) (rs : List LedgerRecord)
    → All (OfClient c transport) rs
    → summarize xxhash (sort le rs) ≡ summarize xxhash rs
summarize-sort xxhash le c transport [] h = unfold sort in refl
summarize-sort xxhash le c transport (r ∷ rs) h =
    summarize-full xxhash c transport (sort le (r ∷ rs))
      (sort-All le (OfClient c transport) (r ∷ rs) h) (omega (arith, length-sort le (r ∷ rs)))
    ∙ ap some (sum_up-sort xxhash le c transport (r ∷ rs))
    ∙ sym (summarize-sum_up xxhash c transport r rs h)
