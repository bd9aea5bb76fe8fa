-- ===== src/Query/Delta/Resume.antt =====
-- A truncated page of `Engine.Delta` is resumed without loss.
use remindb.Prelude.{
  ℕ, zero, suc, ◌+◌, ◌-◌, ◌≤◌, ◌<◌, ◌≡◌, refl, sym, ap, ◌∙◌, subst, ◌≢◌, true, false, List, arith,
  length, take, ℕ_discrete, dec_lt, length-take,
}
use remindb.Store.Snapshots.{DiffRecord, Database}
use remindb.Query.Delta.{rows_since, get_diffs_since, Page, snapshot_at, trim, page_of, delta}
use remindb.Query.Delta.Trim.{take-take, snapshot_at-take, trim_stops, take_short}
use remindb.Query.Delta.Verdict.{
  cut, Verdict, rows_since-IsSorted, snapshot_mono, cut-Verdict, trim-Verdict, overflowing,
  complete, one_snapshot, From-first,
}

-- The branches of `page_of`.
module _ (rows : List DiffRecord) (limit : ℕ) where
  page_of_all :
      length rows ≤ limit
      → page_of rows limit ≡ record { diffs = rows; truncated = false; overflow = false }
  unfolding page_of
  page_of_all h = ground arith

  module _ (h : limit < length rows) where
    page_of_boundary :
        snapshot_at rows limit ≢ snapshot_at (take limit rows) (limit - 1)
        → page_of rows limit
          ≡ record { diffs = take limit rows; truncated = true; overflow = false }
    unfolding page_of
    page_of_boundary e = ground arith

    module _ (e : snapshot_at rows limit ≡ snapshot_at (take limit rows) (limit - 1)) where
      page_of_overflow :
          snapshot_at (take limit rows) 0 ≡ snapshot_at (take limit rows) (limit - 1)
          → page_of rows limit
            ≡ record { diffs = take limit rows; truncated = true; overflow = true }
      unfolding page_of
      page_of_overflow f = ground arith

      page_of-trim :
          snapshot_at (take limit rows) 0 ≢ snapshot_at (take limit rows) (limit - 1)
          → page_of rows limit ≡ record {
            diffs =
                take
                  (trim (take limit rows) (snapshot_at (take limit rows) (limit - 1)) limit)
                  (take limit rows);
            truncated = true;
            overflow = false;
          }
      unfolding page_of
      page_of-trim f = ground arith

delta_asks :
    (db : Database) (since limit : ℕ)
    → 0 < limit
    → delta db since limit ≡ page_of (take (limit + 1) (rows_since db since)) limit
unfolding delta get_diffs_since
delta_asks db since limit h = ground arith

delta-page_of :
    (db : Database) (since n : ℕ)
    → delta db since (suc n) ≡ page_of (take (suc (suc n)) (rows_since db since)) (suc n)
delta-page_of db since n =
    let q : suc n + 1 ≡ suc (suc n) = omega arith in
    delta_asks db since (suc n) (omega arith)
    ∙ ap (λ k. page_of (take k (rows_since db since)) (suc n)) q

module _ (db : Database) (since n : ℕ) (h : suc n < length (rows_since db since)) where
  abbrev all_rows : List DiffRecord
  all_rows = rows_since db since

  abbrev asked : List DiffRecord
  asked = take (suc (suc n)) all_rows

  asked_size : suc n < length asked
  asked_size = omega (arith, length-take (suc (suc n)) all_rows)

  asked_page : take (suc n) asked ≡ take (suc n) all_rows
  asked_page = take-take (suc n) (suc (suc n)) all_rows (omega arith)

  asked_last : snapshot_at (take (suc n) asked) (suc n - 1) ≡ snapshot_at all_rows n
  asked_last =
      let q : suc n - 1 ≡ n = omega arith in
      ap (snapshot_at (take (suc n) asked)) q
      ∙ ap (λ l. snapshot_at l n) asked_page
      ∙ snapshot_at-take (suc n) n all_rows (omega arith)

  -- The trimmed page in terms of all rows.
  asked_trimmed :
      take
        (trim (take (suc n) asked) (snapshot_at (take (suc n) asked) (suc n - 1)) (suc n))
        (take (suc n) asked)
      ≡ take (cut db since n h) all_rows
  asked_trimmed =
      ap (λ s. take (trim (take (suc n) asked) s (suc n)) (take (suc n) asked)) asked_last
      ∙ ap (λ l. take (trim l (snapshot_at all_rows n) (suc n)) l) asked_page
      ∙ take-take (cut db since n h) (suc n) all_rows
          (trim_stops (take (suc n) all_rows) (snapshot_at all_rows n) (suc n)).0

  asked_first : snapshot_at (take (suc n) asked) 0 ≡ snapshot_at all_rows 0
  asked_first =
      ap (λ l. snapshot_at l 0) asked_page ∙ snapshot_at-take (suc n) 0 all_rows (omega arith)

  asked_next : snapshot_at asked (suc n) ≡ snapshot_at all_rows (suc n)
  asked_next = snapshot_at-take (suc (suc n)) (suc n) all_rows (omega arith)

  abbrev Goal : Page → Type 0
  Goal = Verdict db since (suc n)

  overflow-Verdict :
      snapshot_at all_rows (suc n) ≡ snapshot_at all_rows n
      → snapshot_at all_rows 0 ≡ snapshot_at all_rows n
      → Goal (record { diffs = take (suc n) all_rows; truncated = true; overflow = true })
  overflow-Verdict e f =
      let sorted = rows_since-IsSorted db since in
      overflowing (snapshot_at all_rows 0) refl refl h refl (
        one_snapshot (snapshot_at all_rows 0) all_rows (suc n) sorted (From-first all_rows sorted) h
          (omega (arith, e, f)))

  page_of-Verdict : Goal (page_of asked (suc n))
  page_of-Verdict =
      let up = snapshot_mono all_rows n (suc n) (rows_since-IsSorted db since) (omega arith) h in
      elim (ℕ_discrete (snapshot_at all_rows (suc n)) (snapshot_at all_rows n)) [
        | no e ↦
            subst Goal
              (ap (λ l. record { diffs = l; truncated = true; overflow = false }) (sym asked_page)
                ∙ sym (
                    page_of_boundary asked (suc n) asked_size
                      (λ q. e (sym asked_next ∙ q ∙ asked_last))))
              (cut-Verdict db since (suc n) n h (omega (arith, up, e)))
        | yes e ↦
            let same = asked_next ∙ e ∙ sym asked_last in
            elim (ℕ_discrete (snapshot_at all_rows 0) (snapshot_at all_rows n)) [
              | yes f ↦
                  subst Goal
                    (ap (λ l. record { diffs = l; truncated = true; overflow = true })
                        (sym asked_page)
                      ∙ sym (
                          page_of_overflow asked (suc n) asked_size same
                            (asked_first ∙ f ∙ sym asked_last)))
                    (overflow-Verdict e f)
              | no f ↦
                  subst Goal
                    (ap (λ l. record { diffs = l; truncated = true; overflow = false })
                        (sym asked_trimmed)
                      ∙ sym (
                          page_of-trim asked (suc n) asked_size same
                            (λ q. f (sym asked_first ∙ q ∙ asked_last))))
                    (trim-Verdict db since n h f)
            ]
      ]

-- Where `Engine.Delta` is asked for at least one row, its page is one of three. It is complete: not
-- truncated, and all rows after `since`. Or it is truncated at a snapshot boundary above `since`, and
-- followed by the rows after its last row's snapshot it is all rows after `since`, so that the caller
-- who resumes there misses none and sees none twice. Or it overflows, and then the page and the row
-- behind it are of one snapshot, so that there is no boundary to cut at.
pub delta-Verdict :
    (db : Database) (since limit : ℕ) → 0 < limit → Verdict db since limit (delta db since limit)
delta-Verdict db since zero h = absurd (omega arith)
delta-Verdict db since (suc n) h = elim (dec_lt (suc n) (length (rows_since db since))) [
  | yes p ↦
      subst (Verdict db since (suc n)) (sym (delta-page_of db since n))
        (page_of-Verdict db since n p)
  | no p ↦
      let rows = rows_since db since in
      let short : length (take (suc (suc n)) rows) ≤ suc n =
        omega (arith, length-take (suc (suc n)) rows) in
      subst (Verdict db since (suc n))
        (sym (delta-page_of db since n ∙ page_of_all (take (suc (suc n)) rows) (suc n) short))
        (complete refl refl (take_short (suc n) rows short))
]
