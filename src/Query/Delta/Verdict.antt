-- ===== src/Query/Delta/Verdict.antt =====
-- The cuts of `Engine.Delta` that lose nothing.
use remindb.Prelude.{
  ℕ, zero, suc, ◌-◌, ◌≤◌, ◌<◌, ◌≡◌, refl, sym, ap, ◌∙◌, subst, ◌≢◌, true, false, List, [], ◌∷◌,
  ◌++◌, arith, length, take, All, dec_lt, length-take, take-append-drop,
}
use remindb.Store.Snapshots.{DiffRecord, Database, diffs_after}
use remindb.Query.Delta.{rows_since, Page, snapshot_at, trim}
use remindb.Query.Delta.Sorted.{
  IsSorted, From-at, rows-IsSorted, rows-From, From, rows_since_later, after_boundary,
}
use remindb.Query.Delta.Trim.{trim_stops, snapshot_at-take}

-- What a page tells the caller who reads on from the snapshot of its last row.
pub data Verdict (db : Database) (since limit : ℕ) (p : Page) : Type 0 where
  complete :
      p.truncated ≡ false
      → p.overflow ≡ false
      → p.diffs ≡ rows_since db since
      → Verdict db since limit p
  resumable :
      (last : ℕ)
      → p.truncated ≡ true
      → p.overflow ≡ false
      → last ≡ snapshot_at p.diffs (length p.diffs - 1)
      → since < last
      → p.diffs ++ rows_since db last ≡ rows_since db since
      → Verdict db since limit p
  overflowing :
      (s : ℕ)
      → p.truncated ≡ true
      → p.overflow ≡ true
      → limit < length (rows_since db since)
      → p.diffs ≡ take limit (rows_since db since)
      → All (λ d. d.snapshot_id ≡ s) (take (suc limit) (rows_since db since))
      → Verdict db since limit p

pub rows_since-IsSorted : (db : Database) (since : ℕ) → IsSorted (rows_since db since)
unfolding rows_since
rows_since-IsSorted db since = rows-IsSorted (diffs_after since db.diffs)

-- A cut at a snapshot boundary of the rows gives a page that is resumed without loss.
pub cut-Verdict :
    (db : Database) (since limit c : ℕ)
    → suc c < length (rows_since db since)
    → snapshot_at (rows_since db since) c < snapshot_at (rows_since db since) (suc c)
    → Verdict db since limit
        (record { diffs = take (suc c) (rows_since db since); truncated = true; overflow = false })
cut-Verdict db since limit c h b =
    let rows = rows_since db since in
    let size : length (take (suc c) rows) ≡ suc c = omega (arith, length-take (suc c) rows) in
    let newer = From-at (suc since) rows c (rows-From db since) (omega arith) in
    resumable (snapshot_at rows c) refl refl
      (sym (snapshot_at-take (suc c) c rows (omega arith))
        ∙ ap (snapshot_at (take (suc c) rows)) (omega (arith, size)))
      newer
      (ap (λ r. take (suc c) rows ++ r)
          (rows_since_later db since (snapshot_at rows c) (omega (arith, newer))
            ∙ after_boundary rows c (rows_since-IsSorted db since) h b)
        ∙ take-append-drop (suc c) rows)

pub snapshot_mono :
    (l : List DiffRecord) (i j : ℕ)
    → IsSorted l
    → i ≤ j
    → j < length l
    → snapshot_at l i ≤ snapshot_at l j
unfolding snapshot_at
snapshot_mono [] i j s h b = absurd (omega arith)
snapshot_mono (d ∷ l) zero zero s h b = omega arith
snapshot_mono (d ∷ l) zero (suc j) s h b = From-at d.snapshot_id l j s.0 (omega arith)
snapshot_mono (d ∷ l) (suc i) zero s h b = absurd (omega arith)
snapshot_mono (d ∷ l) (suc i) (suc j) s h b = snapshot_mono l i j s.1 (omega arith) (omega arith)

-- Equal ends leave one snapshot between them.
pub one_snapshot :
    (b : ℕ) (l : List DiffRecord) (n : ℕ)
    → IsSorted l
    → From b l
    → n < length l
    → snapshot_at l n ≤ b
    → All (λ d. d.snapshot_id ≡ b) (take (suc n) l)
unfolding snapshot_at
one_snapshot b [] n s f h e = absurd (omega arith)
one_snapshot b (d ∷ l) zero s f h e = (omega arith, tt)
one_snapshot b (d ∷ l) (suc n) s f h e =
    (omega (arith, From-at d.snapshot_id l n s.0), one_snapshot b l n s.1 f.1 (omega arith) e)

pub From-first : (l : List DiffRecord) → IsSorted l → From (snapshot_at l 0) l
unfolding snapshot_at
From-first [] s = tt
From-first (d ∷ l) s = (omega arith, s.0)

module _ (db : Database) (since n : ℕ) (h : suc n < length (rows_since db since)) where
  abbrev rows : List DiffRecord
  rows = rows_since db since

  abbrev last : ℕ
  last = snapshot_at rows n

  abbrev pub cut : ℕ
  cut = trim (take (suc n) rows) last (suc n)

  -- The loop of the trim stops inside the page, at a boundary.
  pub trim-Verdict :
      snapshot_at rows 0 ≢ last
      → Verdict db since
          (suc n)
          (record { diffs = take cut rows; truncated = true; overflow = false })
  trim-Verdict first =
      let page = take (suc n) rows in
      let (bound, stop, before) = trim_stops page last (suc n) in
      let end : snapshot_at page n ≡ last = snapshot_at-take (suc n) n rows (omega arith) in
      let inside : cut < suc n = elim (dec_lt cut (suc n)) [
        | yes p ↦ p
        | no p ↦
            let q : cut - 1 ≡ n = omega (arith, bound) in
            absurd (before (omega arith) (ap (snapshot_at page) q ∙ end))
      ] in
      let at_cut : snapshot_at rows cut ≡ last =
        sym (snapshot_at-take (suc n) cut rows inside) ∙ stop inside in
      let some_left : 0 < cut = elim (dec_lt 0 cut) [
        | yes p ↦ p
        | no p ↦
            let q : cut ≡ 0 = omega arith in absurd (first (ap (snapshot_at rows) (sym q) ∙ at_cut))
      ] in
      let c : ℕ = cut - 1 in
      let suc_c : suc c ≡ cut = omega (arith, some_left) in
      let below : snapshot_at rows c ≢ last =
        λ e. before some_left (snapshot_at-take (suc n) c rows (omega (arith, inside)) ∙ e) in
      let at_suc : snapshot_at rows (suc c) ≡ last = ap (snapshot_at rows) suc_c ∙ at_cut in
      let up =
        snapshot_mono rows c (suc c) (rows_since-IsSorted db since) (omega arith)
          (omega (arith, inside, suc_c)) in
      subst
        (λ k.
          Verdict db since (suc n)
            (record { diffs = take k rows; truncated = true; overflow = false }))
        suc_c
        (cut-Verdict db since (suc n) c (omega (arith, inside, suc_c))
          (omega (arith, up, below, at_suc)))
