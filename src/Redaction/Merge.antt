-- ===== src/Redaction/Merge.antt =====
-- The merged spans of internal/redaction cover every hit, and are apart.
use remindb.Prelude.{ℕ, ◌≤◌, max, ◌≡◌, true, List, [], ◌∷◌, arith, All, dec_lt}
use remindb.Redaction.{Hit, accept, merge_hits}
use remindb.Redaction.Sorted.{covered, InText, From, Ascending}

-- Each span ends before the next one starts, inside the text.
abbrev pub Apart : ℕ → ℕ → List Hit → Type 0
Apart n a [] = a ≤ n
Apart n a (h ∷ hits) = (a ≤ h.start) × (h.start ≤ h.end) × (h.end ≤ n) × Apart n h.end hits

-- What the merge covers.
covered-accept :
    (i : ℕ) (last : Hit) (hits : List Hit)
    → From last.start hits
    → Ascending hits
    → covered i (last ∷ hits) ≡ true
    → covered i (accept last hits) ≡ true
unfolding accept covered
covered-accept i last [] f s c = c
covered-accept i last (h ∷ hits) f s c =
    let merged = covered-accept i (record last { end = max last.end h.end }) hits f.1 s.1 in
    ground (arith, merged, covered-accept i h hits s.0 s.1)

pub covered-merge :
    (i : ℕ) (hits : List Hit)
    → Ascending hits
    → covered i hits ≡ true
    → covered i (merge_hits hits) ≡ true
unfolding merge_hits
covered-merge i [] s c = c
covered-merge i (h ∷ hits) s c = covered-accept i h hits s.0 s.1 c

accept-Apart :
    (n a : ℕ) (last : Hit) (hits : List Hit)
    → a ≤ last.start
    → InText n last
    → All (InText n) hits
    → From last.start hits
    → Ascending hits
    → Apart n a (accept last hits)
unfolding accept
accept-Apart n a last [] le inside all f s = (le, inside.0, inside.1, inside.1)
accept-Apart n a last (h ∷ hits) le inside all f s =
    let long = record last { end = max last.end h.end } in
    let inside_long : InText n long =
      (omega (arith, inside, all.0), omega (arith, inside, all.0)) in
    let merged = accept-Apart n a long hits le inside_long all.1 f.1 s.1 in
    elim (dec_lt h.start last.end) [
      | yes p ↦ ground (arith, merged)
      | no p ↦
          let next = accept-Apart n last.end h hits (omega arith) all.0 all.1 s.0 s.1 in
          ground (arith, next)
    ]

pub merge-Apart :
    (n : ℕ) (hits : List Hit) → All (InText n) hits → Ascending hits → Apart n 0 (merge_hits hits)
unfolding merge_hits
merge-Apart n [] all s = omega arith
merge-Apart n (h ∷ hits) all s = accept-Apart n 0 h hits (omega arith) all.0 all.1 s.0 s.1
