-- ===== src/Redaction/Secrecy.antt =====
-- `Scrub` of internal/redaction writes nothing of what its patterns find.
use remindb.Prelude.{
  ℕ, zero, suc, ◌+◌, ◌-◌, ◌≤◌, ◌<◌, ◌≡◌, refl, sym, ap, ◌∙◌, ◌⊎◌, inl, inr, false, some, List, [],
  ◌∷◌, ◌++◌, arith, Bool-cases, Bytes, str_dec, length, get_elem?, take, drop, All,
}
use remindb.Redaction.{
  KindPattern, Hit, find_hits, merge_hits, slice, render, scrub_hits, scrub, marker,
}
use remindb.Redaction.Sorted.{
  covered, InText, Sorts, sort_hits-Ascending, covered-sort_hits, sort_hits-InText,
}
use remindb.Redaction.Merge.{Apart, covered-merge, merge-Apart}
use remindb.Redaction.Found.{
  NoneFinds, SameFinds, FindsInside, NoneFinds-covered, find_hits-SameFinds, find_hits-InText,
}

-- Texts of one length that agree on a stretch have the same bytes there.
stretch :
    (n a : ℕ) (s s' : Bytes)
    → length s ≡ length s'
    → ((i : ℕ) → a ≤ i → i < a + n → get_elem? s i ≡ get_elem? s' i)
    → take n (drop a s) ≡ take n (drop a s')
stretch n a [] [] e f = refl
stretch n a [] (y ∷ s') e f = absurd (omega (arith, e))
stretch n a (x ∷ s) [] e f = absurd (omega (arith, e))
stretch n (suc a) (x ∷ s) (y ∷ s') e f =
    stretch n a s s' (omega (arith, e)) (λ i le lt. f (suc i) (omega arith) (omega arith))
stretch zero zero (x ∷ s) (y ∷ s') e f = refl
stretch (suc n) zero (x ∷ s) (y ∷ s') e f =
    let rest =
      stretch n 0 s s' (omega (arith, e)) (λ i le lt. f (suc i) (omega arith) (omega arith)) in
    let head = f 0 (omega arith) (omega arith) in cc

take-all : (s : Bytes) → take (length s) s ≡ s
take-all [] = refl
take-all (x ∷ s) = ap (λ l. x ∷ l) (take-all s)

whole : (s s' : Bytes) → length s ≡ length s' → ((i : ℕ) → get_elem? s i ≡ get_elem? s' i) → s ≡ s'
whole s s' e f =
    sym (take-all s)
    ∙ stretch (length s) 0 s s' e (λ i le lt. f i)
    ∙ ap (λ n. take n s') e
    ∙ take-all s'

slice_inside :
    (s : Bytes) (a b : ℕ) → a ≤ b → b ≤ length s → slice s a b ≡ some (take (b - a) (drop a s))
unfolding slice
slice_inside s a b le in_s = ground arith

covered-before : (n b i : ℕ) (hits : List Hit) → Apart n b hits → i < b → covered i hits ≡ false
unfolding covered
covered-before n b i [] p lt = refl
covered-before n b i (h ∷ hits) p lt = ground (arith, covered-before n h.end i hits p.3)

-- One gap and the spans behind it.
render-more :
    (s : Bytes) (a : ℕ) (h : Hit) (hits : List Hit) (gap rest : Bytes)
    → slice s a h.start ≡ some gap
    → render s h.end hits ≡ some rest
    → render s a (h ∷ hits) ≡ some (gap ++ marker h.kind ++ rest)
unfolding render
render-more s a h hits gap rest e f = cc

render-last : (s : Bytes) (a : ℕ) → render s a [] ≡ slice s a (length s)
unfolding render
render-last s a = refl

slice-agree :
    (s s' : Bytes) (a b : ℕ)
    → length s ≡ length s'
    → a ≤ b
    → b ≤ length s
    → ((i : ℕ) → a ≤ i → i < b → get_elem? s i ≡ get_elem? s' i)
    → (gap : Bytes) × (slice s a b ≡ some gap) × (slice s' a b ≡ some gap)
slice-agree s s' a b e le in_s f =
    let same = stretch (b - a) a s s' e (λ i from lt. f i from (omega (arith, le))) in
    (
      take (b - a) (drop a s),
      slice_inside s a b le in_s,
      slice_inside s' a b le (omega (arith, e)) ∙ ap some (sym same),
    )

not-covered-gap :
    (n a i : ℕ) (h : Hit) (hits : List Hit)
    → Apart n a (h ∷ hits)
    → i < h.start
    → covered i (h ∷ hits) ≡ false
unfolding covered
not-covered-gap n a i h hits p lt = ground (arith, covered-before n h.end i hits p.3)

not-covered-later :
    (i : ℕ) (h : Hit) (hits : List Hit)
    → h.end ≤ i
    → covered i hits ≡ false
    → covered i (h ∷ hits) ≡ false
unfolding covered
not-covered-later i h hits le c = ground arith

covered-none : (i : ℕ) → covered i [] ≡ false
unfolding covered
covered-none i = refl

render-agree :
    (s s' : Bytes) (a : ℕ) (hits : List Hit)
    → length s ≡ length s'
    → Apart (length s) a hits
    → ((i : ℕ) → a ≤ i → covered i hits ≡ false → get_elem? s i ≡ get_elem? s' i)
    → (out : Bytes) × (render s a hits ≡ some out) × (render s' a hits ≡ some out)
render-agree s s' a [] e p f =
    let (gap, here, there) =
      slice-agree s s' a (length s) e p (omega arith) (λ i le lt. f i le (covered-none i)) in
    (gap, render-last s a ∙ here, render-last s' a ∙ ap (slice s' a) (sym e) ∙ there)
render-agree s s' a (h ∷ hits) e p f =
    let (gap, g, g') =
      slice-agree s s' a h.start e p.0 (omega (arith, p))
        (λ i le lt. f i le (not-covered-gap (length s) a i h hits p lt)) in
    let (rest, r, r') =
      render-agree s s' h.end hits e p.3
        (λ i le c. f i (omega (arith, p, le)) (not-covered-later i h hits le c)) in
    (
      gap ++ marker h.kind ++ rest,
      render-more s a h hits gap rest g r,
      render-more s' a h hits gap rest g' r',
    )

List-cases : {A : Type 0} (l : List A) → (l ≡ []) ⊎ ((x : A) × (r : List A) × (l ≡ x ∷ r))
List-cases [] = inl refl
List-cases (x ∷ r) = inr (x, r, refl)

module _ (sort_hits : List Hit → List Hit) where
  -- The text of a scrub that finds something.
  scrub_hits-render :
      (s out : Bytes) (hits : List Hit) (h : Hit) (more : List Hit)
      → hits ≡ h ∷ more
      → render s 0 (merge_hits (sort_hits hits)) ≡ some out
      → scrub_hits sort_hits s hits ≡ some (out, merge_hits (sort_hits hits))
  unfolding scrub_hits
  scrub_hits-render s out hits h more e r = cc

  scrub_hits-none :
      (s : Bytes) (hits : List Hit) → hits ≡ [] → scrub_hits sort_hits s hits ≡ some (s, [])
  unfolding scrub_hits
  scrub_hits-none s hits e = cc

  -- Behind the guard for the empty text.
  scrub_hits-agree :
      (s s' : Bytes) (hits : List Hit)
      → Sorts sort_hits
      → length s ≡ length s'
      → All (InText (length s)) hits
      → ((i : ℕ) → covered i hits ≡ false → get_elem? s i ≡ get_elem? s' i)
      → (r : Bytes × List Hit) × (scrub_hits sort_hits s hits ≡ some r)
        × (scrub_hits sort_hits s' hits ≡ some r)
  scrub_hits-agree s s' hits sorts e inside f =
      let sorted = sort_hits hits in
      let up_order = sort_hits-Ascending sort_hits sorts hits in
      let apart =
        merge-Apart (length s) sorted (sort_hits-InText sort_hits sorts (length s) hits inside)
          up_order in
      let safe : (i : ℕ) → covered i (merge_hits sorted) ≡ false → covered i hits ≡ false = λ i c.
        elim (Bool-cases (covered i hits)) [
          | inl yes_covered ↦
              let up =
                covered-merge i sorted up_order
                  (covered-sort_hits sort_hits sorts i hits ∙ yes_covered) in
              absurd (ground (arith, up, c))
          | inr no_covered ↦ no_covered
        ] in
      let (out, r, r') =
        render-agree s s' 0 (merge_hits sorted) e apart (λ i le c. f i (safe i c)) in
      elim (List-cases hits) [
        | inl none_found ↦
            let eq = whole s s' e (λ i. f i (ap (covered i) none_found ∙ covered-none i)) in
            (
              (s, []),
              scrub_hits-none s hits none_found,
              scrub_hits-none s' hits none_found ∙ ap (λ t. some (t, [])) (sym eq),
            )
        | inr (h, more, found) ↦ (
          (out, merge_hits sorted),
          scrub_hits-render s out hits h more found r,
          scrub_hits-render s' out hits h more found r',
        )
      ]

  scrub-empty : (patterns : List KindPattern) → scrub sort_hits patterns [] ≡ some ([], [])
  unfolding scrub str_dec
  scrub-empty patterns = refl

  scrub-filled :
      (patterns : List KindPattern) (c : ℕ) (s : Bytes)
      → scrub sort_hits patterns (c ∷ s) ≡ scrub_hits sort_hits (c ∷ s) (find_hits patterns (c ∷ s))
  unfolding scrub str_dec
  scrub-filled patterns c s = refl

  -- The output of `Scrub` does not depend on any byte that one of its patterns finds: of two texts of
  -- one length, in which each pattern finds the same spans, inside the text, and which agree on
  -- every byte that no pattern finds, it makes the same text, with the same spans, and it does not run
  -- out of bounds. The hits are sorted by any routine that keeps them and puts them in order.
  pub scrub-secrecy :
      (patterns : List KindPattern) (s s' : Bytes)
      → Sorts sort_hits
      → length s ≡ length s'
      → All (SameFinds s s') patterns
      → All (FindsInside s) patterns
      → ((i : ℕ) → NoneFinds patterns s i → get_elem? s i ≡ get_elem? s' i)
      → (r : Bytes × List Hit) × (scrub sort_hits patterns s ≡ some r)
        × (scrub sort_hits patterns s' ≡ some r)
  scrub-secrecy patterns [] [] sorts e same inside f =
      (([], []), scrub-empty patterns, scrub-empty patterns)
  scrub-secrecy patterns [] (y ∷ s') sorts e same inside f = absurd (omega (arith, e))
  scrub-secrecy patterns (x ∷ s) [] sorts e same inside f = absurd (omega (arith, e))
  scrub-secrecy patterns (x ∷ s) (y ∷ s') sorts e same inside f =
      let found = find_hits-SameFinds patterns (x ∷ s) (y ∷ s') same in
      let (r, here, there) =
        scrub_hits-agree (x ∷ s) (y ∷ s') (find_hits patterns (x ∷ s)) sorts e
          (find_hits-InText patterns (x ∷ s) inside)
          (λ i c. f i (NoneFinds-covered patterns (x ∷ s) i c)) in
      (
        r,
        scrub-filled patterns x s ∙ here,
        scrub-filled patterns y s' ∙ ap (scrub_hits sort_hits (y ∷ s')) (sym found) ∙ there,
      )
