-- ===== src/Redaction/Sorted.antt =====
-- What the sorting of the hits of internal/redaction keeps.
use remindb.Prelude.{
  ℕ, ◌≤◌, ◌≡◌, refl, ◌∙◌, ◌↔◌, inl, inr, Bool, true, false, ◌&&◌, ◌||◌, List, [], ◌∷◌, arith, ltb,
  leb, Bool-cases, All, All-map,
}
use remindb.Prelude.Sorting.{sort, insert_sorted, sort-perm, insert_sorted-All}
use remindb.Redaction.{Hit, hit_leb}
use mathlib.Core.List.{Perm, Permᴰ}
use mathlib.Core.Logic.{∥∥₁_elim}

-- Some hit has the byte.
unfoldable pub covered : ℕ → List Hit → Bool
covered i [] = false
covered i (h ∷ hits) = (leb h.start i && ltb i h.end) || covered i hits

-- A hit lies inside a text of the length.
abbrev pub InText : ℕ → Hit → Type 0
InText n h = (h.start ≤ h.end) × (h.end ≤ n)

-- No hit starts before.
abbrev pub From : ℕ → List Hit → Type 0
From a = All (λ h. a ≤ h.start)

abbrev pub Ascending : List Hit → Type 0
Ascending [] = Unit
Ascending (h ∷ hits) = From h.start hits × Ascending hits

-- Every hit stands before those that it is not behind in the order.
abbrev Ordered : List Hit → Type 0
Ordered [] = Unit
Ordered (h ∷ hits) = All (λ k. hit_leb h k ≡ true) hits × Ordered hits

-- What `slices.SortFunc` promises: the same hits, in order.
abbrev pub Sorts : (List Hit → List Hit) → Type 0
Sorts sort_hits = (hits : List Hit) → Perm (sort_hits hits) hits × Ordered (sort_hits hits)

Ordered-Ascending : (hits : List Hit) → Ordered hits → Ascending hits
Ordered-Ascending [] o = tt
Ordered-Ascending (h ∷ hits) o =
    (All-map (λ k e. ground (arith, e)) hits o.0, Ordered-Ascending hits o.1)

or_swap : (a b c : Bool) → (a || (b || c)) ≡ (b || (a || c))
or_swap a b c = ground arith

and_swap : (a b c : Bool) → (a && (b && c)) ≡ (b && (a && c))
and_swap a b c = ground arith

covered-permuted : {l k : List Hit} (i : ℕ) → Permᴰ l k → covered i l ≡ covered i k
unfolding covered
covered-permuted i Permᴰ.nil = refl
covered-permuted i (Permᴰ.cons eq p) = rw (eq, covered-permuted i p)
covered-permuted i (Permᴰ.swap {a' = c} {b' = d} {l = l} eq eq') =
    rw (eq, eq')
      (or_swap (leb d.start i && ltb i d.end) (leb c.start i && ltb i c.end) (covered i l))
covered-permuted i (Permᴰ.trans p q) = covered-permuted i p ∙ covered-permuted i q

-- Whether all hits lie inside a text.
unfoldable all_inside : ℕ → List Hit → Bool
all_inside n [] = true
all_inside n (h ∷ hits) = (leb h.start h.end && leb h.end n) && all_inside n hits

all_inside_iff : (n : ℕ) (hits : List Hit) → (all_inside n hits ≡ true) ↔ All (InText n) hits
unfolding all_inside
all_inside_iff n [] = (λ e. tt, λ a. refl)
all_inside_iff n (h ∷ hits) = ground (arith, all_inside_iff n hits)

all_inside-permuted : {l k : List Hit} (n : ℕ) → Permᴰ l k → all_inside n l ≡ all_inside n k
unfolding all_inside
all_inside-permuted n Permᴰ.nil = refl
all_inside-permuted n (Permᴰ.cons eq p) = rw (eq, all_inside-permuted n p)
all_inside-permuted n (Permᴰ.swap {a' = c} {b' = d} {l = l} eq eq') =
    rw (eq, eq')
      (and_swap (leb d.start d.end && leb d.end n) (leb c.start c.end && leb c.end n)
        (all_inside n l))
all_inside-permuted n (Permᴰ.trans p q) = all_inside-permuted n p ∙ all_inside-permuted n q

module _ (sort_hits : List Hit → List Hit) (sorts : Sorts sort_hits) where
  pub sort_hits-Ascending : (hits : List Hit) → Ascending (sort_hits hits)
  sort_hits-Ascending hits = Ordered-Ascending (sort_hits hits) (sorts hits).1

  pub covered-sort_hits : (i : ℕ) (hits : List Hit) → covered i (sort_hits hits) ≡ covered i hits
  covered-sort_hits i hits = ∥∥₁_elim (sorts hits).0 (hlevel) (covered-permuted i)

  pub sort_hits-InText :
      (n : ℕ) (hits : List Hit) → All (InText n) hits → All (InText n) (sort_hits hits)
  sort_hits-InText n hits all =
      let same : all_inside n (sort_hits hits) ≡ all_inside n hits =
        ∥∥₁_elim (sorts hits).0 (hlevel) (all_inside-permuted n) in
      (all_inside_iff n (sort_hits hits)).0 (same ∙ (all_inside_iff n hits).1 all)

hit_leb-total : (h k : Hit) → hit_leb h k ≡ false → hit_leb k h ≡ true
hit_leb-total h k e = ground (arith, e)

hit_leb_trans : (h k l : Hit) → hit_leb h k ≡ true → hit_leb k l ≡ true → hit_leb h l ≡ true
hit_leb_trans h k l e f = ground (arith, e, f)

-- A stable sort is such a sort.
insert_sorted-Ordered :
    (h : Hit) (hits : List Hit) → Ordered hits → Ordered (insert_sorted hit_leb h hits)
unfolding insert_sorted
insert_sorted-Ordered h [] o = (tt, tt)
insert_sorted-Ordered h (x ∷ hits) o = elim (Bool-cases (hit_leb h x)) [
  | inl before ↦ rw before ((before, All-map (λ k e. hit_leb_trans h x k before e) hits o.0), o)
  | inr behind ↦ rw behind (
    insert_sorted-All hit_leb (λ k. hit_leb x k ≡ true) h hits (hit_leb-total h x behind) o.0,
    insert_sorted-Ordered h hits o.1,
  )
]

sort-Ordered : (hits : List Hit) → Ordered (sort hit_leb hits)
unfolding sort
sort-Ordered [] = tt
sort-Ordered (h ∷ hits) = insert_sorted-Ordered h (sort hit_leb hits) (sort-Ordered hits)

pub sort-Sorts : Sorts (sort hit_leb)
sort-Sorts hits = (sort-perm hit_leb hits, sort-Ordered hits)
