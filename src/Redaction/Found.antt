-- ===== src/Redaction/Found.antt =====
-- The finds of the patterns of internal/redaction, as hits.
use remindb.Prelude.{
  ℕ, ◌≤◌, ◌≡◌, refl, sym, ap, ◌∙◌, Bool, false, ◌&&◌, ◌||◌, List, [], ◌∷◌, ◌++◌, map, arith, ltb,
  leb, Bytes, length, All, All-append,
}
use remindb.Redaction.{KindPattern, Hit, hit_of, find_hits}
use remindb.Redaction.Sorted.{covered, InText}

-- Some span has the byte.
unfoldable pub in_spans : ℕ → List (ℕ × ℕ) → Bool
in_spans i [] = false
in_spans i ((a, b) ∷ spans) = (leb a i && ltb i b) || in_spans i spans

-- No pattern finds the byte.
abbrev pub NoneFinds : List KindPattern → Bytes → ℕ → Type 0
NoneFinds patterns s i = All (λ (kp : KindPattern). in_spans i (kp.re s) ≡ false) patterns

-- A pattern finds the same spans in both texts.
abbrev pub SameFinds : Bytes → Bytes → KindPattern → Type 0
SameFinds s s' kp = kp.re s ≡ kp.re s'

-- A pattern finds spans inside the text.
abbrev pub FindsInside : Bytes → KindPattern → Type 0
FindsInside s kp = All (λ (e : ℕ × ℕ). (e.0 ≤ e.1) × (e.1 ≤ length s)) (kp.re s)

covered-append : (i : ℕ) (xs ys : List Hit) → covered i (xs ++ ys) ≡ (covered i xs || covered i ys)
unfolding covered
covered-append i [] ys = refl
covered-append i (x ∷ xs) ys = ground (arith, covered-append i xs ys)

covered-hits :
    (i : ℕ) (kind : Bytes) (spans : List (ℕ × ℕ))
    → covered i (map (hit_of kind) spans) ≡ in_spans i spans
unfolding covered in_spans
covered-hits i kind [] = refl
covered-hits i kind ((a, b) ∷ spans) =
    ap (λ r. (leb a i && ltb i b) || r) (covered-hits i kind spans)

pub NoneFinds-covered :
    (patterns : List KindPattern) (s : Bytes) (i : ℕ)
    → covered i (find_hits patterns s) ≡ false
    → NoneFinds patterns s i
unfolding find_hits
NoneFinds-covered [] s i c = tt
NoneFinds-covered (kp ∷ patterns) s i c =
    let both = sym (covered-append i (map (hit_of kp.kind) (kp.re s)) (find_hits patterns s)) ∙ c in
    let here = covered-hits i kp.kind (kp.re s) in
    (ground (arith, both, here), NoneFinds-covered patterns s i (ground (arith, both)))

pub find_hits-SameFinds :
    (patterns : List KindPattern) (s s' : Bytes)
    → All (SameFinds s s') patterns
    → find_hits patterns s ≡ find_hits patterns s'
unfolding find_hits
find_hits-SameFinds [] s s' h = refl
find_hits-SameFinds (kp ∷ patterns) s s' h = rw (h.0, find_hits-SameFinds patterns s s' h.1) refl

hits-InText :
    (n : ℕ) (kind : Bytes) (spans : List (ℕ × ℕ))
    → All (λ (e : ℕ × ℕ). (e.0 ≤ e.1) × (e.1 ≤ n)) spans
    → All (InText n) (map (hit_of kind) spans)
hits-InText n kind [] h = tt
hits-InText n kind ((a, b) ∷ spans) h = (h.0, hits-InText n kind spans h.1)

pub find_hits-InText :
    (patterns : List KindPattern) (s : Bytes)
    → All (FindsInside s) patterns
    → All (InText (length s)) (find_hits patterns s)
unfolding find_hits
find_hits-InText [] s h = tt
find_hits-InText (kp ∷ patterns) s h =
    All-append (InText (length s)) (map (hit_of kp.kind) (kp.re s)) (find_hits patterns s)
      (hits-InText (length s) kp.kind (kp.re s) h.0) (find_hits-InText patterns s h.1)
