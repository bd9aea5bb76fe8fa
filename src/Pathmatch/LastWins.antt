-- ===== src/Pathmatch/LastWins.antt =====
-- `Match` of internal/pathmatch/matcher.go: of the patterns that apply, the last one decides.
use remindb.Prelude.{
  ◌≡◌, refl, sym, ap, ◌∙◌, ◌≢◌, ◌↔◌, ◌⊎◌, inl, inr, Bool, true, false, not, ◌&&◌, Option, none,
  some, List, [], ◌∷◌, arith, Bool-cases, Bytes, codes, All, last_of,
}
use remindb.Pathmatch.{
  PathPattern, match_segment, match_path, match_name, match_pattern, match_loop, matches, slash,
}
use remindb.Pathmatch.Glob.{Covers, match_path_iff, match_segment_iff}
use remindb.Prelude.Text.{split, split-last}

abbrev pub Decided : Option Bool → Type 0 → Type 0
Decided o P = ((o ≡ some true) × P) ⊎ ((o ≡ some false) × ¬ P)

abbrev pub HasSegments : PathPattern → Type 0
HasSegments p = p.segments ≢ []

test-Decided : {P : Type 0} (b : Bool) → (b ≡ true) ↔ P → Decided (some b) P
test-Decided b h = elim (Bool-cases b) [
  | inl yes_eq ↦ inl (ap some yes_eq, h.0 yes_eq)
  | inr no_eq ↦ inr (ap some no_eq, λ p. ground (arith, no_eq, h.1 p))
]

decided-map :
    {P Q : Type 0} (o o' : Option Bool) → o ≡ o' → (P → Q) → (Q → P) → Decided o P → Decided o' Q
decided-map o o' eq f g (inl (h, p)) = inl (sym eq ∙ h, f p)
decided-map o o' eq f g (inr (h, n)) = inr (sym eq ∙ h, λ q. n (g q))

module _ (glob : Bytes → Bytes → Option Bool) where
  -- The first segment of a pattern takes the last one of a path.
  abbrev NameFits : List Bytes → Option Bytes → Type 0
  NameFits [] seg = ⊥
  NameFits (pat ∷ pats) none = ⊥
  NameFits (pat ∷ pats) (some seg) = glob pat seg ≡ some true

  -- An anchored pattern takes the whole path, another one its last segment.
  pub data Takes (p : PathPattern) (path : List Bytes) : Type 0 where
    whole : p.anchored ≡ true → Covers glob p.segments path → Takes p path
    name : p.anchored ≡ false → NameFits p.segments (last_of path) → Takes p path

  -- A pattern that ends in a slash is one for directories.
  abbrev Applies : List Bytes → Bool → PathPattern → Type 0
  Applies path is_dir p = (p.dir_only && not is_dir ≡ false) × Takes p path

  -- A pattern applies that is not negated, and none behind it applies.
  abbrev pub LastWins : List Bytes → Bool → List PathPattern → Type 0
  LastWins path is_dir [] = ⊥
  LastWins path is_dir (p ∷ ps) =
      LastWins path is_dir ps
      ⊎ (Applies path is_dir p × (p.negated ≡ false) × All (λ q. ¬ Applies path is_dir q) ps)

  match_name-Decided :
      (pats : List Bytes) (seg : Option Bytes)
      → pats ≢ []
      → seg ≢ none
      → Decided (match_name glob pats seg) (NameFits pats seg)
  unfolding match_name
  match_name-Decided [] seg h k = absurd (h refl)
  match_name-Decided (pat ∷ pats) none h k = absurd (k refl)
  match_name-Decided (pat ∷ pats) (some seg) h k =
      test-Decided (match_segment glob pat seg) (match_segment_iff glob pat seg)

  Takes-Covers :
      (p : PathPattern) (path : List Bytes)
      → p.anchored ≡ true
      → Takes p path
      → Covers glob p.segments path
  Takes-Covers p path a (whole b c) = c
  Takes-Covers p path a (name b c) = absurd (ground (arith, a, b))

  Takes-NameFits :
      (p : PathPattern) (path : List Bytes)
      → p.anchored ≡ false
      → Takes p path
      → NameFits p.segments (last_of path)
  Takes-NameFits p path a (name b c) = c
  Takes-NameFits p path a (whole b c) = absurd (ground (arith, a, b))

  match_pattern-Decided :
      (p : PathPattern) (path : List Bytes)
      → HasSegments p
      → last_of path ≢ none
      → Decided (match_pattern glob p path) (Takes p path)
  unfolding match_pattern
  match_pattern-Decided p path h k = elim (Bool-cases p.anchored) [
    | inl a ↦
        decided-map (some (match_path glob p.segments path)) (match_pattern glob p path) (rw a)
          (whole a) (Takes-Covers p path a)
          (test-Decided (match_path glob p.segments path) (match_path_iff glob p.segments path))
    | inr a ↦
        decided-map (match_name glob p.segments (last_of path)) (match_pattern glob p path) (rw a)
          (name a) (Takes-NameFits p path a) (match_name-Decided p.segments (last_of path) h k)
  ]

  -- One round of the loop, where the pattern applies and where it does not.
  loop-round :
      (p : PathPattern) (ps : List PathPattern) (path : List Bytes) (is_dir matched : Bool)
      → HasSegments p
      → last_of path ≢ none
      → ((match_loop glob (p ∷ ps) path is_dir matched
            ≡ match_loop glob ps path is_dir (not p.negated))
          × Applies path is_dir p)
        ⊎ ((match_loop glob (p ∷ ps) path is_dir matched ≡ match_loop glob ps path is_dir matched)
            × ¬ Applies path is_dir p)
  unfolding match_loop
  loop-round p ps path is_dir matched h k = elim (Bool-cases (p.dir_only && not is_dir)) [
    | inl d ↦ inr (rw d, λ a. ground (arith, d, a.0))
    | inr d ↦ elim (match_pattern-Decided p path h k) [
      | inl (m, t) ↦ inl (rw (d, m), (d, t))
      | inr (m, n) ↦ inr (rw (d, m), λ a. n a.1)
    ]
  ]

  abbrev Wins : List Bytes → Bool → Bool → List PathPattern → Type 0
  Wins path is_dir matched ps =
      LastWins path is_dir ps ⊎ ((matched ≡ true) × All (λ q. ¬ Applies path is_dir q) ps)

  module _ (p : PathPattern) (ps : List PathPattern) (path : List Bytes)
      (is_dir matched : Bool) where
    applied-Wins :
        Applies path is_dir p
        → Wins path is_dir (not p.negated) ps
        → Wins path is_dir matched (p ∷ ps)
    applied-Wins a (inl l) = inl (inl l)
    applied-Wins a (inr (n, all)) = inl (inr (a, ground (arith, n), all))

    Wins-applied :
        Applies path is_dir p
        → Wins path is_dir matched (p ∷ ps)
        → Wins path is_dir (not p.negated) ps
    Wins-applied a (inl (inl l)) = inl l
    Wins-applied a (inl (inr (b, n, all))) = inr (rw n, all)
    Wins-applied a (inr (m, (na, all))) = absurd (na a)

    skipped-Wins :
        ¬ Applies path is_dir p → Wins path is_dir matched ps → Wins path is_dir matched (p ∷ ps)
    skipped-Wins na (inl l) = inl (inl l)
    skipped-Wins na (inr (m, all)) = inr (m, (na, all))

    Wins-skipped :
        ¬ Applies path is_dir p → Wins path is_dir matched (p ∷ ps) → Wins path is_dir matched ps
    Wins-skipped na (inl (inl l)) = inl l
    Wins-skipped na (inl (inr (a, n, all))) = absurd (na a)
    Wins-skipped na (inr (m, (_, all))) = inr (m, all)

  match_loop-Decided :
      (ps : List PathPattern) (path : List Bytes) (is_dir matched : Bool)
      → All HasSegments ps
      → last_of path ≢ none
      → Decided (match_loop glob ps path is_dir matched) (Wins path is_dir matched ps)
  unfolding match_loop
  match_loop-Decided [] path is_dir matched h k =
      test-Decided matched (λ m. inr (m, tt), λ w. elim w [ inl l ↦ absurd l | inr r ↦ r.0 ])
  match_loop-Decided (p ∷ ps) path is_dir matched h k =
      elim (loop-round p ps path is_dir matched h.0 k) [
        | inl (eq, a) ↦
            decided-map _ (match_loop glob (p ∷ ps) path is_dir matched) (sym eq)
              (applied-Wins p ps path is_dir matched a) (Wins-applied p ps path is_dir matched a)
              (match_loop-Decided ps path is_dir (not p.negated) h.1 k)
        | inr (eq, na) ↦
            decided-map _ (match_loop glob (p ∷ ps) path is_dir matched) (sym eq)
              (skipped-Wins p ps path is_dir matched na) (Wins-skipped p ps path is_dir matched na)
              (match_loop-Decided ps path is_dir matched h.1 k)
      ]

  Wins-last :
      (ps : List PathPattern) (path : List Bytes) (is_dir : Bool)
      → Wins path is_dir false ps
      → LastWins path is_dir ps
  Wins-last ps path is_dir (inl l) = l
  Wins-last ps path is_dir (inr (m, all)) = absurd (ground (arith, m))

  pub matches-Decided :
      (ps : List PathPattern) (rel_path : Bytes) (is_dir : Bool)
      → All HasSegments ps
      → rel_path ≢ []
      → rel_path ≢ codes "."
      → Decided (matches glob (some ps) rel_path is_dir) (LastWins (split slash rel_path) is_dir ps)
  unfolding matches
  matches-Decided ps rel_path is_dir h e d =
      decided-map (match_loop glob ps (split slash rel_path) is_dir false)
        (matches glob (some ps) rel_path is_dir) (ground (arith, e, d))
        (Wins-last ps (split slash rel_path) is_dir) inl
        (match_loop-Decided ps (split slash rel_path) is_dir false h (split-last slash rel_path))
