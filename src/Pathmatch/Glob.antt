-- ===== src/Pathmatch/Glob.antt =====
-- What `matchPath` of internal/pathmatch/matcher.go finds, as a cover of the path.
use remindb.Prelude.{
  ◌≡◌, refl, sym, ap, ◌∙◌, subst, ◌≢◌, ◌↔◌, ◌⊎◌, inl, inr, Bool, true, Option, some, List, [], ◌∷◌,
  ◌++◌, arith, Bool-cases, Bytes, str_dec,
}
use remindb.Pathmatch.{match_segment, match_path, match_first, some_rest, any_depth}

module _ (glob : Bytes → Bytes → Option Bool) where
  -- A segment of a pattern takes some segments of a path: `**` any number, and another one of its own.
  abbrev Fits : Bytes → List Bytes → Type 0
  Fits pat segs =
      (pat ≡ any_depth)
      ⊎ ((seg : Bytes) × (pat ≢ any_depth) × (segs ≡ seg ∷ []) × (glob pat seg ≡ some true))

  -- The path falls into parts, one for each segment of the pattern.
  pub data Covers : List Bytes → List Bytes → Type 0 where
    end : Covers [] []
    part :
        {pat : Bytes} {pats segs rest path : List Bytes}
        → Fits pat segs
        → path ≡ segs ++ rest
        → Covers pats rest
        → Covers (pat ∷ pats) path

  pub match_segment_iff :
      (pat seg : Bytes) → (match_segment glob pat seg ≡ true) ↔ (glob pat seg ≡ some true)
  unfolding match_segment
  match_segment_iff pat seg = ground arith

  module _ (P : List Bytes → Type 0) (f : List Bytes → Bool) where
    some_rest-splits :
        ((rest : List Bytes) → f rest ≡ true → P rest)
        → (path : List Bytes) → some_rest f path ≡ true
        → (segs : List Bytes) × (rest : List Bytes) × (path ≡ segs ++ rest) × P rest
    unfolding some_rest
    some_rest-splits sound [] h = ([], [], refl, sound [] h)
    some_rest-splits sound (seg ∷ path) h = elim (Bool-cases (f (seg ∷ path))) [
      | inl here ↦ ([], seg ∷ path, refl, sound (seg ∷ path) here)
      | inr later ↦
          let r = some_rest-splits sound path (ground (arith, h, later)) in
          (seg ∷ r.0, r.1, ap (λ l. seg ∷ l) r.2, r.3)
    ]

  some_rest-append :
      (f : List Bytes → Bool) (segs rest : List Bytes)
      → f rest ≡ true
      → some_rest f (segs ++ rest) ≡ true
  unfolding some_rest
  some_rest-append f [] [] h = h
  some_rest-append f [] (seg ∷ rest) h = ground (arith, h)
  some_rest-append f (seg ∷ segs) rest h = ground (arith, some_rest-append f segs rest h)

  match_first-Covers :
      (pat : Bytes) (pats path : List Bytes)
      → pat ≢ any_depth
      → ((rest : List Bytes) → match_path glob pats rest ≡ true → Covers pats rest)
      → match_first glob pat (match_path glob pats) path ≡ true
      → Covers (pat ∷ pats) path
  unfolding match_first
  match_first-Covers pat pats [] shallow sound h = ground (arith, h)
  match_first-Covers pat pats (seg ∷ path) shallow sound h =
      let here : match_segment glob pat seg ≡ true = ground (arith, h) in
      let later : match_path glob pats path ≡ true = ground (arith, h) in
      part (inr (seg, shallow, refl, (match_segment_iff pat seg).0 here)) refl (sound path later)

  match_path-Covers : (pats path : List Bytes) → match_path glob pats path ≡ true → Covers pats path
  unfolding match_path
  match_path-Covers [] [] h = end
  match_path-Covers [] (seg ∷ path) h = ground (arith, h)
  match_path-Covers (pat ∷ pats) path h = elim (str_dec pat any_depth) [
    | yes deep ↦
        let r =
          some_rest-splits (Covers pats) (match_path glob pats) (match_path-Covers pats) path
            (ground (arith, h, deep)) in
        part (inl deep) r.2 r.3
    | no shallow ↦
        match_first-Covers pat pats path shallow (match_path-Covers pats)
          (ground (arith, h, shallow))
  ]

  Covers-match_path : {pats path : List Bytes} → Covers pats path → match_path glob pats path ≡ true
  unfolding match_path match_first
  Covers-match_path end = refl
  Covers-match_path (part {pat} {pats} {segs} {rest} (inl deep) eq cover) =
      subst (λ p. match_path glob (pat ∷ pats) p ≡ true) (sym eq)
        (ground (
          arith,
          deep,
          some_rest-append (match_path glob pats) segs rest (Covers-match_path cover),
        ))
  Covers-match_path (part {pat} {pats} {segs} {rest} (inr (seg, shallow, one, found)) eq cover) =
      let here : match_segment glob pat seg ≡ true = (match_segment_iff pat seg).1 found in
      subst (λ p. match_path glob (pat ∷ pats) p ≡ true) (sym (eq ∙ ap (λ l. l ++ rest) one))
        (ground (arith, shallow, here, Covers-match_path cover))

  -- `matchPath` finds exactly the paths that fall into parts, one for each segment of the pattern: any
  -- number of segments for `**`, and for another segment one that `path.Match` takes.
  pub match_path_iff :
      (pats path : List Bytes) → (match_path glob pats path ≡ true) ↔ Covers pats path
  match_path_iff pats path = (match_path-Covers pats path, Covers-match_path)
