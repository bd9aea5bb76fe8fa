-- ===== src/Transformer/Identity/Siblings.antt =====
-- No position stands twice in a tree.
use remindb.Prelude.{
  ℕ, ◌+◌, ◌≤◌, ◌<◌, ◌≡◌, refl, sym, ap, ◌∙◌, ◌≢◌, Bool, true, false, List, [], ◌∷◌, ◌++◌,
  append_assoc, arith, if◌then◌else◌, Bytes, ◌=s◌, length, All, All-append, All-map, length-append,
}
use remindb.Prelude.Assoc.{lookup, insert, lookup-insert}
use native.Mathlib.Nat.{le_trans}
use remindb.Parser.Ast.{Trees, node, nil, cons}
use remindb.Store.Rows.{get_or}
use remindb.Transformer.Identity.{sibling_index}
use remindb.Transformer.Identity.Positions.{Place, Position, id_of, positions}

abbrev pub DistinctPositions : List Position → Type 0
DistinctPositions [] = Unit
DistinctPositions (p ∷ ps) = All (λ q. p ≢ q) ps × DistinctPositions ps

DistinctPositions-append :
    (ps qs : List Position)
    → DistinctPositions ps
    → DistinctPositions qs
    → All (λ p. All (λ q. p ≢ q) qs) ps
    → DistinctPositions (ps ++ qs)
DistinctPositions-append [] qs dp dq apart = dq
DistinctPositions-append (p ∷ ps) qs dp dq apart =
    (All-append _ ps qs dp.0 apart.0, DistinctPositions-append ps qs dp.1 dq apart.1)

-- The position is that of a child at a place, or of a node below it.
abbrev Under : Place → Position → Position → Type 0
Under a up q = (xs : Position) × (q ≡ xs ++ a ∷ up)

Under-eq : (xs ys up : Position) (a b : Place) → xs ++ a ∷ up ≡ ys ++ b ∷ up → a ≡ b
Under-eq [] [] up a b e = cc
Under-eq [] (y ∷ ys) up a b e = absurd (omega (arith, ap length e, length-append ys (b ∷ up)))
Under-eq (x ∷ xs) [] up a b e = absurd (omega (arith, ap length e, length-append xs (a ∷ up)))
Under-eq (x ∷ xs) (y ∷ ys) up a b e = Under-eq xs ys up a b (cc)

Under-ne : {a b : Place} {up p q : Position} → a ≢ b → Under a up p → Under b up q → p ≢ q
Under-ne {a} {b} {up} ne (xs, e) (ys, e') same = ne (Under-eq xs ys up a b (sym e ∙ same ∙ e'))

-- The least index that a sibling of a file can still get.
abbrev next_index : Bool → List (Bytes × ℕ) → ℕ → Bytes → ℕ
next_index top per_file i file = if top then get_or (lookup file per_file) 0 else i

later_ne : (free : Bytes → ℕ) (a b : Place) → a.1 < free a.0 → free b.0 ≤ b.1 → a ≢ b
later_ne free a b h k e =
    let files : free a.0 ≡ free b.0 = ap (λ (c : Place). free c.0) e in
    let indices : a.1 ≡ b.1 = ap (λ (c : Place). c.1) e in omega arith

Under-ne_self : {up q : Position} {b : Place} → Under b up q → up ≢ q
Under-ne_self {up} {q} {b} (xs, e) same =
    absurd (omega (arith, ap length (same ∙ e), length-append xs (b ∷ up)))

module _ (hash : Bytes → ℕ) where
  abbrev top_of : Position → Bool
  top_of up = id_of hash up =s []

  abbrev Later : Position → List (Bytes × ℕ) → ℕ → Position → Type 0
  Later up per_file i q = (a : Place) × (next_index (top_of up) per_file i a.0 ≤ a.1) × Under a up q

  next_index-insert :
      (top : Bool) (per_file : List (Bytes × ℕ)) (i : ℕ) (file g : Bytes)
      → next_index top per_file i g
        ≤ next_index top (insert file (next_index top per_file i file + 1) per_file) (i + 1) g
  next_index-insert true per_file i file g =
      rw (lookup-insert g file (get_or (lookup file per_file) 0 + 1) per_file) (ground arith)
  next_index-insert false per_file i file g = omega arith

  next_index-insert_self :
      (top : Bool) (per_file : List (Bytes × ℕ)) (i : ℕ) (file : Bytes)
      → next_index top per_file i file
        < next_index top (insert file (next_index top per_file i file + 1) per_file) (i + 1) file
  next_index-insert_self true per_file i file =
      rw (lookup-insert file file (get_or (lookup file per_file) 0 + 1) per_file) (ground arith)
  next_index-insert_self false per_file i file = omega arith

  Under-above : {up q : Position} {a b : Place} → Under b (a ∷ up) q → Under a up q
  Under-above {up} {q} {a} {b} (xs, e) = (xs ++ b ∷ [], e ∙ sym (append_assoc xs (b ∷ []) (a ∷ up)))

  positions-Later :
      (up : Position) (per_file : List (Bytes × ℕ)) (i : ℕ) (ts : Trees)
      → All (Later up per_file i) (positions hash up per_file i ts)
  unfolding positions
  positions-Later up per_file i nil = tt
  positions-Later up per_file i (cons (node n kids) ts) =
      let at = sibling_index (id_of hash up) per_file i n in
      let here : Position = (n.source_file, at) ∷ up in
      let per_file' = insert n.source_file (at + 1) per_file in
      let below = positions hash here [] 0 kids in
      let beside = positions hash up per_file' (i + 1) ts in
      let own : next_index (top_of up) per_file i n.source_file ≤ at = omega arith in
      (
        ((n.source_file, at), own, ([], refl)),
        All-append (Later up per_file i) below beside
            (All-map (λ q (h : Later here [] 0 q). ((n.source_file, at), own, Under-above h.2))
              below (positions-Later here [] 0 kids))
            (All-map
              (λ q (h : Later up per_file' (i + 1) q). (
                h.0,
                le_trans (next_index-insert (top_of up) per_file i n.source_file h.0.0) h.1,
                h.2,
              ))
              beside (positions-Later up per_file' (i + 1) ts)),
      )

  positions-Under :
      (a : Place) (up : Position) (kids : Trees)
      → All (Under a up) (positions hash (a ∷ up) [] 0 kids)
  positions-Under a up kids =
      All-map (λ q (h : Later (a ∷ up) [] 0 q). Under-above h.2) (positions hash (a ∷ up) [] 0 kids)
        (positions-Later (a ∷ up) [] 0 kids)

  pub positions-DistinctPositions :
      (up : Position) (per_file : List (Bytes × ℕ)) (i : ℕ) (ts : Trees)
      → DistinctPositions (positions hash up per_file i ts)
  unfolding positions
  positions-DistinctPositions up per_file i nil = tt
  positions-DistinctPositions up per_file i (cons (node n kids) ts) =
      let at = sibling_index (id_of hash up) per_file i n in
      let a : Place = (n.source_file, at) in
      let per_file' = insert n.source_file (at + 1) per_file in
      let below = positions hash (a ∷ up) [] 0 kids in
      let beside = positions hash up per_file' (i + 1) ts in
      let later : (q : Position)
          → Later up per_file' (i + 1) q
          → (p : Position) → Under a up p
          → p ≢ q =
        λ q h p u.
          Under-ne
            (later_ne (next_index (top_of up) per_file' (i + 1)) a h.0
              (next_index-insert_self (top_of up) per_file i n.source_file) h.1)
            u h.2 in
      let apart : (p : Position) → Under a up p → All (λ q. p ≢ q) beside =
        λ p u. All-map (λ q h. later q h p u) beside (positions-Later up per_file' (i + 1) ts) in
      (
        All-append (λ q. a ∷ up ≢ q) below beside
            (All-map (λ q (h : Later (a ∷ up) [] 0 q). Under-ne_self h.2) below
              (positions-Later (a ∷ up) [] 0 kids))
            (apart (a ∷ up) ([], refl)),
        DistinctPositions-append below beside (positions-DistinctPositions (a ∷ up) [] 0 kids)
            (positions-DistinctPositions up per_file' (i + 1) ts)
            (All-map apart below (positions-Under a up kids)),
      )
