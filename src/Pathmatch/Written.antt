-- ===== src/Pathmatch/Written.antt =====
-- How a line of a pattern file is read: `parsePattern` of internal/pathmatch/matcher.go.
use remindb.Prelude.{
  ℕ, ◌≡◌, refl, sym, ap, ◌∙◌, subst, ◌≢◌, inl, inr, Bool, true, false, ◌||◌, Option, List, [], ◌∷◌,
  ◌++◌, arith, ◌==◌, if◌then◌else◌, Bool-cases, Bytes, codes, ◌=s◌, drop, All,
}
use remindb.Prelude.Result.{Result, ok, err}
use remindb.Prelude.Sorting.{contains}
use remindb.Prelude.Text.{
  has_prefix, has_suffix, has_prefix-eq, trim_suffix, trim_suffix-there, trim_suffix-absent, split,
  split-cons, join, join-split,
}
use remindb.Pathmatch.{
  PathPattern, is_escaped, has_slash, slash, all_valid, parse_segments, parse_marks, parse_pattern,
}

-- What a result holds where it holds something.
abbrev pub OkHolds : {Fault X : Type 0} → (X → Type 0) → Result Fault X → Type 0
OkHolds P (ok x) = P x
OkHolds P (err e) = Unit

-- A `!` in front negates a pattern, and a backslash in front of a `!` or a `#` takes its meaning away.
pub data Marked (raw rest : Bytes) (negated : Bool) : Type 0 where
  negation : raw ≡ 33 ∷ rest → negated ≡ true → Marked raw rest negated
  escape :
      raw ≡ 92 ∷ rest
      → (has_prefix rest (codes "!") || has_prefix rest (codes "#")) ≡ true
      → negated ≡ false
      → Marked raw rest negated
  unmarked :
      raw ≡ rest
      → has_prefix raw (codes "!") ≡ false
      → has_prefix raw (codes "\\!") ≡ false
      → has_prefix raw (codes "\\#") ≡ false
      → negated ≡ false
      → Marked raw rest negated

-- A slash in front of the path.
pub data Rooted (rest path : Bytes) (rooted : Bool) : Type 0 where
  leading : rest ≡ slash ∷ path → rooted ≡ true → Rooted rest path rooted
  bare :
      rest ≡ path → has_prefix rest (slash ∷ []) ≡ false → rooted ≡ false → Rooted rest path rooted

-- A slash at the end of the path.
pub data Ends (path body : Bytes) (dir_only : Bool) : Type 0 where
  trailing : path ≡ body ++ slash ∷ [] → dir_only ≡ true → Ends path body dir_only
  closed :
      path ≡ body
      → has_suffix path (slash ∷ []) ≡ false
      → dir_only ≡ false
      → Ends path body dir_only

abbrev several {ℓ} : {A : Type ℓ} → List A → Bool
several [] = false
several (a ∷ []) = false
several (a ∷ b ∷ l) = true

-- The segments stand between slashes, and none of them is empty.
abbrev pub Segments : Bytes → List Bytes → Type 0
Segments body segs =
    (body ≢ [])
    × (body ≡ join (slash ∷ []) segs)
    × All (λ seg. has_slash seg ≡ false) segs
    × (contains [] segs ≡ false)

-- The text of a pattern: its mark, a slash in front, the segments, and a slash at the end. It is
-- anchored by a slash in front or between two segments.
pub data Written (raw : Bytes) (p : PathPattern) : Type 0 where
  text :
      {rest path body : Bytes} {rooted : Bool}
      → Marked raw rest p.negated
      → Rooted rest path rooted
      → Ends path body p.dir_only
      → Segments body p.segments
      → p.anchored ≡ (rooted || several p.segments)
      → Written raw p

split-slashless : (s : Bytes) → All (λ seg. has_slash seg ≡ false) (split slash s)
unfolding split has_slash
split-slashless [] = (refl, tt)
split-slashless (c ∷ s) =
    let (l, ls, shape) = split-cons slash s in
    let rest : All (λ seg. has_slash seg ≡ false) (l ∷ ls) =
      subst (All (λ seg. has_slash seg ≡ false)) shape (split-slashless s) in
    elim (Bool-cases (c == slash)) [
      | inl stop ↦ rw (stop, shape) (refl, rest)
      | inr on ↦ rw (on, shape) (ground (arith, on, rest.0), rest.1)
    ]

several-head : (c : ℕ) (l : Bytes) (ls : List Bytes) → several ((c ∷ l) ∷ ls) ≡ several (l ∷ ls)
several-head c l [] = refl
several-head c l (k ∷ ls) = refl

several-split : (s : Bytes) → several (split slash s) ≡ has_slash s
unfolding split has_slash
several-split [] = refl
several-split (c ∷ s) =
    let (l, ls, shape) = split-cons slash s in
    let rest : several (l ∷ ls) ≡ has_slash s = ap several (sym shape) ∙ several-split s in
    elim (Bool-cases (c == slash)) [
      | inl stop ↦ rw (stop, shape) (ground (arith, stop))
      | inr on ↦ rw (on, shape) (several-head c l ls ∙ ground (arith, on, rest))
    ]

prefix-Rooted :
    (rest : Bytes) (b : Bool)
    → has_prefix rest (slash ∷ []) ≡ b
    → Rooted rest (if b then drop 1 rest else rest) b
prefix-Rooted rest true h = leading (has_prefix-eq rest (slash ∷ []) h) refl
prefix-Rooted rest false h = bare refl h refl

suffix-Ends :
    (path : Bytes) (b : Bool)
    → has_suffix path (slash ∷ []) ≡ b
    → Ends path (trim_suffix path (slash ∷ [])) b
suffix-Ends path true h = trailing (trim_suffix-there path slash h) refl
suffix-Ends path false h = closed (sym (trim_suffix-absent path slash h)) h refl

escaped-head : (raw : Bytes) → is_escaped raw ≡ true → raw ≡ 92 ∷ drop 1 raw
unfolding is_escaped has_prefix
escaped-head [] h = ground (arith, h)
escaped-head (c ∷ s) h = ground (arith, h)

escaped-second :
    (raw : Bytes)
    → is_escaped raw ≡ true
    → (has_prefix (drop 1 raw) (codes "!") || has_prefix (drop 1 raw) (codes "#")) ≡ true
unfolding is_escaped has_prefix
escaped-second [] h = ground (arith, h)
escaped-second (c ∷ s) h = ground (arith, h)

plain-Marked :
    (raw : Bytes)
    → is_escaped raw ≡ false
    → has_prefix raw (codes "!") ≡ false
    → Marked raw raw false
unfolding is_escaped
plain-Marked raw e h = unmarked refl h (ground (arith, e)) (ground (arith, e)) refl

module _ (glob : Bytes → Bytes → Option Bool) where
  parse_segments-Written :
      (raw rest path body : Bytes) (negated rooted dir_only : Bool)
      → Marked raw rest negated
      → Rooted rest path rooted
      → Ends path body dir_only
      → OkHolds (Written raw) (parse_segments glob raw body negated rooted dir_only)
  unfolding parse_segments
  parse_segments-Written raw rest path body negated rooted dir_only m r e =
      let segs = split slash body in
      elim (Bool-cases (body =s [])) [
        | inl empty ↦ rw empty tt
        | inr filled ↦ elim (Bool-cases (contains [] segs)) [
          | inl gap ↦ rw (filled, gap) tt
          | inr full ↦ elim (Bool-cases (all_valid glob segs)) [
            | inl valid ↦
                rw (filled, full, valid)
                  (text m r e
                    (
                      λ h. ground (arith, filled, h),
                      sym (join-split slash body),
                      split-slashless body,
                      full,
                    )
                    (ap (λ b. rooted || b) (sym (several-split body))))
            | inr invalid ↦ rw (filled, full, invalid) tt
          ]
        ]
      ]

  parse_marks-Written :
      (raw rest : Bytes) (negated : Bool)
      → Marked raw rest negated
      → OkHolds (Written raw) (parse_marks glob raw negated rest)
  unfolding parse_marks
  parse_marks-Written raw rest negated m =
      let rooted = has_prefix rest (slash ∷ []) in
      let path = if rooted then drop 1 rest else rest in
      parse_segments-Written raw rest path (trim_suffix path (slash ∷ [])) negated rooted
        (has_suffix path (slash ∷ [])) m (prefix-Rooted rest rooted refl)
        (suffix-Ends path (has_suffix path (slash ∷ [])) refl)

  pub parse_pattern-Written : (raw : Bytes) → OkHolds (Written raw) (parse_pattern glob raw)
  unfolding parse_pattern
  parse_pattern-Written raw = elim (Bool-cases (is_escaped raw)) [
    | inl e ↦ rw e (
        parse_marks-Written raw (drop 1 raw) false
          (escape (escaped-head raw e) (escaped-second raw e) refl))
    | inr e ↦ elim (Bool-cases (has_prefix raw (codes "!"))) [
      | inl h ↦
          rw (e, h)
            (parse_marks-Written raw (drop 1 raw) true
              (negation (has_prefix-eq raw (codes "!") h) refl))
      | inr h ↦ rw (e, h) (parse_marks-Written raw raw false (plain-Marked raw e h))
    ]
  ]
