-- ===== src/Pathmatch/Loaded.antt =====
-- The patterns that internal/pathmatch/loader.go reads from a file, and what they match.
use remindb.Prelude.{
  ℕ, ◌+◌, ◌≡◌, subst, ◌≢◌, ◌⊎◌, inl, inr, Bool, true, false, Option, none, some, List, [], ◌∷◌,
  arith, ltb, Bool-cases, Bytes, codes, ◌=s◌, length, All,
}
use remindb.Prelude.Result.{Result, ok, err, ◌>>=◌}
use remindb.Prelude.Text.{has_prefix, trim_space, split, join}
use remindb.Pathmatch.{
  PathPattern, PatternError, LoadError, parse_pattern, add_pattern, load_lines, load_matcher,
  matches, slash,
}
use remindb.Pathmatch.LastWins.{LastWins, Decided, HasSegments, matches-Decided}
use remindb.Pathmatch.Written.{OkHolds, Written, Segments, text, parse_pattern-Written}

-- The patterns of the lines of a file, in their order: a line without its surrounding space is one,
-- unless it is empty or starts with a `#`.
pub data Reads : List Bytes → List PathPattern → Type 0 where
  finished : Reads [] []
  passed :
      {line : Bytes} {lines : List Bytes} {ps : List PathPattern}
      → (trim_space line ≡ []) ⊎ (has_prefix (trim_space line) (codes "#") ≡ true)
      → Reads lines ps
      → Reads (line ∷ lines) ps
  pattern :
      {line : Bytes} {lines : List Bytes} {p : PathPattern} {ps : List PathPattern}
      → trim_space line ≢ []
      → has_prefix (trim_space line) (codes "#") ≡ false
      → Written (trim_space line) p
      → Reads lines ps
      → Reads (line ∷ lines) (p ∷ ps)

Segments-filled : (body : Bytes) (segs : List Bytes) → Segments body segs → segs ≢ []
unfolding join
Segments-filled body [] (filled, joined, _, _) e = filled joined
Segments-filled body (seg ∷ segs) s e = ground (arith, e)

Written-HasSegments : {raw : Bytes} {p : PathPattern} → Written raw p → HasSegments p
Written-HasSegments {p = p} (text {body = body} m r e segs a) = Segments-filled body p.segments segs

Reads-HasSegments :
    {lines : List Bytes} {ps : List PathPattern} → Reads lines ps → All HasSegments ps
Reads-HasSegments finished = tt
Reads-HasSegments (passed h r) = Reads-HasSegments r
Reads-HasSegments (pattern h k w r) = (Written-HasSegments w, Reads-HasSegments r)

abbrev MatcherReads : List Bytes → Option (List PathPattern) → Type 0
MatcherReads lines none = Unit
MatcherReads lines (some ps) = Reads lines ps

ok-then :
    (lines : List Bytes) (r : Result LoadError (List PathPattern))
    → OkHolds (Reads lines) r
    → OkHolds (MatcherReads lines) (r >>= λ ps. ok (some ps))
ok-then lines (ok ps) h = h
ok-then lines (err e) h = tt

add_pattern-Reads :
    (number : ℕ) (line : Bytes) (lines : List Bytes) (p : Result PatternError PathPattern)
    (rest : Result LoadError (List PathPattern))
    → trim_space line ≢ []
    → has_prefix (trim_space line) (codes "#") ≡ false
    → OkHolds (Written (trim_space line)) p
    → OkHolds (Reads lines) rest
    → OkHolds (Reads (line ∷ lines)) (add_pattern number p rest)
unfolding add_pattern
add_pattern-Reads number line lines (err e) rest h k w r = tt
add_pattern-Reads number line lines (ok p) (err e) h k w r = tt
add_pattern-Reads number line lines (ok p) (ok ps) h k w r = pattern h k w r

passed-Reads :
    (line : Bytes) (lines : List Bytes) (rest : Result LoadError (List PathPattern))
    → (trim_space line ≡ []) ⊎ (has_prefix (trim_space line) (codes "#") ≡ true)
    → OkHolds (Reads lines) rest
    → OkHolds (Reads (line ∷ lines)) rest
passed-Reads line lines (ok ps) h r = passed h r
passed-Reads line lines (err e) h r = tt

module _ (glob : Bytes → Bytes → Option Bool) where
  load_lines-Reads :
      (number : ℕ) (lines : List Bytes) → OkHolds (Reads lines) (load_lines glob number lines)
  unfolding load_lines
  load_lines-Reads number [] = finished
  load_lines-Reads number (line ∷ lines) =
      let rest = load_lines-Reads (number + 1) lines in
      let raw = trim_space line in
      let later = load_lines glob (number + 1) lines in
      elim (Bool-cases (ltb (length line) 65536)) [
        | inr long ↦ rw long tt
        | inl fits ↦ elim (Bool-cases (raw =s [])) [
          | inl empty ↦
              rw (fits, empty) (passed-Reads line lines later (inl (ground (arith, empty))) rest)
          | inr filled ↦ elim (Bool-cases (has_prefix raw (codes "#"))) [
            | inl comment ↦
                rw (fits, filled, comment) (passed-Reads line lines later (inr comment) rest)
            | inr plain ↦
                rw (fits, filled, plain)
                  (add_pattern-Reads (number + 1) line lines (parse_pattern glob raw) later
                    (λ h. ground (arith, filled, h)) plain (parse_pattern-Written glob raw) rest)
          ]
        ]
      ]

  load_matcher-Reads :
      (lines : List Bytes) → OkHolds (MatcherReads lines) (load_matcher glob (some lines))
  unfolding load_matcher
  load_matcher-Reads lines = ok-then lines (load_lines glob 0 lines) (load_lines-Reads 0 lines)

  -- `loadMatcher` reads the patterns of a file from its lines, in their order, without the empty ones
  -- and those that start with a `#`: a leading `!` that is not escaped negates a pattern, a slash in
  -- front or between two segments anchors it, and one at the end makes it one for directories. Of
  -- these patterns, the last one that applies to a path decides: `Match` answers with true where it
  -- is not negated, and with false where it is or where none applies, and never with a panic. An
  -- anchored pattern applies where its segments cover the path, `**` any number of them, another one
  -- where it takes the last segment, and one for directories to them only. The path is neither empty
  -- nor the root.
  pub load_matcher-Decided :
      (lines : List Bytes) (ps : List PathPattern) (rel_path : Bytes) (is_dir : Bool)
      → load_matcher glob (some lines) ≡ ok (some ps)
      → rel_path ≢ []
      → rel_path ≢ codes "."
      → Reads lines ps
        × Decided
            (matches glob (some ps) rel_path is_dir)
            (LastWins glob (split slash rel_path) is_dir ps)
  load_matcher-Decided lines ps rel_path is_dir h e d =
      let reads : Reads lines ps =
        subst (OkHolds (MatcherReads lines)) h (load_matcher-Reads lines) in
      (reads, matches-Decided glob ps rel_path is_dir (Reads-HasSegments reads) e d)
