-- ===== src/Pathmatch.antt =====
-- internal/pathmatch: the patterns of the files `ignore` and `pinned` under .remindb, in the style of
-- gitignore. `path.Match` is the parameter `glob`, whose `none` is a malformed pattern.
pub mod Glob
pub mod LastWins
pub mod Written
pub mod Loaded
mod Examples
use remindb.Prelude.{
  ℕ, zero, suc, ◌+◌, ◌-◌, ◌*◌, ◌/◌, ◌%◌, ◌≤◌, ◌<◌, min, max, ◌≡◌, refl, sym, ap, ◌∙◌, subst, ◌≢◌,
  ◌↔◌, ◌⊎◌, inl, inr, Bool, true, false, not, ◌&&◌, ◌||◌, Option, none, some, List, [], ◌∷◌, ◌++◌,
  map, append_assoc, append-nil, arith, ltb, leb, ◌==◌, if◌then◌else◌, Bool-cases, Option-cases,
  Bytes, codes, ◌=s◌, str_dec, length, get_elem?, set, take, drop, replicate, All, All-append,
  All-map, All-append_left, All-append_right, All-zip, All-pure, length-append, length-take,
  last_of,
}
use remindb.Prelude.Text.{has_prefix, has_suffix, trim_suffix, trim_space, split}
use remindb.Prelude.Result.{Result, ok, err, ◌>>=◌}
use remindb.Prelude.Sorting.{contains}

pub record PathPattern : Type 0 where
  raw : Bytes
  segments : List Bytes
  dir_only : Bool
  anchored : Bool
  negated : Bool

pub data PatternError : Type 0 where
  empty_pattern : PatternError
  empty_segment : PatternError
  invalid_pattern : PatternError

abbrev pub any_depth : Bytes
any_depth = codes "**"

abbrev pub slash : ℕ
slash = 47

-- Whether `\!` or `\#` stands in front.
unfoldable pub is_escaped : Bytes → Bool
unfolding has_prefix
is_escaped s = has_prefix s (codes "\\!") || has_prefix s (codes "\\#")

unfoldable pub has_slash : Bytes → Bool
has_slash [] = false
has_slash (c ∷ s) = c == slash || has_slash s

-- A pattern that is wrong, with its line, or a line that cannot be read.
pub data LoadError : Type 0 where
  unsupported : ℕ → PatternError → LoadError
  too_long : LoadError

abbrev max_token : ℕ
max_token = 65536

unfoldable pub add_pattern :
    ℕ
    → Result PatternError PathPattern
    → Result LoadError (List PathPattern)
    → Result LoadError (List PathPattern)
add_pattern line (err e) rest = err (unsupported line e)
add_pattern line (ok p) rest = rest >>= λ ps. ok (p ∷ ps)

-- Whether `**` finds a rest of the path that the rest of the pattern takes.
unfoldable pub some_rest : (List Bytes → Bool) → List Bytes → Bool
some_rest f [] = f []
some_rest f (seg ∷ segs) = f (seg ∷ segs) || some_rest f segs

module _ (glob : Bytes → Bytes → Option Bool) where
  unfoldable pub match_segment : Bytes → Bytes → Bool
  match_segment pat seg = elim (glob pat seg) [ none ↦ false | some b ↦ b ]

  unfoldable pub match_first : Bytes → (List Bytes → Bool) → List Bytes → Bool
  match_first pat f [] = false
  match_first pat f (seg ∷ segs) = match_segment pat seg && f segs

  unfoldable pub match_path : List Bytes → List Bytes → Bool
  match_path [] [] = true
  match_path [] (seg ∷ segs) = false
  match_path (pat ∷ pats) segs =
      if pat =s any_depth
      then some_rest (match_path pats) segs
      else match_first pat (match_path pats) segs

  -- The first segment of a pattern on the last one of a path; `none` is a panic on an index.
  unfoldable pub match_name : List Bytes → Option Bytes → Option Bool
  match_name [] seg = none
  match_name (pat ∷ pats) none = none
  match_name (pat ∷ pats) (some seg) = some (match_segment pat seg)

  unfoldable pub match_pattern : PathPattern → List Bytes → Option Bool
  match_pattern p segs =
      if not p.anchored
      then match_name p.segments (last_of segs)
      else some (match_path p.segments segs)

  -- The loop of `Match`.
  unfoldable pub match_loop : List PathPattern → List Bytes → Bool → Bool → Option Bool
  match_loop [] segs is_dir matched = some matched
  match_loop (p ∷ ps) segs is_dir matched =
      let skipped = match_loop ps segs is_dir matched in
      let tried : Option Bool = elim (match_pattern p segs) [
        | none ↦ none
        | some found ↦ match_loop ps segs is_dir (if found then not p.negated else matched)
      ] in
      if p.dir_only && not is_dir then skipped else tried

  -- `Match`, where no matcher is no file.
  unfoldable pub matches : Option (List PathPattern) → Bytes → Bool → Option Bool
  unfolding match_loop
  matches none rel_path is_dir = some false
  matches (some ps) rel_path is_dir =
      if rel_path =s [] || rel_path =s codes "."
      then some false
      else match_loop ps (split slash rel_path) is_dir false

  unfoldable pub is_valid : Bytes → Bool
  is_valid seg = seg =s any_depth || elim (glob seg []) [ none ↦ false | some _ ↦ true ]

  unfoldable pub all_valid : List Bytes → Bool
  all_valid [] = true
  all_valid (seg ∷ segs) = is_valid seg && all_valid segs

  -- The end of `parsePattern`, on what is left of a pattern without its marks.
  unfoldable pub parse_segments :
      Bytes → Bytes → Bool → Bool → Bool → Result PatternError PathPattern
  unfolding all_valid
  parse_segments raw s negated anchored dir_only =
      let segs = split slash s in
      if s =s []
      then err empty_pattern
      else if contains [] segs
      then err empty_segment
      else if not (all_valid segs)
      then err invalid_pattern
      else ok (record {
        raw = raw;
        segments = segs;
        dir_only = dir_only;
        anchored = anchored || has_slash s;
        negated = negated;
      })

  unfoldable pub parse_marks : Bytes → Bool → Bytes → Result PatternError PathPattern
  unfolding parse_segments
  parse_marks raw negated s =
      let anchored = has_prefix s (slash ∷ []) in
      let rooted = if anchored then drop 1 s else s in
      parse_segments raw (trim_suffix rooted (slash ∷ [])) negated anchored
        (has_suffix rooted (slash ∷ []))

  unfoldable pub parse_pattern : Bytes → Result PatternError PathPattern
  unfolding parse_marks
  parse_pattern raw =
      if is_escaped raw
      then parse_marks raw false (drop 1 raw)
      else if has_prefix raw (codes "!")
      then parse_marks raw true (drop 1 raw)
      else parse_marks raw false raw

  -- The loop of `loadMatcher` over the lines of a file; `bufio.Scanner` fails on one of 64 KiB.
  unfoldable pub load_lines : ℕ → List Bytes → Result LoadError (List PathPattern)
  unfolding parse_pattern
  load_lines line [] = ok []
  load_lines line (text ∷ texts) =
      let raw = trim_space text in
      let rest = load_lines (line + 1) texts in
      if not (ltb (length text) max_token)
      then err too_long
      else if raw =s [] || has_prefix raw (codes "#")
      then rest
      else add_pattern (line + 1) (parse_pattern raw) rest

  -- No file is no matcher.
  unfoldable pub load_matcher : Option (List Bytes) → Result LoadError (Option (List PathPattern))
  unfolding load_lines
  load_matcher none = ok none
  load_matcher (some texts) = load_lines 0 texts >>= λ ps. ok (some ps)
