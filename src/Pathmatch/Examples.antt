-- ===== src/Pathmatch/Examples.antt =====
-- Runs of internal/pathmatch on a small file, and the witnesses of its theorems.
use remindb.Prelude.{
  ◌≡◌, refl, ◌↔◌, Bool, true, false, Option, none, some, List, [], ◌∷◌, arith, ◌==◌, if◌then◌else◌,
  Bytes, codes, ◌=s◌, str_dec,
}
use remindb.Prelude.Result.{ok, err}
use remindb.Prelude.Text.{has_suffix, trim_space, split, trim_suffix}
use remindb.Pathmatch.{
  PathPattern, invalid_pattern, empty_segment, unsupported, load_matcher, matches, match_path,
  slash, add_pattern, is_escaped, is_valid, has_slash, match_pattern, match_name, match_first,
  match_segment, some_rest,
}
use remindb.Pathmatch.Glob.{Covers, match_path_iff}
use remindb.Pathmatch.LastWins.{Decided, LastWins}
use remindb.Pathmatch.Loaded.{Reads, load_matcher-Decided}
use remindb.Prelude.Sorting.{contains}

-- Of `path.Match`, a leading star, and a bracket that is not closed.
abbrev star_glob : Bytes → Bytes → Option Bool
star_glob [] seg = some (seg =s [])
star_glob (c ∷ pat) seg =
    if c == 42 then some (has_suffix seg pat) else if c == 91 then none else some (c ∷ pat =s seg)

abbrev ignore_file : List Bytes
ignore_file =
    codes "# notes" ∷ codes " *.md " ∷ codes "!keep.md" ∷ codes "/build/" ∷ codes "a/**/b" ∷ []

abbrev ignore_patterns : List PathPattern
ignore_patterns =
    record {
      raw = codes "*.md";
      segments = codes "*.md" ∷ [];
      dir_only = false;
      anchored = false;
      negated = false;
    }
    ∷ record {
      raw = codes "!keep.md";
      segments = codes "keep.md" ∷ [];
      dir_only = false;
      anchored = false;
      negated = true;
    }
    ∷ record {
      raw = codes "/build/";
      segments = codes "build" ∷ [];
      dir_only = true;
      anchored = true;
      negated = false;
    }
    ∷ record {
      raw = codes "a/**/b";
      segments = codes "a" ∷ codes "**" ∷ codes "b" ∷ [];
      dir_only = false;
      anchored = true;
      negated = false;
    }
    ∷ []

load_ignore : load_matcher star_glob (some ignore_file) ≡ ok (some ignore_patterns)
unfolding load_matcher str_dec trim_space add_pattern is_escaped trim_suffix contains split is_valid
    has_suffix has_slash
load_ignore = refl

keeps_kept : matches star_glob (some ignore_patterns) (codes "x/keep.md") false ≡ some false
unfolding matches str_dec match_pattern match_name split match_path match_first match_segment
keeps_kept = refl

ignores_deep : matches star_glob (some ignore_patterns) (codes "a/x/y/b") false ≡ some true
unfolding matches str_dec match_pattern match_name split match_path match_first match_segment
    some_rest
ignores_deep = refl

load_bad :
    load_matcher star_glob (some (codes "x" ∷ codes "[" ∷ [])) ≡ err (unsupported 2 invalid_pattern)
unfolding load_matcher str_dec trim_space add_pattern is_escaped trim_suffix contains split is_valid
load_bad = refl

-- Two slashes in front leave an empty segment.
load_slashes : load_matcher star_glob (some (codes "//x" ∷ [])) ≡ err (unsupported 1 empty_segment)
unfolding load_matcher str_dec trim_space add_pattern is_escaped trim_suffix contains split
load_slashes = refl

load_matcher-Decided_example :
    Reads ignore_file ignore_patterns
    × Decided
        (matches star_glob (some ignore_patterns) (codes "x/keep.md") false)
        (LastWins star_glob (split slash (codes "x/keep.md")) false ignore_patterns)
load_matcher-Decided_example =
    load_matcher-Decided star_glob ignore_file ignore_patterns (codes "x/keep.md") false load_ignore
      (λ h. ground (arith, h)) (λ h. ground (arith, h))

match_path_iff_example :
    (match_path star_glob (codes "a" ∷ codes "**" ∷ codes "b" ∷ []) (codes "a" ∷ codes "b" ∷ [])
      ≡ true)
    ↔ Covers star_glob (codes "a" ∷ codes "**" ∷ codes "b" ∷ []) (codes "a" ∷ codes "b" ∷ [])
match_path_iff_example =
    match_path_iff star_glob (codes "a" ∷ codes "**" ∷ codes "b" ∷ []) (codes "a" ∷ codes "b" ∷ [])
