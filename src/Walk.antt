-- ===== src/Walk.antt =====
-- internal/fileext, and the walk over a directory that pkg/mcp/rescan and pkg/compiler share: both
-- give `filepath.WalkDir` a callback with the same tests on names. A directory is the list of its
-- entries in the order of their names, as the walk visits them.
use remindb.Prelude.{
  ℕ, ◌+◌, ◌≡◌, refl, Bool, true, false, not, ◌&&◌, ◌||◌, List, [], ◌∷◌, ◌++◌, map, leb, ◌==◌,
  if◌then◌else◌, Bytes, codes, ◌=s◌, str_dec,
}
use mathlib.Core.List.{reverse}
use remindb.Prelude.Result.{Result, ok, err, ◌>>=◌}
use remindb.Prelude.Sorting.{contains}
use remindb.Prelude.Text.{has_prefix, replace_from, replace_all}

abbrev supported : List Bytes
supported =
    codes ".md"
    ∷ codes ".markdown"
    ∷ codes ".html"
    ∷ codes ".htm"
    ∷ codes ".yaml"
    ∷ codes ".yml"
    ∷ codes ".json"
    ∷ codes ".jsonl"
    ∷ codes ".ndjson"
    ∷ codes ".toon"
    ∷ []

abbrev skip_dirs : List Bytes
skip_dirs =
    codes "Pods"
    ∷ codes "__pycache__"
    ∷ codes "bower_components"
    ∷ codes "dist"
    ∷ codes "node_modules"
    ∷ codes "target"
    ∷ codes "vendor"
    ∷ codes "venv"
    ∷ []

-- The loop of `filepath.Ext`, from the end of the path.
unfoldable ext_of : Bytes → Bytes → Bytes
ext_of [] suffix = []
ext_of (c ∷ s) suffix =
    let more = ext_of s (c ∷ suffix) in
    if c == b'/' then [] else if c == b'.' then c ∷ suffix else more

abbrev lower : ℕ → ℕ
lower c = if leb b'A' c && leb c b'Z' then c + 32 else c

-- `strings.ToLower` as far as it can give an extension of the list: the Kelvin sign is the only rune
-- beside the ASCII letters whose lower case is a letter of one.
abbrev lower_text : Bytes → Bytes
lower_text s = map lower (replace_all (0xE2 ∷ 0x84 ∷ 0xAA ∷ []) (codes "k") s)

-- `Supported`.
unfoldable is_supported : Bytes → Bool
unfolding ext_of contains replace_from
is_supported path = contains (lower_text (ext_of (reverse path) [])) supported

unfoldable should_skip_dir : Bytes → Bool
unfolding has_prefix contains
should_skip_dir name =
    if name =s [] || name =s codes "." || name =s codes ".."
    then false
    else if has_prefix name (codes ".")
    then true
    else contains name skip_dirs

abbrev dir_name : Bytes
dir_name = codes ".remindb"

mutual
  -- `unreadable` is a directory that cannot be read.
  pub data Entry (Info : Type 0) : Type 0 where
    file : Bytes → Info → Entry Info
    folder : Bytes → Entries Info → Entry Info
    unreadable : Bytes → Entry Info

  pub data Entries (Info : Type 0) : Type 0 where
    end : Entries Info
    entry : Entry Info → Entries Info → Entries Info

abbrev under : Bytes → Bytes → Bytes
under [] name = name
under (c ∷ rel) name = (c ∷ rel) ++ b'/' ∷ name

-- `ignored` is the ignore matcher, on a path from the root and whether it is a directory; `escapes`
-- is the test of a symbolic link, which only the compiler makes.
module _ (ignored : Bytes → Bool → Bool) (escapes : Bytes → Bool) where
  -- What the callback answers for a directory below the root, with `SkipDir` as true.
  unfoldable skips_dir : Bytes → Bytes → Bool
  skips_dir rel name = (should_skip_dir name || name =s dir_name) || ignored (under rel name) true

  unfoldable takes_file : Bytes → Bytes → Bool
  takes_file rel name =
      is_supported name && not (ignored (under rel name) false) && not (escapes (under rel name))

module _ {Info : Type 0} (ignored : Bytes → Bool → Bool) (escapes : Bytes → Bool) where
  -- The files that the walk hands on, by their paths from the root, or the path of an error.
  unfoldable walk : Bytes → Entries Info → Result Bytes (List (Bytes × Info))
  walk rel end = ok []
  walk rel (entry (file name info) es) = walk rel es >>= λ rest.
      ok (if takes_file ignored escapes rel name then (under rel name, info) ∷ rest else rest)
  walk rel (entry (unreadable name) es) =
      if skips_dir ignored escapes rel name then walk rel es else err (under rel name)
  walk rel (entry (folder name kids) es) =
      (if skips_dir ignored escapes rel name then ok [] else walk (under rel name) kids)
      >>= λ inside. walk rel es >>= λ rest. ok (inside ++ rest)

  -- The walk from the root, whose path from itself is the dot.
  unfoldable walk_dir : Entries Info → Result Bytes (List (Bytes × Info))
  unfolding walk
  walk_dir es = if ignored (codes ".") true then ok [] else walk [] es

supported_kelvin : is_supported (codes "a.MAR" ++ 0xE2 ∷ 0x84 ∷ 0xAA ∷ codes "down") ≡ true
unfolding is_supported str_dec
supported_kelvin = refl

supported_dot_dir : is_supported (codes "a.md/notes") ≡ false
unfolding is_supported str_dec
supported_dot_dir = refl

-- A hidden directory and one that is ignored are passed over, the second though it cannot be read.
walk_skips :
    walk_dir
      (λ p is_dir. p =s codes "out")
      (λ p. false)
      (entry (folder (codes ".git") (entry (file (codes "x.md") tt) end)) (
        entry (file (codes "a.md") tt) (
          entry
            (folder (codes "docs") (entry (file (codes "b.html") tt) end))
            (entry (unreadable (codes "out")) end))))
    ≡ ok ((codes "a.md", tt) ∷ (codes "docs/b.html", tt) ∷ [])
unfolding walk_dir str_dec skips_dir should_skip_dir takes_file is_supported
walk_skips = refl
