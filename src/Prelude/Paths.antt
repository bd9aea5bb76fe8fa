-- ===== src/Prelude/Paths.antt =====
-- What the code uses of Go's `path/filepath` on a system whose separator is the slash.
use mathlib.Core.Path.{◌≡◌, refl}
use mathlib.Core.Bool.{Bool, true, false}
use mathlib.Core.List.{List, [], ◌∷◌, ◌++◌, reverse}
use remindb.Prelude.Tests.{if◌then◌else◌}
use remindb.Prelude.Strings.{Bytes, codes, ◌=s◌, str_dec}
use remindb.Prelude.Text.{has_prefix, split, join}

abbrev pub slash : Bytes
slash = codes "/"

abbrev dot : Bytes
dot = codes "."

abbrev pub dot_dot : Bytes
dot_dot = codes ".."

-- A step back: over an element that is not itself a step back, and nowhere at the root.
abbrev step_back : Bool → List Bytes → List Bytes
step_back rooted [] = if rooted then [] else dot_dot ∷ []
step_back rooted (e ∷ out) = if e =s dot_dot then dot_dot ∷ e ∷ out else out

-- The elements of a clean path, the last one first.
unfoldable pub clean_parts : Bool → List Bytes → List Bytes → List Bytes
clean_parts rooted out [] = out
clean_parts rooted out (e ∷ es) =
    clean_parts rooted
      (if e =s []
        then out
        else if e =s dot
        then out
        else if e =s dot_dot
        then step_back rooted out
        else e ∷ out)
      es

abbrev join_path : Bool → List Bytes → Bytes
join_path true parts = slash ++ join slash parts
join_path false [] = dot
join_path false (p ∷ parts) = join slash (p ∷ parts)

-- `filepath.Clean`.
unfoldable pub clean : Bytes → Bytes
unfolding has_prefix split join clean_parts
clean path =
    let rooted = has_prefix path slash in
    join_path rooted (reverse (clean_parts rooted [] (split b'/' path)))

abbrev drop_last : List Bytes → List Bytes
drop_last l = elim (reverse l) [ [] ↦ [] | e ∷ es ↦ reverse es ]

-- `filepath.Dir`: what stands up to the last separator, made clean.
unfoldable pub dir : Bytes → Bytes
unfolding clean split join
dir path = clean (join slash (drop_last (split b'/' path) ++ [] ∷ []))

clean_test : clean (codes "a/./b/../c//d/") ≡ codes "a/c/d"
unfolding clean str_dec
clean_test = refl

clean_root_test : clean (codes "/../a") ≡ codes "/a"
unfolding clean str_dec
clean_root_test = refl

dir_test : dir (codes "/docs/a.md") ≡ codes "/docs"
unfolding dir str_dec
dir_test = refl

dir_top_test : dir (codes "a.md") ≡ codes "."
unfolding dir str_dec
dir_top_test = refl
