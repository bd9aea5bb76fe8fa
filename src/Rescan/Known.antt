-- ===== src/Rescan/Known.antt =====
-- After a scan that succeeded, all that has settled is known.
use remindb.Prelude.{
  ℕ, ◌≡◌, refl, sym, subst, inl, inr, true, ◌&&◌, none, some, List, [], ◌∷◌, map, arith, Bool-cases,
  Bytes, All, All-map,
}
use remindb.Prelude.Assoc.{lookup, insert, lookup-insert}
use remindb.Prelude.Sorting.{contains, DistinctStrings}
use remindb.Rescan.{
  Times, FileInfo, Loop, is_newer, is_settled, changed_files, deleted_paths, forget_paths,
  copy_times,
}
use remindb.Rescan.Quiet.{
  Agree, AllSeen, Known, changed_files-none, lookup-forget_paths, paths_of-changed,
  contains-deleted_paths, changed_files-changed, lookup-copy_times, insert-Agree,
  changed_files-same,
}

-- After the times of the changed files are stored, all that has settled is known.
pub copy_times-Known :
    (now settle : ℕ) (times times' : Times) (files : List FileInfo)
    → DistinctStrings (map (λ (f : FileInfo). f.0) files)
    → Agree times times' files
    → All (Known now settle (copy_times (changed_files now settle times files) times')) files
unfolding copy_times
copy_times-Known now settle times times' [] d a = tt
copy_times-Known now settle times times' ((path, none) ∷ files) d a =
    subst (λ (l : Times). All (Known now settle (copy_times l times')) ((path, none) ∷ files))
      (sym (changed_files-none now settle times path files))
      (tt, copy_times-Known now settle times times' files d.1 a.1)
copy_times-Known now settle times times' ((path, some m) ∷ files) d a =
    let rest = changed_files now settle times files in
    let fresh = paths_of-changed path now settle times files d.0 in
    let Goal : Times → Type 0 =
      λ l. All (Known now settle (copy_times l times')) ((path, some m) ∷ files) in
    elim (Bool-cases (is_settled now settle m && is_newer (lookup path times) m)) [
      | inl changed ↦
          subst Goal (sym (changed_files-changed now settle times path m files changed)) (
            (λ _.
                rw (lookup-copy_times path rest (insert path m times') fresh)
                  (rw (lookup-insert path path m times') (ground arith))),
            copy_times-Known now settle times (insert path m times') files d.1
                (insert-Agree times times' path m files d.0 a.1),
          )
      | inr same ↦ subst Goal (sym (changed_files-same now settle times path m files same)) (
        (λ settled.
            rw (lookup-copy_times path rest times' fresh) (rw a.0 (ground (arith, same, settled)))),
        copy_times-Known now settle times times' files d.1 a.1,
      )
    ]

-- A path of the walk is not among the deleted ones.
pub forget_paths-Agree :
    (seen : List Bytes) (times : Times) (files : List FileInfo)
    → All (λ (f : FileInfo). contains f.0 seen ≡ true) files
    → Agree times (forget_paths (deleted_paths seen times) times) files
forget_paths-Agree seen times files h =
    All-map
      (λ (f : FileInfo) s.
        rw (lookup-forget_paths f.0 (deleted_paths seen times) times)
          (rw (contains-deleted_paths f.0 seen times s) refl))
      files h

pub own_paths :
    (files : List FileInfo)
    → All (λ (f : FileInfo). contains f.0 (map (λ (g : FileInfo). g.0) files) ≡ true) files
unfolding contains
own_paths [] = tt
own_paths ((path, t) ∷ files) =
    (ground arith, All-map (λ (f : FileInfo) h. ground (arith, h)) files (own_paths files))

-- The paths of the changed files were seen.
pub changed_files-AllSeen :
    (now settle : ℕ) (times : Times) (seen : List Bytes) (files : List FileInfo)
    → All (λ (f : FileInfo). contains f.0 seen ≡ true) files
    → AllSeen seen (changed_files now settle times files)
unfolding changed_files
changed_files-AllSeen now settle times seen [] h = tt
changed_files-AllSeen now settle times seen ((path, none) ∷ files) h =
    changed_files-AllSeen now settle times seen files h.1
changed_files-AllSeen now settle times seen ((path, some m) ∷ files) h =
    ground (arith, changed_files-AllSeen now settle times seen files h.1, h.0)

abbrev pub paths_of : List FileInfo → List Bytes
paths_of files = map (λ (f : FileInfo). f.0) files

-- The times that a scan without a failure stores.
abbrev pub stored_times : ℕ → Loop → List FileInfo → Times
stored_times now loop files =
    copy_times (changed_files now loop.settle loop.mod_times files)
      (forget_paths (deleted_paths (paths_of files) loop.mod_times) loop.mod_times)

-- What has settled at the later time had settled before.
abbrev pub SettledBefore : ℕ → ℕ → ℕ → FileInfo → Type 0
SettledBefore now later settle (path, none) = Unit
SettledBefore now later settle (path, some m) =
    is_settled later settle m ≡ true → is_settled now settle m ≡ true

pub Known-later :
    (now later settle : ℕ) (times : Times) (f : FileInfo)
    → SettledBefore now later settle f
    → Known now settle times f
    → Known later settle times f
Known-later now later settle times (path, none) s k = tt
Known-later now later settle times (path, some m) s k = λ h. k (s h)
