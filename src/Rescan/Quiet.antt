-- ===== src/Rescan/Quiet.antt =====
-- A scan that succeeded is not repeated: what is known of the files and of the times.
use remindb.Prelude.{
  ℕ, ◌≡◌, refl, true, false, ◌&&◌, ◌||◌, none, some, List, [], ◌∷◌, map, arith, if◌then◌else◌,
  Bytes, ◌=s◌, All, All-map, All-zip, All-pure,
}
use remindb.Prelude.Assoc.{lookup, insert, erase, lookup-insert, lookup-erase}
use remindb.Prelude.Sorting.{contains}
use remindb.Rescan.{
  Times, FileInfo, is_newer, is_settled, changed_files, deleted_paths, forget_paths, copy_times,
}

-- The time of a file with an entry is known, if the file has settled.
abbrev pub Known : ℕ → ℕ → Times → FileInfo → Type 0
Known now settle times (path, none) = Unit
Known now settle times (path, some mtime) =
    is_settled now settle mtime ≡ true → is_newer (lookup path times) mtime ≡ false

-- Nothing has changed where all is known.
pub changed_files-Known :
    (now settle : ℕ) (times : Times) (files : List FileInfo)
    → All (Known now settle times) files
    → changed_files now settle times files ≡ []
unfolding changed_files
changed_files-Known now settle times [] k = refl
changed_files-Known now settle times ((path, none) ∷ files) k =
    changed_files-Known now settle times files k.1
changed_files-Known now settle times ((path, some mtime) ∷ files) k =
    ground (arith, changed_files-Known now settle times files k.1, k.0)

-- Nothing is gone where every key was seen.
abbrev pub AllSeen : List Bytes → Times → Type 0
AllSeen seen times = All (λ (e : Bytes × ℕ). contains e.0 seen ≡ true) times

pub deleted_paths-AllSeen :
    (seen : List Bytes) (times : Times) → AllSeen seen times → deleted_paths seen times ≡ []
unfolding deleted_paths
deleted_paths-AllSeen seen [] h = refl
deleted_paths-AllSeen seen ((path, t) ∷ times) h =
    ground (arith, deleted_paths-AllSeen seen times h.1)

insert-AllSeen :
    (seen : List Bytes) (path : Bytes) (t : ℕ) (times : Times)
    → contains path seen ≡ true
    → AllSeen seen times
    → AllSeen seen (insert path t times)
unfolding insert
insert-AllSeen seen path t [] p h = (p, tt)
insert-AllSeen seen path t ((j, w) ∷ times) p h = ground (arith, insert-AllSeen seen path t times p)

pub copy_times-AllSeen :
    (seen : List Bytes) (pending times : Times)
    → AllSeen seen pending
    → AllSeen seen times
    → AllSeen seen (copy_times pending times)
unfolding copy_times
copy_times-AllSeen seen [] times hp h = h
copy_times-AllSeen seen ((path, t) ∷ pending) times hp h =
    copy_times-AllSeen seen pending (insert path t times) hp.1
      (insert-AllSeen seen path t times hp.0 h)

erase-All :
    (P : Bytes × ℕ → Type 0) (path : Bytes) (times : Times) → All P times → All P (erase path times)
unfolding erase
erase-All P path [] h = tt
erase-All P path ((j, w) ∷ times) h = ground (arith, erase-All P path times h.1)

forget_paths-All :
    (P : Bytes × ℕ → Type 0) (paths : List Bytes) (times : Times)
    → All P times
    → All P (forget_paths paths times)
unfolding forget_paths
forget_paths-All P [] times h = h
forget_paths-All P (path ∷ paths) times h =
    forget_paths-All P paths (erase path times) (erase-All P path times h)

erase-ne :
    (path : Bytes) (times : Times)
    → All (λ (e : Bytes × ℕ). (e.0 =s path) ≡ false) (erase path times)
unfolding erase
erase-ne path [] = tt
erase-ne path ((j, w) ∷ times) = ground (arith, erase-ne path times)

-- No key that is forgotten is left.
forget_paths-gone :
    (paths : List Bytes) (times : Times)
    → All (λ (e : Bytes × ℕ). contains e.0 paths ≡ false) (forget_paths paths times)
unfolding forget_paths contains
forget_paths-gone [] times = All-pure _ (λ e. refl) times
forget_paths-gone (path ∷ paths) times =
    All-map (λ (e : Bytes × ℕ) h. let (other, rest) = h in ground (arith, other, rest))
      (forget_paths paths (erase path times))
      (All-zip _ _ (forget_paths paths (erase path times))
        (forget_paths-All (λ e. (e.0 =s path) ≡ false) paths (erase path times)
          (erase-ne path times))
        (forget_paths-gone paths (erase path times)))

seen_or_deleted :
    (seen : List Bytes) (times : Times)
    → All
        (λ (e : Bytes × ℕ). (contains e.0 (deleted_paths seen times) || contains e.0 seen) ≡ true)
        times
unfolding deleted_paths contains
seen_or_deleted seen [] = tt
seen_or_deleted seen ((path, t) ∷ times) = (
  ground arith,
  All-map
      (λ (e : Bytes × ℕ)
          (h : (contains e.0 (deleted_paths seen times) || contains e.0 seen) ≡ true).
        ground arith)
      times (seen_or_deleted seen times),
)

pub forget_paths-AllSeen :
    (seen : List Bytes) (times : Times)
    → AllSeen seen (forget_paths (deleted_paths seen times) times)
forget_paths-AllSeen seen times =
    let gone = deleted_paths seen times in
    All-map (λ (e : Bytes × ℕ) h. let (absent, known) = h in ground (arith, absent, known))
      (forget_paths gone times)
      (All-zip _ _ (forget_paths gone times) (forget_paths-gone gone times)
        (forget_paths-All _ gone times (seen_or_deleted seen times)))

pub lookup-forget_paths :
    (q : Bytes) (paths : List Bytes) (times : Times)
    → lookup q (forget_paths paths times) ≡ (if contains q paths then none else lookup q times)
unfolding forget_paths contains
lookup-forget_paths q [] times = refl
lookup-forget_paths q (path ∷ paths) times =
    ground (arith, lookup-forget_paths q paths (erase path times), lookup-erase q path times)

-- What was deleted is unseen.
pub contains-deleted_paths :
    (q : Bytes) (seen : List Bytes) (times : Times)
    → contains q seen ≡ true
    → contains q (deleted_paths seen times) ≡ false
unfolding contains deleted_paths
contains-deleted_paths q seen [] h = refl
contains-deleted_paths q seen ((path, t) ∷ times) h =
    ground (arith, contains-deleted_paths q seen times h)

pub paths_of-changed :
    (q : Bytes) (now settle : ℕ) (times : Times) (files : List FileInfo)
    → contains q (map (λ (f : FileInfo). f.0) files) ≡ false
    → contains q (map (λ (e : Bytes × ℕ). e.0) (changed_files now settle times files)) ≡ false
unfolding contains changed_files
paths_of-changed q now settle times [] h = refl
paths_of-changed q now settle times ((path, none) ∷ files) h =
    paths_of-changed q now settle times files (ground arith)
paths_of-changed q now settle times ((path, some mtime) ∷ files) h =
    ground (arith, paths_of-changed q now settle times files)

pub lookup-copy_times :
    (q : Bytes) (pending times : Times)
    → contains q (map (λ (e : Bytes × ℕ). e.0) pending) ≡ false
    → lookup q (copy_times pending times) ≡ lookup q times
unfolding contains copy_times
lookup-copy_times q [] times h = refl
lookup-copy_times q ((path, t) ∷ pending) times h =
    ground (arith, lookup-copy_times q pending (insert path t times), lookup-insert q path t times)

-- Two tables of times that agree on the files of a walk.
abbrev pub Agree : Times → Times → List FileInfo → Type 0
Agree times times' files = All (λ (f : FileInfo). lookup f.0 times' ≡ lookup f.0 times) files

pub insert-Agree :
    (times times' : Times) (path : Bytes) (t : ℕ) (files : List FileInfo)
    → contains path (map (λ (f : FileInfo). f.0) files) ≡ false
    → Agree times times' files
    → Agree times (insert path t times') files
unfolding contains
insert-Agree times times' path t [] h a = tt
insert-Agree times times' path t ((q, m) ∷ files) h a =
    ground (arith, insert-Agree times times' path t files, lookup-insert q path t times')

pub changed_files-changed :
    (now settle : ℕ) (times : Times) (path : Bytes) (m : ℕ) (files : List FileInfo)
    → (is_settled now settle m && is_newer (lookup path times) m) ≡ true
    → changed_files now settle times ((path, some m) ∷ files)
      ≡ (path, m) ∷ changed_files now settle times files
unfolding changed_files
changed_files-changed now settle times path m files h = rw h

pub changed_files-none :
    (now settle : ℕ) (times : Times) (path : Bytes) (files : List FileInfo)
    → changed_files now settle times ((path, none) ∷ files) ≡ changed_files now settle times files
unfolding changed_files
changed_files-none now settle times path files = refl

pub changed_files-same :
    (now settle : ℕ) (times : Times) (path : Bytes) (m : ℕ) (files : List FileInfo)
    → (is_settled now settle m && is_newer (lookup path times) m) ≡ false
    → changed_files now settle times ((path, some m) ∷ files) ≡ changed_files now settle times files
unfolding changed_files
changed_files-same now settle times path m files h = rw h
