-- ===== src/Rescan/Listed.antt =====
-- The changed files of a walk, and those that a later walk finds changed.
use remindb.Prelude.{
  ℕ, ◌≤◌, ◌≡◌, refl, sym, subst, ◌≢◌, inl, inr, Bool, true, false, ◌&&◌, ◌||◌, none, some, List, [],
  ◌∷◌, arith, ◌==◌, Bool-cases, Bytes, ◌=s◌, All, All-map,
}
use remindb.Prelude.Assoc.{lookup}
use remindb.Rescan.{Times, FileInfo, is_newer, is_settled, changed_files}
use remindb.Rescan.Quiet.{Agree, changed_files-none, changed_files-changed, changed_files-same}

-- The path is among the changed ones, with this time.
unfoldable pub is_listed : Bytes × ℕ → Times → Bool
is_listed e [] = false
is_listed (path, m) ((q, t) ∷ changed) = (q =s path && t == m) || is_listed (path, m) changed

is_listed-cons : (e x : Bytes × ℕ) (l : Times) → is_listed e l ≡ true → is_listed e (x ∷ l) ≡ true
unfolding is_listed
is_listed-cons (path, m) (q, t) l h = ground (arith, h)

is_listed_self : (e : Bytes × ℕ) (l : Times) → is_listed e (e ∷ l) ≡ true
unfolding is_listed
is_listed_self (path, m) l = ground arith

abbrev pub AllListed : Times → Times → Type 0
AllListed entries l = All (λ e. is_listed e l ≡ true) entries

AllListed-eq :
    {entries entries' l l' : Times}
    → entries' ≡ entries
    → l' ≡ l
    → AllListed entries l
    → AllListed entries' l'
AllListed-eq {entries} {entries'} {l} {l'} e f h =
    subst (λ x. AllListed entries' x) (sym f) (subst (λ x. AllListed x l) (sym e) h)

-- Of the changed files of a walk, none is lost later where the times agree on the walk.
pub changed_files-later :
    (now later settle : ℕ) (times times' : Times) (files : List FileInfo)
    → now ≤ later
    → Agree times times' files
    → All
        (λ e. is_listed e (changed_files later settle times' files) ≡ true)
        (changed_files now settle times files)
changed_files-later now later settle times times' [] le a = unfold changed_files in tt
changed_files-later now later settle times times' ((path, none) ∷ files) le a =
    AllListed-eq (changed_files-none now settle times path files)
      (changed_files-none later settle times' path files)
      (changed_files-later now later settle times times' files le a.1)
changed_files-later now later settle times times' ((path, some m) ∷ files) le a =
    let rest = changed_files-later now later settle times times' files le a.1 in
    let l = changed_files later settle times' files in
    let more =
      All-map (λ e h. is_listed-cons e (path, m) l h) (changed_files now settle times files) rest in
    elim (Bool-cases (is_settled now settle m && is_newer (lookup path times) m)) [
      | inl changed ↦
          AllListed-eq (changed_files-changed now settle times path m files changed)
            (changed_files-changed later settle times' path m files
              (rw a.0 (ground (arith, changed, le))))
            (is_listed_self (path, m) l, more)
      | inr same ↦
          elim (Bool-cases (is_settled later settle m && is_newer (lookup path times') m)) [
            | inl fresh ↦
                AllListed-eq (changed_files-same now settle times path m files same)
                  (changed_files-changed later settle times' path m files fresh) more
            | inr idle ↦
                AllListed-eq (changed_files-same now settle times path m files same)
                  (changed_files-same later settle times' path m files idle) rest
          ]
    ]

pub AllListed-filled : (entries l : Times) → entries ≢ [] → AllListed entries l → l ≢ []
unfolding is_listed
AllListed-filled [] l h all e = h refl
AllListed-filled ((q, t) ∷ entries) [] h all e = ground (arith, all.0)
AllListed-filled ((q, t) ∷ entries) (x ∷ l) h all e = ground (arith, e)
