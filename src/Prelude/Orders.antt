-- ===== src/Prelude/Orders.antt =====
-- Sorting by a total order: the sorted list does not depend on the order of the entries.
use mathlib.Core.Path.{◌≡◌, refl, ◌∙◌}
use mathlib.Core.Bool.{true, false}
use mathlib.Core.List.{List, [], ◌∷◌, map}
use native.Mathlib.Omega.{arith}
use remindb.Prelude.Strings.{Bytes}
use remindb.Prelude.Sorting.{sort, insert_sorted, str_leb}
use mathlib.Core.List.{Perm, Permᴰ}
use mathlib.Core.Logic.{∥∥₁_elim}

str_leb-total : (a b : Bytes) → str_leb a b ≡ false → str_leb b a ≡ true
unfolding str_leb
str_leb-total [] b h = ground (arith, h)
str_leb-total (x ∷ a) [] h = refl
str_leb-total (x ∷ a) (y ∷ b) h = ground (arith, str_leb-total a b)

str_leb-antisym : (a b : Bytes) → str_leb a b ≡ true → str_leb b a ≡ true → a ≡ b
unfolding str_leb
str_leb-antisym [] [] h k = refl
str_leb-antisym [] (y ∷ b) h k = ground (arith, k)
str_leb-antisym (x ∷ a) [] h k = ground (arith, h)
str_leb-antisym (x ∷ a) (y ∷ b) h k = ground (arith, str_leb-antisym a b)

str_leb_trans : (a b c : Bytes) → str_leb a b ≡ true → str_leb b c ≡ true → str_leb a c ≡ true
unfolding str_leb
str_leb_trans [] b c h k = refl
str_leb_trans (x ∷ a) [] c h k = ground (arith, h)
str_leb_trans (x ∷ a) (y ∷ b) [] h k = ground (arith, k)
str_leb_trans (x ∷ a) (y ∷ b) (z ∷ c) h k = ground (arith, str_leb_trans a b c)

insert_sorted_comm :
    (a b : Bytes) (l : List Bytes)
    → insert_sorted str_leb a (insert_sorted str_leb b l)
      ≡ insert_sorted str_leb b (insert_sorted str_leb a l)
unfolding insert_sorted
insert_sorted_comm a b [] =
    ground (arith, str_leb-total a b, str_leb-total b a, str_leb-antisym a b)
insert_sorted_comm a b (c ∷ l) = ground (
  arith,
  str_leb-total a b,
  str_leb-total b a,
  str_leb-antisym a b,
  str_leb-total a c,
  str_leb-total b c,
  str_leb-total c a,
  str_leb-total c b,
  str_leb_trans a b c,
  str_leb_trans b a c,
  insert_sorted_comm a b l,
)

module _ {ℓ} {A : Type ℓ} (key : A → Bytes) where
  sort-permuted : {l k : List A} → Permᴰ l k → sort str_leb (map key l) ≡ sort str_leb (map key k)
  unfolding sort
  sort-permuted Permᴰ.nil = refl
  sort-permuted (Permᴰ.cons eq p) = rw (eq, sort-permuted p)
  sort-permuted (Permᴰ.swap {a' = c} {b' = d} {l = l} eq eq') =
      rw (eq, eq', insert_sorted_comm (key d) (key c) (sort str_leb (map key l)))
  sort-permuted (Permᴰ.trans p q) = sort-permuted p ∙ sort-permuted q

  -- The keys of permuted entries give one sorted list.
  pub sort-Perm : {l k : List A} → Perm l k → sort str_leb (map key l) ≡ sort str_leb (map key k)
  sort-Perm p = ∥∥₁_elim p (hlevel) sort-permuted
