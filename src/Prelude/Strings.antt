-- ===== src/Prelude/Strings.antt =====
-- A Go string is a sequence of bytes. `codes` reads a literal, whose code points are its bytes
-- where it is ASCII.
use Prim.Native.Nat.{ℕ}
use Prim.Native.Char.{code}
use Prim.Native.String.{String}
use mathlib.Core.Path.{◌≡◌, refl}
use mathlib.Core.Logic.{◌↔◌}
use mathlib.Core.Bool.{Bool, true, false}
use mathlib.Core.List.{List, [], ◌∷◌}
use native.Mathlib.Decide.{ℕ_discrete}
use native.Mathlib.Omega.{arith}

abbrev pub Bytes : Type 0
Bytes = List ℕ

abbrev pub codes : String → Bytes
codes String.[] = []
codes (String.◌∷◌ c s) = code c ∷ codes s

unfoldable pub str_dec : Discrete Bytes
unfolding ℕ_discrete
str_dec = hlevel ℕ_discrete

infix 50 ◌=s◌
abbrev pub ◌=s◌ : Bytes → Bytes → Bool
a =s b = elim (str_dec a b) [ yes _ ↦ true | no _ ↦ false ]

pub =s_iff : (a b : Bytes) → ((a =s b) ≡ true) ↔ (a ≡ b)
=s_iff a b = ground arith

str_test : (codes "abc" =s codes "abd") ≡ false
unfolding str_dec
str_test = refl
