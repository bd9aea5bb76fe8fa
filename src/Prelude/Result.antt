-- ===== src/Prelude/Result.antt =====
-- A Go result `(value, error)`: a value, or the error that replaces it.
use mathlib.Core.Path.{◌≡◌, refl}

pub data Result {ℓ} (Fault : Type 0) (X : Type ℓ) : Type ℓ where
  ok : X → Result Fault X
  err : Fault → Result Fault X

infixl 5 ◌>>=◌
abbrev pub ◌>>=◌ {ℓ κ} :
    {Fault : Type 0} {X : Type ℓ} {Y : Type κ}
    → Result Fault X
    → (X → Result Fault Y)
    → Result Fault Y
r >>= k = elim r [ ok x ↦ k x | err fault ↦ err fault ]

-- A chain that succeeds has succeeded in its first step.
pub >>=-ok {ℓ κ} :
    {Fault : Type 0} {X : Type ℓ} {Y : Type κ} (r : Result Fault X) (k : X → Result Fault Y) {y : Y}
    → (r >>= k) ≡ ok y
    → (x : X) × (r ≡ ok x) × (k x ≡ ok y)
>>=-ok (ok x) k e = (x, refl, e)
>>=-ok (err fault) k e = cc
