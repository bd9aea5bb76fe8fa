-- ===== src/Prelude/Text.antt =====
-- What the code uses of Go's `strings`, `bytes` and `strconv`, over strings of bytes.
use Prim.Native.Nat.{ℕ, zero, suc, ◌+◌, ◌-◌, ◌*◌, ◌/◌, ◌%◌, ◌<◌}
use mathlib.Core.Path.{◌≡◌, refl, ap, sym, ◌∙◌}
use mathlib.Core.Bool.{Bool, true, false, ◌&&◌, ◌||◌}
use mathlib.Core.List.{List, [], ◌∷◌, ◌++◌, map, reverse, reverse-cons, reverse-reverse}
use mathlib.Core.Option.{Option, none, some}
use mathlib.Core.Logic.{◌≢◌, inl, inr}
use native.Mathlib.Omega.{arith}
use remindb.Prelude.Tests.{ltb, ◌==◌, if◌then◌else◌, Bool-cases}
use remindb.Prelude.Strings.{Bytes, codes}
use remindb.Prelude.Lists.{length, drop, last_of}
use remindb.Prelude.{last_of}

-- `strings.HasPrefix`.
unfoldable pub has_prefix : Bytes → Bytes → Bool
has_prefix s [] = true
has_prefix [] (p ∷ prefix) = false
has_prefix (x ∷ s) (p ∷ prefix) = x == p && has_prefix s prefix

-- `strings.HasSuffix`.
unfoldable pub has_suffix : Bytes → Bytes → Bool
unfolding has_prefix
has_suffix s suffix = has_prefix (reverse s) (reverse suffix)

-- `strings.TrimPrefix`.
unfoldable pub trim_prefix : Bytes → Bytes → Bytes
unfolding has_prefix
trim_prefix s prefix = if has_prefix s prefix then drop (length prefix) s else s

-- `strings.TrimSuffix`.
unfoldable pub trim_suffix : Bytes → Bytes → Bytes
unfolding trim_prefix
trim_suffix s suffix = reverse (trim_prefix (reverse s) (reverse suffix))

-- `strings.Contains`, for a text that is not empty.
unfoldable pub contains_text : Bytes → Bytes → Bool
unfolding has_prefix
contains_text [] old = false
contains_text (x ∷ s) old = has_prefix (x ∷ s) old || contains_text s old

-- `strings.ReplaceAll`, for a text that is not empty: `skip` bytes of a match are left to pass.
unfoldable pub replace_from : Bytes → Bytes → ℕ → Bytes → Bytes
unfolding has_prefix
replace_from old new skip [] = []
replace_from old new (suc skip) (x ∷ s) = replace_from old new skip s
replace_from old new zero (x ∷ s) =
    let matched = new ++ replace_from old new (length old - 1) s in
    let kept = x ∷ replace_from old new 0 s in if has_prefix (x ∷ s) old then matched else kept

abbrev pub replace_all : Bytes → Bytes → Bytes → Bytes
replace_all old new s = replace_from old new 0 s

-- `strings.Cut`, for a separator that is not empty: what stands before and behind its first place.
unfoldable pub cut : Bytes → Bytes → Option (Bytes × Bytes)
unfolding has_prefix
cut [] sep = none
cut (x ∷ s) sep =
    let later : Option (Bytes × Bytes) = elim (cut s sep) [
      | none ↦ none
      | some (a, b) ↦ some (x ∷ a, b)
    ] in
    if has_prefix (x ∷ s) sep then some ([], drop (length sep) (x ∷ s)) else later

-- `strings.Split` at a byte.
unfoldable pub split : ℕ → Bytes → List Bytes
split sep [] = [] ∷ []
split sep (x ∷ s) =
    let rest = split sep s in
    if x == sep then [] ∷ rest else elim rest [ [] ↦ (x ∷ []) ∷ [] | l ∷ ls ↦ (x ∷ l) ∷ ls ]

-- `strings.Join`.
unfoldable pub join : Bytes → List Bytes → Bytes
join sep [] = []
join sep (l ∷ []) = l
join sep (l ∷ k ∷ ls) = l ++ sep ++ join sep (k ∷ ls)

-- The runes of `unicode.IsSpace` in UTF-8.
abbrev pub space_runes : List Bytes
space_runes =
    (9 ∷ [])
    ∷ (10 ∷ [])
    ∷ (11 ∷ [])
    ∷ (12 ∷ [])
    ∷ (13 ∷ [])
    ∷ (32 ∷ [])
    ∷ (0xC2 ∷ 0x85 ∷ [])
    ∷ (0xC2 ∷ 0xA0 ∷ [])
    ∷ (0xE1 ∷ 0x9A ∷ 0x80 ∷ [])
    ∷ (0xE2 ∷ 0x80 ∷ 0x80 ∷ [])
    ∷ (0xE2 ∷ 0x80 ∷ 0x81 ∷ [])
    ∷ (0xE2 ∷ 0x80 ∷ 0x82 ∷ [])
    ∷ (0xE2 ∷ 0x80 ∷ 0x83 ∷ [])
    ∷ (0xE2 ∷ 0x80 ∷ 0x84 ∷ [])
    ∷ (0xE2 ∷ 0x80 ∷ 0x85 ∷ [])
    ∷ (0xE2 ∷ 0x80 ∷ 0x86 ∷ [])
    ∷ (0xE2 ∷ 0x80 ∷ 0x87 ∷ [])
    ∷ (0xE2 ∷ 0x80 ∷ 0x88 ∷ [])
    ∷ (0xE2 ∷ 0x80 ∷ 0x89 ∷ [])
    ∷ (0xE2 ∷ 0x80 ∷ 0x8A ∷ [])
    ∷ (0xE2 ∷ 0x80 ∷ 0xA8 ∷ [])
    ∷ (0xE2 ∷ 0x80 ∷ 0xA9 ∷ [])
    ∷ (0xE2 ∷ 0x80 ∷ 0xAF ∷ [])
    ∷ (0xE2 ∷ 0x81 ∷ 0x9F ∷ [])
    ∷ (0xE3 ∷ 0x80 ∷ 0x80 ∷ [])
    ∷ []

-- The length of the first of some texts that stands at the front, and 0 if none does.
unfoldable pub prefix_length : List Bytes → Bytes → ℕ
unfolding has_prefix
prefix_length [] s = 0
prefix_length (p ∷ ps) s = if has_prefix s p then length p else prefix_length ps s

-- Drops such texts from the front: `skip` bytes of one are left to pass.
unfoldable pub trim_front_of : List Bytes → ℕ → Bytes → Bytes
unfolding prefix_length
trim_front_of ps skip [] = []
trim_front_of ps (suc skip) (x ∷ s) = trim_front_of ps skip s
trim_front_of ps zero (x ∷ s) =
    let rest = trim_front_of ps (prefix_length ps (x ∷ s) - 1) s in
    if prefix_length ps (x ∷ s) == 0 then x ∷ s else rest

-- `strings.TrimSpace`, and `strings.Trim` of one byte.
unfoldable pub trim_of : List Bytes → Bytes → Bytes
unfolding trim_front_of
trim_of ps s = reverse (trim_front_of (map reverse ps) 0 (reverse (trim_front_of ps 0 s)))

unfoldable pub trim_space : Bytes → Bytes
unfolding trim_of
trim_space s = trim_of space_runes s

-- `strconv.Itoa` of a number that is not negative, from the last digit to the first.
unfoldable pub itoa_loop : ℕ → ℕ → Bytes → Bytes
itoa_loop zero n out = out
itoa_loop (suc fuel) n out =
    let more = itoa_loop fuel (n / 10) ((48 + n % 10) ∷ out) in
    if ltb n 10 then (48 + n) ∷ out else more

unfoldable pub itoa : ℕ → Bytes
unfolding itoa_loop
itoa n = itoa_loop (suc n) n []

-- The number that digits stand for, behind those read.
digits_value : Bytes → ℕ → ℕ
digits_value [] v = v
digits_value (d ∷ s) v = digits_value s (v * 10 + (d - 48))

digits_value-itoa_loop :
    (fuel n : ℕ) (out : Bytes)
    → n < fuel
    → digits_value (itoa_loop fuel n out) 0 ≡ digits_value out n
unfolding digits_value itoa_loop
digits_value-itoa_loop zero n out h = absurd (omega arith)
digits_value-itoa_loop (suc fuel) n out h =
    let back : (n / 10) * 10 + ((48 + n % 10) - 48) ≡ n = omega arith in
    let digit : 0 * 10 + ((48 + n) - 48) ≡ n = omega arith in
    elim (Bool-cases (ltb n 10)) [
      | inl small ↦ rw small (ap (digits_value out) digit)
      | inr large ↦ rw large (
          digits_value-itoa_loop fuel (n / 10) ((48 + n % 10) ∷ out) (ground arith)
          ∙ ap (digits_value out) back)
    ]

-- `Itoa` tells numbers apart.
pub itoa-injective : (a b : ℕ) → itoa a ≡ itoa b → a ≡ b
unfolding itoa digits_value
itoa-injective a b e =
    sym (digits_value-itoa_loop (suc a) a [] (omega arith))
    ∙ ap (λ s. digits_value s 0) e
    ∙ digits_value-itoa_loop (suc b) b [] (omega arith)

trim_test : trim_space (32 ∷ 9 ∷ codes "a b" ++ 0xC2 ∷ 0xA0 ∷ 10 ∷ []) ≡ codes "a b"
unfolding trim_space
trim_test = refl

itoa_test : itoa 1024 ≡ codes "1024"
unfolding itoa
itoa_test = refl

split_test : split b',' (codes "a,,b") ≡ codes "a" ∷ [] ∷ codes "b" ∷ []
unfolding split
split_test = refl

pub split-cons : (sep : ℕ) (s : Bytes) → (l : Bytes) × (ls : List Bytes) × (split sep s ≡ l ∷ ls)
unfolding split
split-cons sep [] = ([], [], refl)
split-cons sep (x ∷ s) =
    let r = split-cons sep s in
    elim (Bool-cases (x == sep)) [
      | inl stop ↦ ([], split sep s, rw stop)
      | inr on ↦ (x ∷ r.0, r.1, rw (on, r.2))
    ]

last_of-cons {ℓ} : {A : Type ℓ} (a : A) (l : List A) → last_of (a ∷ l) ≢ none
last_of-cons a [] h = ground (arith, h)
last_of-cons a (b ∷ l) h = last_of-cons b l h

-- A text has a last part.
pub split-last : (sep : ℕ) (s : Bytes) → last_of (split sep s) ≢ none
split-last sep s h = let r = split-cons sep s in last_of-cons r.0 r.1 (ap last_of (sym r.2) ∙ h)

-- A text that starts with a prefix is the prefix and the rest.
pub has_prefix-eq : (s p : Bytes) → has_prefix s p ≡ true → s ≡ p ++ drop (length p) s
unfolding has_prefix
has_prefix-eq s [] h = refl
has_prefix-eq [] (y ∷ p) h = ground (arith, h)
has_prefix-eq (x ∷ s) (y ∷ p) h = ground (arith, h, has_prefix-eq s p)

trim_prefix-there :
    (s : Bytes) (c : ℕ) → has_prefix s (c ∷ []) ≡ true → trim_prefix s (c ∷ []) ≡ drop 1 s
unfolding trim_prefix
trim_prefix-there s c h = rw h refl

trim_prefix-absent :
    (s : Bytes) (c : ℕ) → has_prefix s (c ∷ []) ≡ false → trim_prefix s (c ∷ []) ≡ s
unfolding trim_prefix
trim_prefix-absent s c h = rw h refl

-- What `TrimSuffix` takes away is there behind it.
pub trim_suffix-there :
    (s : Bytes) (c : ℕ) → has_suffix s (c ∷ []) ≡ true → s ≡ trim_suffix s (c ∷ []) ++ c ∷ []
unfolding has_suffix trim_suffix trim_prefix
trim_suffix-there s c h =
    let shape = has_prefix-eq (reverse s) (c ∷ []) h in
    let trimmed : trim_suffix s (c ∷ []) ≡ reverse (drop 1 (reverse s)) =
      ap reverse (trim_prefix-there (reverse s) c h) in
    sym (reverse-reverse s)
    ∙ ap reverse shape
    ∙ reverse-cons c (drop 1 (reverse s))
    ∙ ap (λ l. l ++ c ∷ []) (sym trimmed)

pub trim_suffix-absent :
    (s : Bytes) (c : ℕ) → has_suffix s (c ∷ []) ≡ false → trim_suffix s (c ∷ []) ≡ s
unfolding has_suffix trim_suffix trim_prefix
trim_suffix-absent s c h = ap reverse (trim_prefix-absent (reverse s) c h) ∙ reverse-reverse s

join-cons :
    (sep : Bytes) (x : ℕ) (l : Bytes) (ls : List Bytes)
    → join sep ((x ∷ l) ∷ ls) ≡ x ∷ join sep (l ∷ ls)
unfolding join
join-cons sep x l [] = refl
join-cons sep x l (k ∷ ls) = refl

-- The parts with the separator between them are the text.
pub join-split : (c : ℕ) (s : Bytes) → join (c ∷ []) (split c s) ≡ s
unfolding split join
join-split c [] = refl
join-split c (x ∷ s) =
    let (l, ls, shape) = split-cons c s in
    let rest : join (c ∷ []) (l ∷ ls) ≡ s = ap (join (c ∷ [])) (sym shape) ∙ join-split c s in
    elim (Bool-cases (x == c)) [
      | inl stop ↦ rw (stop, shape) (ground (arith, stop, rest))
      | inr on ↦ rw (on, shape) (join-cons (c ∷ []) x l ls ∙ ap (λ r. x ∷ r) rest)
    ]
