-- ===== src/Logbuf/Slots.antt =====
-- The slots of the buffer of pkg/logbuf, and one write to them.
use remindb.Prelude.{
  ℕ, suc, ◌+◌, ◌%◌, ◌<◌, ◌≡◌, refl, sym, ap, ◌∙◌, some, List, [], ◌∷◌, ◌++◌, append-nil, arith, ltb,
  ◌==◌, if◌then◌else◌, length, set, take, drop, length-append,
}
use native.Mathlib.Nat.{mod-eq_of_lt, mod_self}
use remindb.Logbuf.{LogRecord, Buffer, append}

module _ {A : Type 0} where
  set-append : (xs ys : List A) (y r : A) → set (xs ++ y ∷ ys) (length xs) r ≡ xs ++ r ∷ ys
  set-append [] ys y r = refl
  set-append (x ∷ xs) ys y r = ap (λ l. x ∷ l) (set-append xs ys y r)

  pub take-append : (xs ys : List A) → take (length xs) (xs ++ ys) ≡ xs
  take-append [] ys = refl
  take-append (x ∷ xs) ys = ap (λ l. x ∷ l) (take-append xs ys)

  pub drop-append : (xs ys : List A) → drop (length xs) (xs ++ ys) ≡ ys
  drop-append [] ys = refl
  drop-append (x ∷ xs) ys = drop-append xs ys

-- The buffer after the records `rs`: the slots fill up, and then the oldest of them goes first.
pub data Holds {Value : Type 0} (size : ℕ) (rs : List (LogRecord Value)) (b : Buffer Value)
    : Type 0 where
  filling :
      (slot : LogRecord Value) (rest : List (LogRecord Value))
      → b.records ≡ rs ++ slot ∷ rest
      → b.size ≡ size
      → b.next ≡ length rs
      → b.count ≡ length rs
      → b.dropped ≡ 0
      → length rs + suc (length rest) ≡ size
      → Holds size rs b
  full :
      (old front back : List (LogRecord Value)) (oldest : LogRecord Value)
      → b.records ≡ front ++ oldest ∷ back
      → rs ≡ old ++ (oldest ∷ back) ++ front
      → b.size ≡ size
      → b.next ≡ length front
      → b.count ≡ size
      → b.dropped ≡ length old
      → length front + suc (length back) ≡ size
      → Holds size rs b

module _ {Value : Type 0} where
  abbrev pub written : LogRecord Value → Buffer Value → Buffer Value
  written r b = record b {
    records = set b.records b.next r;
    next = (b.next + 1) % b.size;
    count = if ltb b.count b.size then b.count + 1 else b.count;
    dropped = if b.count == b.size then b.dropped + 1 else b.dropped;
  }

  pub append-written :
      (r : LogRecord Value) (b : Buffer Value)
      → b.next < length b.records
      → append r b ≡ some (written r b, b.observed)
  unfolding append
  append-written r b h = ground arith

  pub written-records :
      (r x : LogRecord Value) (b : Buffer Value) (xs ys : List (LogRecord Value))
      → b.records ≡ xs ++ x ∷ ys
      → b.next ≡ length xs
      → (written r b).records ≡ xs ++ r ∷ ys
  written-records r x b xs ys e n =
      ap (λ l. set l b.next r) e ∙ ap (λ k. set (xs ++ x ∷ ys) k r) n ∙ set-append xs ys x r

  pub room :
      (x : LogRecord Value) (b : Buffer Value) (xs ys : List (LogRecord Value))
      → b.records ≡ xs ++ x ∷ ys
      → b.next ≡ length xs
      → b.next < length b.records
  room x b xs ys e n = let l = ap length e in omega (arith, l, n, length-append xs (x ∷ ys))

  pub written-next :
      (r : LogRecord Value) (b : Buffer Value)
      → b.next + 1 < b.size
      → (written r b).next ≡ b.next + 1
  written-next r b h = mod-eq_of_lt h

  pub written-wrap :
      (r : LogRecord Value) (b : Buffer Value) → b.next + 1 ≡ b.size → (written r b).next ≡ 0
  written-wrap r b h = ap (λ k. k % b.size) h ∙ mod_self b.size

  -- A full buffer whose oldest record is in the first slot.
  pub whole-Holds :
      (size : ℕ) (rs old ws : List (LogRecord Value)) (b : Buffer Value)
      → 0 < size
      → b.records ≡ ws
      → rs ≡ old ++ ws
      → b.size ≡ size
      → b.next ≡ 0
      → b.count ≡ size
      → b.dropped ≡ length old
      → length ws ≡ size
      → Holds size rs b
  whole-Holds size rs old [] b p e w s n c d f = absurd (omega (arith, f))
  whole-Holds size rs old (x ∷ ws) b p e w s n c d f =
      full old [] ws x e (w ∙ sym (append-nil (old ++ x ∷ ws))) s n c d (omega (arith, f))

  module _ (r : LogRecord Value) (b : Buffer Value) where
    pub count_more : b.count < b.size → (written r b).count ≡ b.count + 1
    count_more h = ground arith

    pub count_stays : b.count ≡ b.size → (written r b).count ≡ b.count
    count_stays h = ground arith

    pub drops_none : b.count < b.size → (written r b).dropped ≡ b.dropped
    drops_none h = ground arith

    pub drops_one : b.count ≡ b.size → (written r b).dropped ≡ b.dropped + 1
    drops_one h = ground arith
