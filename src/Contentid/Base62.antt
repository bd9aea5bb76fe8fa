-- ===== src/Contentid/Base62.antt =====
-- The ids of internal/contentid tell hashes apart.
use remindb.Prelude.{
  ℕ, zero, suc, ◌+◌, ◌*◌, ◌/◌, ◌%◌, ◌<◌, ◌≡◌, refl, sym, ap, ◌∙◌, [], ◌∷◌, ◌++◌, arith, Bytes,
  length, take, ◌^◌,
}
use remindb.Contentid.{alphabet, encode_places, encode_base62, identify_node}

alphabet-injective : (a b : ℕ) → a < 62 → b < 62 → alphabet a ≡ alphabet b → a ≡ b
alphabet-injective a b p q e = ground arith

length-encode : (i v : ℕ) (buf : Bytes) → length (encode_places i v buf) ≡ i + length buf
unfolding encode_places
length-encode zero v buf = omega arith
length-encode (suc i) v buf = omega (arith, length-encode i (v / 62) (alphabet (v % 62) ∷ buf))

-- Numbers below `62 ^ i`, by recursion.
abbrev places : ℕ → ℕ
places zero = 1
places (suc i) = 62 * places i

encode_places-injective :
    (i v w : ℕ) (buf buf' : Bytes)
    → v < places i
    → w < places i
    → encode_places i v buf ≡ encode_places i w buf'
    → (v ≡ w) × (buf ≡ buf')
unfolding encode_places
encode_places-injective zero v w buf buf' p q e = (omega (arith, p, q), e)
encode_places-injective (suc i) v w buf buf' p q e =
    let (quot, bufs) =
      encode_places-injective i (v / 62) (w / 62) (alphabet (v % 62) ∷ buf)
        (alphabet (w % 62) ∷ buf') (omega (arith, p)) (omega (arith, q)) e in
    let digit : alphabet (v % 62) ≡ alphabet (w % 62) = cc in
    let rest : buf ≡ buf' = cc in
    let low = alphabet-injective (v % 62) (w % 62) (omega arith) (omega arith) digit in
    (omega (arith, quot, low), rest)

-- Eleven places hold every number of 64 bits.
encode_base62-injective :
    (v w : ℕ) → v < 2 ^ 64 → w < 2 ^ 64 → encode_base62 v ≡ encode_base62 w → v ≡ w
unfolding encode_base62
encode_base62-injective v w p q e =
    (encode_places-injective 11 v w [] [] (omega (arith, p)) (omega (arith, q)) e).0

pub length-encode_base62 : (v : ℕ) → length (encode_base62 v) ≡ 11
unfolding encode_base62
length-encode_base62 v = omega (arith, length-encode 11 v [])

pub take-all : (s : Bytes) (n : ℕ) → length s ≡ n → take n s ≡ s
take-all [] zero h = refl
take-all [] (suc n) h = absurd (omega arith)
take-all (x ∷ s) zero h = absurd (omega arith)
take-all (x ∷ s) (suc n) h = ap (λ l. x ∷ l) (take-all s n (omega arith))

-- `IdentifyNode` gives two positions one id only where xxhash, whose values have 64 bits, gives one
-- value for both: the eleven places that are kept lose nothing of the hash.
pub identify_node-hash :
    (hash : Bytes → ℕ) (itoa : ℕ → Bytes) (source source' parent parent' : Bytes) (i j : ℕ)
    → ((s : Bytes) → hash s < 2 ^ 64)
    → identify_node hash itoa source parent i ≡ identify_node hash itoa source' parent' j
    → hash (source ++ 0 ∷ parent ++ 0 ∷ itoa i) ≡ hash (source' ++ 0 ∷ parent' ++ 0 ∷ itoa j)
unfolding identify_node
identify_node-hash hash itoa source source' parent parent' i j bound e =
    let a = hash (source ++ 0 ∷ parent ++ 0 ∷ itoa i) in
    let b = hash (source' ++ 0 ∷ parent' ++ 0 ∷ itoa j) in
    encode_base62-injective a b (bound _) (bound _) (
      sym (take-all (encode_base62 a) 11 (length-encode_base62 a))
      ∙ e
      ∙ take-all (encode_base62 b) 11 (length-encode_base62 b))
