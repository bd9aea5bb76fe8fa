-- ===== src/Contentid/Examples.antt =====
-- internal/contentid with a hash that is the length of its input.
use remindb.Prelude.{ℕ, ◌+◌, ◌%◌, ◌≡◌, refl, [], ◌∷◌, ◌++◌, arith, Bytes, codes, length, ◌^◌}
use remindb.Contentid.{encode_base62, identify_node}
use remindb.Contentid.Base62.{identify_node-hash}

zero_padded : encode_base62 62 ≡ codes "00000000010"
unfolding encode_base62
zero_padded = refl

abbrev length_hash : Bytes → ℕ
length_hash s = length s % 2 ^ 64

abbrev one_digit : ℕ → Bytes
one_digit n = (48 + n) ∷ []

identify_node-hash_example :
    length_hash (codes "ab" ++ 0 ∷ codes "p" ++ 0 ∷ one_digit 1)
    ≡ length_hash (codes "cd" ++ 0 ∷ codes "q" ++ 0 ∷ one_digit 2)
unfolding identify_node
identify_node-hash_example =
    identify_node-hash length_hash one_digit (codes "ab") (codes "cd") (codes "p") (codes "q") 1 2
      (λ s. omega arith) same
  where
    same :
        identify_node length_hash one_digit (codes "ab") (codes "p") 1
        ≡ identify_node length_hash one_digit (codes "cd") (codes "q") 2
    same = refl
