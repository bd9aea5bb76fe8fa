-- ===== src/Contentid.antt =====
-- internal/contentid and internal/tokens. `hash` is xxhash's `Sum64String`.
pub mod Base62
mod Examples
use remindb.Prelude.{
  ℕ, zero, suc, ◌+◌, ◌-◌, ◌*◌, ◌/◌, ◌%◌, ◌≤◌, ◌<◌, min, max, ◌≡◌, refl, sym, ap, ◌∙◌, subst, ◌≢◌,
  ◌↔◌, ◌⊎◌, inl, inr, Bool, true, false, not, ◌&&◌, ◌||◌, Option, none, some, List, [], ◌∷◌, ◌++◌,
  map, append_assoc, append-nil, arith, ltb, leb, ◌==◌, if◌then◌else◌, Bool-cases, Option-cases,
  Bytes, codes, ◌=s◌, str_dec, length, get_elem?, set, take, drop, replicate, All, All-append,
  All-map, length-append,
}

-- The digits of 62 by value: 0-9, A-Z, a-z.
abbrev pub alphabet : ℕ → ℕ
alphabet d = if ltb d 10 then 48 + d else if ltb d 36 then 55 + d else 61 + d

-- The loop of `encodeBase62`, from the last place to the first, in front of what is written.
unfoldable pub encode_places : ℕ → ℕ → Bytes → Bytes
encode_places zero v buf = buf
encode_places (suc i) v buf = encode_places i (v / 62) (alphabet (v % 62) ∷ buf)

unfoldable pub encode_base62 : ℕ → Bytes
unfolding encode_places
encode_base62 v = encode_places 11 v []

abbrev id_len : ℕ
id_len = 11

-- `strconv.Itoa` of an index.
module _ (hash : Bytes → ℕ) (itoa : ℕ → Bytes) where
  unfoldable pub identify_node : Bytes → Bytes → ℕ → Bytes
  unfolding encode_base62
  identify_node source parent sibling_index =
      take id_len (encode_base62 (hash (source ++ 0 ∷ parent ++ 0 ∷ itoa sibling_index)))

  unfoldable pub identify_payload : Bytes → Bytes → Bytes
  unfolding encode_base62
  identify_payload namespace payload = take id_len (encode_base62 (hash (namespace ++ 0 ∷ payload)))

abbrev hex_digit : ℕ → ℕ
hex_digit d = if ltb d 10 then 48 + d else 87 + d

-- `hex.EncodeToString` of the bytes of a number, the highest first: two digits for each byte.
unfoldable pub hex_places : ℕ → ℕ → Bytes → Bytes
hex_places zero v buf = buf
hex_places (suc i) v buf = hex_places i (v / 16) (hex_digit (v % 16) ∷ buf)

unfoldable pub content_hash : (Bytes → ℕ) → Bytes → Bytes
unfolding hex_places
content_hash hash content = hex_places 16 (hash content) []

-- `math.Ceil(float64(len(s)) * 0.25)`, exact below 2 ^ 53.
unfoldable pub estimate : Bytes → ℕ
estimate s = if length s == 0 then 0 else (length s + 3) / 4
