-- ===== src/Redaction/Examples.antt =====
-- internal/redaction with patterns that find the bytes 2 to 4, and the first byte, of any text of five
-- bytes.
use remindb.Prelude.{
  ℕ, zero, suc, ◌≡◌, refl, some, List, [], ◌∷◌, ◌++◌, arith, ◌==◌, if◌then◌else◌, Bytes, codes,
  str_dec, length, get_elem?,
}
use remindb.Prelude.Sorting.{sort}
use remindb.Redaction.{KindPattern, Hit, hit_leb, scrub, redacted_open, redacted_close}
use remindb.Redaction.Sorted.{sort-Sorts}
use remindb.Redaction.Found.{NoneFinds, in_spans}
use remindb.Redaction.Secrecy.{scrub-secrecy}

abbrev middle : KindPattern
middle = record { kind = codes "k"; re = λ s. if length s == 5 then (2, 4) ∷ (3, 4) ∷ [] else [] }

abbrev first_byte : KindPattern
first_byte = record { kind = codes "f"; re = λ s. if length s == 5 then (0, 1) ∷ [] else [] }

-- A pattern that matches the empty text.
abbrev nothing : KindPattern
nothing = record { kind = codes "n"; re = λ s. (0, 0) ∷ [] }

abbrev marked : Bytes
marked =
    redacted_open ++ 102 ∷ redacted_close ++ 98 ∷ redacted_open ++ 107 ∷ redacted_close ++ 122 ∷ []

scrub_runs :
    scrub (sort hit_leb) (middle ∷ first_byte ∷ []) (codes "ab12z")
    ≡ some (
      marked,
      record { kind = codes "f"; start = 0; end = 1 }
          ∷ record { kind = codes "k"; start = 2; end = 4 }
          ∷ [],
    )
unfolding scrub sort str_dec
scrub_runs = refl

-- An empty text is left alone.
scrub_empty : scrub (sort hit_leb) (nothing ∷ []) [] ≡ some ([], [])
unfolding scrub str_dec
scrub_empty = refl

scrub-secrecy_example :
    (r : Bytes × List Hit) × (scrub (sort hit_leb) (middle ∷ first_byte ∷ []) (codes "ab12z")
      ≡ some r)
    × (scrub (sort hit_leb) (middle ∷ first_byte ∷ []) (codes "cb34z") ≡ some r)
unfolding in_spans
scrub-secrecy_example =
    scrub-secrecy (sort hit_leb) (middle ∷ first_byte ∷ []) (codes "ab12z") (codes "cb34z")
      sort-Sorts refl (refl, (refl, tt))
      (
        ((omega arith, omega arith), ((omega arith, omega arith), tt)),
        (((omega arith, omega arith), tt), tt),
      )
      outside
  where
    outside :
        (i : ℕ)
        → NoneFinds (middle ∷ first_byte ∷ []) (codes "ab12z") i
        → get_elem? (codes "ab12z") i ≡ get_elem? (codes "cb34z") i
    outside zero c = absurd (ground (arith, c))
    outside (suc zero) c = refl
    outside (suc (suc zero)) c = absurd (ground (arith, c))
    outside (suc (suc (suc zero))) c = absurd (ground (arith, c))
    outside (suc (suc (suc (suc zero)))) c = refl
    outside (suc (suc (suc (suc (suc i))))) c = refl
