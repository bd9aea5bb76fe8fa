-- ===== src/Logbuf/Ring.antt =====
-- The buffer of pkg/logbuf holds the newest records.
use remindb.Prelude.{
  ℕ, zero, suc, ◌-◌, ◌<◌, ◌≡◌, refl, sym, ap, ◌∙◌, subst, Bool, none, some, List, [], ◌∷◌, ◌++◌,
  append_assoc, append-nil, arith, length, take, drop, replicate, length-append, length-replicate,
}
use remindb.Logbuf.{LogRecord, Buffer, new_buffer, append, buffered, append_all, zero_record}
use remindb.Logbuf.Slots.{
  Holds, written, filling, append-written, whole-Holds, room, take-append, written-records, full,
  written-wrap, drop-append, count_more, drops_none, written-next, count_stays, drops_one,
}

module _ {Value : Type 0} where
  -- One record more.
  written-Holds :
      (size : ℕ) (rs : List (LogRecord Value)) (r : LogRecord Value) (b : Buffer Value)
      → Holds size rs b
      → Holds size (rs ++ r ∷ []) (written r b)
  written-Holds size rs r b (filling x [] e s n c d f) =
      whole-Holds size (rs ++ r ∷ []) [] (rs ++ r ∷ []) (written r b) (omega (arith, f))
        (written-records r x b rs [] e n) refl s (written-wrap r b (omega (arith, s, n, f)))
        (count_more r b (omega (arith, s, c, f)) ∙ omega (arith, c, f))
        (drops_none r b (omega (arith, s, c, f)) ∙ d) (omega (arith, f, length-append rs (r ∷ [])))
  written-Holds size rs r b (filling x (y ∷ rest) e s n c d f) =
      filling y rest
        (written-records r x b rs (y ∷ rest) e n ∙ sym (append_assoc rs (r ∷ []) (y ∷ rest))) s
        (written-next r b (omega (arith, s, n, f)) ∙ omega (arith, n, length-append rs (r ∷ [])))
        (count_more r b (omega (arith, s, c, f)) ∙ omega (arith, c, length-append rs (r ∷ [])))
        (drops_none r b (omega (arith, s, c, f)) ∙ d) (omega (arith, f, length-append rs (r ∷ [])))
  written-Holds size rs r b (full old front [] x e w s n c d f) =
      whole-Holds size (rs ++ r ∷ []) (old ++ x ∷ []) (front ++ r ∷ []) (written r b)
        (omega (arith, f)) (written-records r x b front [] e n)
        (ap (λ l. l ++ r ∷ []) w ∙ simp append_assoc) s (written-wrap r b (omega (arith, s, n, f)))
        (count_stays r b (c ∙ sym s) ∙ c)
        (drops_one r b (c ∙ sym s) ∙ omega (arith, d, length-append old (x ∷ [])))
        (omega (arith, f, length-append front (r ∷ [])))
  written-Holds size rs r b (full old front (y ∷ back) x e w s n c d f) =
      full (old ++ x ∷ []) (front ++ r ∷ []) back y
        (written-records r x b front (y ∷ back) e n ∙ sym (append_assoc front (r ∷ []) (y ∷ back)))
        (ap (λ l. l ++ r ∷ []) w ∙ simp append_assoc) s
        (written-next r b (omega (arith, s, n, f)) ∙ omega (arith, n, length-append front (r ∷ [])))
        (count_stays r b (c ∙ sym s) ∙ c)
        (drops_one r b (c ∙ sym s) ∙ omega (arith, d, length-append old (x ∷ [])))
        (omega (arith, f, length-append front (r ∷ [])))

  Holds-room :
      (size : ℕ) (rs : List (LogRecord Value)) (b : Buffer Value)
      → Holds size rs b
      → b.next < length b.records
  Holds-room size rs b (filling x rest e s n c d f) = room x b rs rest e n
  Holds-room size rs b (full old front back x e w s n c d f) = room x b front back e n

  append_all_none : (b : Buffer Value) → append_all [] b ≡ some b
  unfolding append_all
  append_all_none b = refl

  append_all_more :
      (r : LogRecord Value) (rs : List (LogRecord Value)) (b b' : Buffer Value) (fired : Bool)
      → append r b ≡ some (b', fired)
      → append_all (r ∷ rs) b ≡ append_all rs b'
  unfolding append_all
  append_all_more r rs b b' fired e =
      ap (λ o. elim o [ none ↦ none | some (c, f) ↦ append_all rs c ]) e

  append_all-Holds :
      (size : ℕ) (seen rs : List (LogRecord Value)) (b : Buffer Value)
      → Holds size seen b
      → (b' : Buffer Value) × (append_all rs b ≡ some b') × Holds size (seen ++ rs) b'
  append_all-Holds size seen [] b h = (b, append_all_none b, rw (append-nil seen) h)
  append_all-Holds size seen (r ∷ rs) b h =
      let first = append-written r b (Holds-room size seen b h) in
      let (b', e, k) =
        append_all-Holds size (seen ++ r ∷ []) rs (written r b) (written-Holds size seen r b h) in
      (
        b',
        append_all_more r rs b (written r b) b.observed first ∙ e,
        subst (λ l. Holds size l b') (append_assoc seen (r ∷ []) rs) k,
      )

  buffered_part : (b : Buffer Value) → b.count < b.size → buffered b ≡ take b.count b.records
  unfolding buffered
  buffered_part b h = ground arith

  buffered_whole :
      (b : Buffer Value)
      → b.count ≡ b.size
      → buffered b ≡ drop b.next b.records ++ take b.next b.records
  unfolding buffered
  buffered_whole b h = ground arith

  -- What the buffer gives back.
  Holds-buffered :
      (size : ℕ) (rs : List (LogRecord Value)) (b : Buffer Value)
      → Holds size rs b
      → (buffered b ≡ drop (length rs - size) rs) × (b.dropped ≡ length rs - size)
  Holds-buffered size rs b (filling x rest e s n c d f) =
      let none : length rs - size ≡ 0 = omega (arith, f) in
      (
        buffered_part b (omega (arith, s, c, f))
            ∙ ap (λ k. take k b.records) c
            ∙ ap (take (length rs)) e
            ∙ take-append rs (x ∷ rest)
            ∙ sym (ap (λ k. drop k rs) none),
        d ∙ sym none,
      )
  Holds-buffered size rs b (full old front back x e w s n c d f) =
      let many : length rs - size ≡ length old = omega (
        arith,
        ap length w,
        length-append (old ++ x ∷ back) front,
        length-append old (x ∷ back),
        f,
      ) in
      (
        buffered_whole b (c ∙ sym s)
            ∙ ap (λ k. drop k b.records ++ take k b.records) n
            ∙ ap (λ l. drop (length front) l ++ take (length front) l) e
            ∙ ap (λ l. l ++ take (length front) (front ++ x ∷ back)) (drop-append front (x ∷ back))
            ∙ ap (λ l. (x ∷ back) ++ l) (take-append front (x ∷ back))
            ∙ sym (drop-append old ((x ∷ back) ++ front))
            ∙ ap (drop (length old)) (sym (append_assoc old (x ∷ back) front) ∙ sym w)
            ∙ sym (ap (λ k. drop k rs) many),
        d ∙ sym many,
      )

  new_buffer-Holds : (size : ℕ) → 0 < size → Holds size [] (new_buffer {Value = Value} size)
  unfolding new_buffer
  new_buffer-Holds zero p = absurd (omega arith)
  new_buffer-Holds (suc n) p =
      filling zero_record (replicate n zero_record) refl refl refl refl refl
        (omega (arith, length-replicate n zero_record))

-- A buffer of at least one slot takes any sequence of records without a panic. Its `Records` are
-- then the newest ones, as many as it has slots, oldest first, and it counts as dropped all that
-- came before them.
pub append_all-buffered :
    {Value : Type 0} (size : ℕ) (rs : List (LogRecord Value))
    → 0 < size
    → (b : Buffer Value) × (append_all rs (new_buffer size) ≡ some b)
      × (buffered b ≡ drop (length rs - size) rs)
      × (b.dropped ≡ length rs - size)
append_all-buffered size rs p =
    let (b, e, h) = append_all-Holds size [] rs (new_buffer size) (new_buffer-Holds size p) in
    let (kept, dropped) = Holds-buffered size rs b h in (b, e, kept, dropped)
