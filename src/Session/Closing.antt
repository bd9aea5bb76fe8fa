-- ===== src/Session/Closing.antt =====
-- What `Flush` of pkg/mcp/session keeps, and what it writes.
use remindb.Prelude.{
  ℕ, ◌≡◌, refl, sym, ap, ◌∙◌, subst, ◌≢◌, Bool, true, false, not, none, some, List, [], ◌∷◌, arith,
  if◌then◌else◌, Bytes, ◌=s◌, str_dec,
}
use mathlib.Core.List.{Memᴰ}
use remindb.Prelude.Assoc.{lookup, insert, lookup-insert}
use remindb.Session.{
  Meta, Live, Sessions, LedgerRecord, flush, track_live, checkpoint, is_live, meta_or_new, refresh,
  record_of,
}

either :
    (r : LedgerRecord) (b : Bool) (x y : List LedgerRecord × Sessions)
    → Memᴰ r x.0
    → Memᴰ r y.0
    → Memᴰ r (if b then x else y).0
either r true x y p q = p
either r false x y p q = q

module _ (identify : Bytes → ℕ → Bytes) (transport listen : Bytes) where
  track-gone :
      (q : Bytes) (now : ℕ) (lives : List Live) (s : Sessions)
      → is_live q lives ≡ false
      → lookup q (track_live identify transport listen now lives s) ≡ lookup q s
  unfolding track_live is_live
  track-gone q now [] s gone = refl
  track-gone q now (ss ∷ lives) s gone =
      let m = refresh identify transport listen ss (meta_or_new now (lookup ss.handle s)) in
      ground (arith, track-gone q now lives (insert ss.handle m s), lookup-insert q ss.handle m s)

  checkpoint-gone :
      (q : Bytes) (lives : List Live) (s : Sessions)
      → is_live q lives ≡ false
      → lookup q (checkpoint identify transport listen lives s).1 ≡ none
  unfolding checkpoint lookup
  checkpoint-gone q lives [] gone = refl
  checkpoint-gone q lives ((k, m) ∷ s) gone = elim (str_dec q k) [
    | yes e ↦ rw e (ground (arith, checkpoint-gone k lives s, gone, e))
    | no e ↦ ground (arith, checkpoint-gone q lives s gone)
  ]

  checkpoint-more :
      (r : LedgerRecord) (k : Bytes) (x : Meta) (lives : List Live) (s : Sessions)
      → Memᴰ r (checkpoint identify transport listen lives s).0
      → Memᴰ r (checkpoint identify transport listen lives ((k, x) ∷ s)).0
  unfolding checkpoint
  checkpoint-more r k x lives s p =
      either r (is_live k lives) _ _ (Memᴰ.tail p) (either r (not (x.id =s [])) _ _ (Memᴰ.tail p) p)

  checkpoint-first :
      (k : Bytes) (x : Meta) (lives : List Live) (s : Sessions)
      → is_live k lives ≡ false
      → x.id ≢ []
      → (checkpoint identify transport listen lives ((k, x) ∷ s)).0
        ≡ record_of identify transport listen x x.last_activity
          ∷ (checkpoint identify transport listen lives s).0
  unfolding checkpoint
  checkpoint-first k x lives s gone named = ground (arith, gone, named)

  checkpoint-record :
      (q : Bytes) (m : Meta) (lives : List Live) (s : Sessions)
      → is_live q lives ≡ false
      → lookup q s ≡ some m
      → m.id ≢ []
      → Memᴰ
          (record_of identify transport listen m m.last_activity)
          (checkpoint identify transport listen lives s).0
  unfolding lookup
  checkpoint-record q m lives [] gone e named = absurd (ground (arith, e))
  checkpoint-record q m lives ((k, x) ∷ s) gone e named = elim (str_dec q k) [
    | no differs ↦
        checkpoint-more (record_of identify transport listen m m.last_activity) k x lives s
          (checkpoint-record q m lives s gone (ground (arith, e, differs)) named)
    | yes same ↦
        let one : x ≡ m = ground (arith, e, same) in
        let gone_k : is_live k lives ≡ false = ap (λ h. is_live h lives) (sym same) ∙ gone in
        let named_x : x.id ≢ [] = λ z. named (ap (λ y. y.id) (sym one) ∙ z) in
        subst (Memᴰ (record_of identify transport listen m m.last_activity))
          (sym (checkpoint-first k x lives s gone_k named_x))
          (Memᴰ.head (ap (λ y. record_of identify transport listen y y.last_activity) (sym one)))
  ]

  -- A flush forgets a session that the server has no longer open, and writes its last record, with the
  -- time of its last activity as that of its end, where the registry had given the session an id.
  pub flush-closes :
      (q : Bytes) (m : Meta) (now : ℕ) (lives : List Live) (s : Sessions)
      → is_live q lives ≡ false
      → lookup q s ≡ some m
      → m.id ≢ []
      → (lookup q (flush identify transport listen now lives s).1 ≡ none)
        × Memᴰ
            (record_of identify transport listen m m.last_activity)
            (flush identify transport listen now lives s).0
  unfolding flush
  flush-closes q m now lives s gone e named =
      let tracked = track_live identify transport listen now lives s in
      (
        checkpoint-gone q lives tracked gone,
        checkpoint-record q m lives tracked gone (track-gone q now lives s gone ∙ e) named,
      )
