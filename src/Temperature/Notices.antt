-- ===== src/Temperature/Notices.antt =====
-- A cold node of pkg/temperature is not notified twice within the time to live.
use remindb.Prelude.{
  ℕ, ◌-◌, ◌≤◌, ◌<◌, ◌≡◌, refl, ap, ◌∙◌, inl, inr, true, false, none, some, List, [], ◌∷◌, arith,
  Bool-cases, Option-cases, Bytes, str_dec, All, All-map,
}
use remindb.Prelude.Assoc.{lookup, insert, lookup-insert}
use remindb.Prelude.Sorting.{contains}
use remindb.Store.Rows.{Node}
use remindb.Temperature.{Notified, evict_stale, not_notified, dedup_cold, mark_notified}

lookup-mark_other :
    (q : Bytes) (now : ℕ) (ids : List Bytes) (m : Notified)
    → lookup q m ≡ some now
    → lookup q (mark_notified now ids m) ≡ some now
unfolding mark_notified
lookup-mark_other q now [] m e = e
lookup-mark_other q now (id ∷ ids) m e =
    lookup-mark_other q now ids (insert id now m) (ground (arith, lookup-insert q id now m))

lookup-mark :
    (q : Bytes) (now : ℕ) (ids : List Bytes) (m : Notified)
    → contains q ids ≡ true
    → lookup q (mark_notified now ids m) ≡ some now
unfolding mark_notified contains
lookup-mark q now [] m c = absurd (ground arith)
lookup-mark q now (id ∷ ids) m c = elim (str_dec q id) [
  | yes here ↦
      lookup-mark_other q now ids (insert id now m) (ground (arith, lookup-insert q id now m))
  | no there ↦ lookup-mark q now ids (insert id now m) (ground arith)
]

lookup-evict :
    (q : Bytes) (ttl now ts : ℕ) (m : Notified)
    → lookup q m ≡ some ts
    → now - ts ≤ ttl
    → lookup q (evict_stale ttl now m) ≡ some ts
unfolding evict_stale lookup
lookup-evict q ttl now ts [] e h = absurd (ground arith)
lookup-evict q ttl now ts ((id, t) ∷ m) e h = ground (arith, lookup-evict q ttl now ts m)

evict_none :
    (ttl now : ℕ) (m : Notified) → All (λ p. ttl < now - p.1) m → evict_stale ttl now m ≡ []
unfolding evict_stale
evict_none ttl now [] h = refl
evict_none ttl now ((id, t) ∷ m) h = ground (arith, evict_none ttl now m h.1)

not_notified-All :
    (m : Notified) (cold : List Node) → All (λ n. lookup n.id m ≡ none) (not_notified m cold)
unfolding not_notified
not_notified-All m [] = tt
not_notified-All m (n ∷ cold) = elim (Option-cases (lookup n.id m)) [
  | inl e ↦ ground (arith, not_notified-All m cold)
  | inr (ts, e) ↦ ground (arith, not_notified-All m cold)
]

not_notified_all : (cold : List Node) → not_notified [] cold ≡ cold
unfolding not_notified lookup
not_notified_all [] = refl
not_notified_all (n ∷ cold) = ap (λ l. n ∷ l) (not_notified_all cold)

-- After ids were marked as notified, `dedupCold` hands out no node with one of them until the time
-- to live is over.
pub dedup_cold-mark :
    (ttl now later : ℕ) (ids : List Bytes) (cold : List Node) (m : Notified)
    → later - now ≤ ttl
    → All (λ n. contains n.id ids ≡ false) (dedup_cold ttl later cold (mark_notified now ids m)).0
unfolding dedup_cold
dedup_cold-mark ttl now later ids cold m h =
    let marked = mark_notified now ids m in
    All-map
      (λ n none_left. elim (Bool-cases (contains n.id ids)) [
        | inr absent ↦ absent
        | inl present ↦
            let kept =
              lookup-evict n.id ttl later now marked (lookup-mark n.id now ids m present) h in
            absurd (ground (arith, kept, none_left))
      ])
      (not_notified (evict_stale ttl later marked) cold)
      (not_notified-All (evict_stale ttl later marked) cold)

-- Once the time to live is over for every entry, `dedupCold` hands out all cold nodes, and forgets
-- the entries.
pub dedup_cold_expired :
    (ttl later : ℕ) (cold : List Node) (m : Notified)
    → All (λ p. ttl < later - p.1) m
    → dedup_cold ttl later cold m ≡ (cold, [])
unfolding dedup_cold
dedup_cold_expired ttl later cold m old =
    ap (λ kept. (not_notified kept cold, kept)) (evict_none ttl later m old)
    ∙ ap (λ l. (l, [])) (not_notified_all cold)
