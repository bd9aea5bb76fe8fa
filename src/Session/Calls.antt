-- ===== src/Session/Calls.antt =====
-- What the registry of pkg/mcp/session counts.
use remindb.Prelude.{
  ℕ, ◌+◌, ◌≡◌, refl, ap, ◌∙◌, true, Option, none, some, List, [], ◌∷◌, arith, if◌then◌else◌,
  Bool-cases, Bytes, ◌=s◌, str_dec,
}
use remindb.Prelude.Assoc.{lookup, insert, lookup-insert}
use remindb.Session.{
  Meta, Live, Sessions, Method, ping, call_tool, another, observe, snapshot, flush, track_live,
  checkpoint, is_live, meta_or_new, refresh, touch,
}

-- What happens to a registry: a request, a snapshot, or a flush, with the sessions that are open.
pub data Event : Type 0 where
  request : ℕ → Live → Method → Event
  listed : ℕ → List Live → Event
  flushed : ℕ → List Live → Event

abbrev pub calls : Option Meta → ℕ
calls none = 0
calls (some m) = m.tool_calls

abbrev is_call : Method → ℕ
is_call call_tool = 1
is_call ping = 0
is_call another = 0

-- The tool calls of the session in the events.
unfoldable pub count_calls : Bytes → List Event → ℕ
count_calls q [] = 0
count_calls q (request now ss method ∷ events) =
    let rest = count_calls q events in if q =s ss.handle then is_call method + rest else rest
count_calls q (listed now lives ∷ events) = count_calls q events
count_calls q (flushed now lives ∷ events) = count_calls q events

new-calls : (now : ℕ) (o : Option Meta) → (meta_or_new now o).tool_calls ≡ calls o
new-calls now none = refl
new-calls now (some m) = refl

calls-insert :
    (q h : Bytes) (m : Meta) (s : Sessions)
    → calls (lookup q (insert h m s)) ≡ (if q =s h then m.tool_calls else calls (lookup q s))
calls-insert q h m s = ground (arith, lookup-insert q h m s)

calls-same :
    (q h : Bytes) (m : Meta) (s : Sessions)
    → m.tool_calls ≡ calls (lookup h s)
    → calls (lookup q (insert h m s)) ≡ calls (lookup q s)
calls-same q h m s e = elim (str_dec q h) [
  | yes same ↦ rw same (calls-insert h h m s ∙ ground (arith, e))
  | no differs ↦ calls-insert q h m s ∙ ground (arith, differs)
]

module _ (identify : Bytes → ℕ → Bytes) (transport listen : Bytes) where
  -- One event.
  unfoldable step : Event → Sessions → Sessions
  step (request now ss method) s = (observe identify transport listen now ss method s).1
  step (listed now lives) s = (snapshot identify transport listen now lives s).1
  step (flushed now lives) s = (flush identify transport listen now lives s).1

  unfoldable pub run : List Event → Sessions → Sessions
  unfolding step
  run [] s = s
  run (e ∷ events) s = run events (step e s)

  -- Every flush finds the session open.
  abbrev StaysOpen : Bytes → List Event → Type 0
  StaysOpen q [] = Unit
  StaysOpen q (request now ss method ∷ events) = StaysOpen q events
  StaysOpen q (listed now lives ∷ events) = StaysOpen q events
  StaysOpen q (flushed now lives ∷ events) = (is_live q lives ≡ true) × StaysOpen q events

  touch-calls :
      (now : ℕ) (method : Method) (m : Meta)
      → (touch identify transport listen now method m).tool_calls ≡ m.tool_calls + is_call method
  touch-calls now ping m = omega arith
  touch-calls now call_tool m = omega arith
  touch-calls now another m = omega arith

  observe-calls :
      (q : Bytes) (now : ℕ) (ss : Live) (method : Method) (s : Sessions)
      → calls (lookup q (observe identify transport listen now ss method s).1)
        ≡ calls (lookup q s) + (if q =s ss.handle then is_call method else 0)
  unfolding observe
  observe-calls q now ss method s =
      let old = meta_or_new now (lookup ss.handle s) in
      let m =
        touch identify transport listen now method (refresh identify transport listen ss old) in
      elim (str_dec q ss.handle) [
        | yes same ↦
            calls-insert q ss.handle m s
            ∙ ground (
              arith,
              same,
              touch-calls now method (refresh identify transport listen ss old),
              new-calls now (lookup q s),
            )
        | no differs ↦ calls-insert q ss.handle m s ∙ ground (arith, differs)
      ]

  snapshot-calls :
      (q : Bytes) (now : ℕ) (lives : List Live) (s : Sessions)
      → calls (lookup q (snapshot identify transport listen now lives s).1) ≡ calls (lookup q s)
  unfolding snapshot
  snapshot-calls q now [] s = refl
  snapshot-calls q now (ss ∷ lives) s =
      let m = meta_or_new now (lookup ss.handle s) in
      snapshot-calls q now lives (insert ss.handle m s)
      ∙ calls-same q ss.handle m s (new-calls now (lookup ss.handle s))

  track-calls :
      (q : Bytes) (now : ℕ) (lives : List Live) (s : Sessions)
      → calls (lookup q (track_live identify transport listen now lives s)) ≡ calls (lookup q s)
  unfolding track_live
  track-calls q now [] s = refl
  track-calls q now (ss ∷ lives) s =
      let m = refresh identify transport listen ss (meta_or_new now (lookup ss.handle s)) in
      track-calls q now lives (insert ss.handle m s)
      ∙ calls-same q ss.handle m s (new-calls now (lookup ss.handle s))

  lookup-checkpoint :
      (q : Bytes) (lives : List Live) (s : Sessions)
      → lookup q (checkpoint identify transport listen lives s).1
        ≡ (if is_live q lives then lookup q s else none)
  unfolding checkpoint lookup
  lookup-checkpoint q lives [] = ground (arith, Bool-cases (is_live q lives))
  lookup-checkpoint q lives ((k, m) ∷ s) = elim (str_dec q k) [
    | yes e ↦ rw e (ground (arith, lookup-checkpoint k lives s))
    | no e ↦ ground (arith, lookup-checkpoint q lives s)
  ]

  flush-calls :
      (q : Bytes) (now : ℕ) (lives : List Live) (s : Sessions)
      → is_live q lives ≡ true
      → calls (lookup q (flush identify transport listen now lives s).1) ≡ calls (lookup q s)
  unfolding flush
  flush-calls q now lives s open_now =
      ap calls (lookup-checkpoint q lives (track_live identify transport listen now lives s))
      ∙ ap
          (λ b.
            calls (if b then lookup q (track_live identify transport listen now lives s) else none))
          open_now
      ∙ track-calls q now lives s

  -- While a session stays open, the registry counts each of its tool calls once, whatever other requests,
  -- snapshots and flushes come in between.
  pub run-count_calls :
      (q : Bytes) (events : List Event) (s : Sessions)
      → StaysOpen q events
      → calls (lookup q (run events s)) ≡ calls (lookup q s) + count_calls q events
  unfolding run step count_calls
  run-count_calls q [] s o = omega arith
  run-count_calls q (request now ss method ∷ events) s o =
      let later = run-count_calls q events (step (request now ss method) s) o in
      let first = observe-calls q now ss method s in
      elim (str_dec q ss.handle) [
        | yes same ↦ ground (arith, later, first, same)
        | no differs ↦ ground (arith, later, first, differs)
      ]
  run-count_calls q (listed now lives ∷ events) s o =
      run-count_calls q events (step (listed now lives) s) o
      ∙ ap (λ n. n + count_calls q events) (snapshot-calls q now lives s)
  run-count_calls q (flushed now lives ∷ events) s o =
      run-count_calls q events (step (flushed now lives) s) o.1
      ∙ ap (λ n. n + count_calls q events) (flush-calls q now lives s o.0)
