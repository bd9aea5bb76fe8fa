-- ===== src/Session/Examples.antt =====
-- pkg/mcp/session with two sessions: one calls tools, the other leaves.
use remindb.Prelude.{ℕ, ◌+◌, ◌≡◌, refl, none, List, [], ◌∷◌, arith, Bytes, codes, str_dec}
use remindb.Prelude.Assoc.{lookup, insert}
use mathlib.Core.List.{Memᴰ}
use remindb.Session.{
  Live, Meta, Sessions, ping, call_tool, another, no_client, flush, observe, record_of,
}
use remindb.Session.Calls.{Event, request, flushed, calls, count_calls, run, run-count_calls}
use remindb.Session.Closing.{flush-closes}

abbrev live : Bytes → Live
live h = record { handle = h; raw_id = []; client = no_client }

abbrev name : Bytes → ℕ → Bytes
name transport now = codes "id"

abbrev events : List Event
events =
    request 1 (live (codes "s")) call_tool
    ∷ request 2 (live (codes "t")) call_tool
    ∷ flushed 3 (live (codes "s") ∷ [])
    ∷ request 4 (live (codes "s")) ping
    ∷ request 5 (live (codes "s")) call_tool
    ∷ []

counted : calls (lookup (codes "s") (run name (codes "http") [] events [])) ≡ 2
unfolding run lookup insert str_dec observe flush
counted = refl

run-count_calls_example :
    calls (lookup (codes "s") (run name (codes "http") [] events []))
    ≡ calls (lookup (codes "s") []) + count_calls (codes "s") events
unfolding remindb.Session.is_live str_dec
run-count_calls_example = run-count_calls name (codes "http") [] (codes "s") events [] (refl, tt)

abbrev left : Meta
left = record {
  id = codes "id";
  client = no_client;
  connected_at = 1;
  last_activity = 2;
  tool_calls = 3;
}

abbrev tracked : Sessions
tracked = (codes "t", left) ∷ []

flush-closes_example :
    (lookup (codes "t") (flush name (codes "http") [] 9 (live (codes "s") ∷ []) tracked).1 ≡ none)
    × Memᴰ
        (record_of name (codes "http") [] left 2)
        (flush name (codes "http") [] 9 (live (codes "s") ∷ []) tracked).0
unfolding remindb.Session.is_live str_dec lookup
flush-closes_example =
    flush-closes name (codes "http") [] (codes "t") left 9 (live (codes "s") ∷ []) tracked refl refl
      (λ e. ground (arith, e))
