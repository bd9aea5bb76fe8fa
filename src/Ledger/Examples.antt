-- ===== src/Ledger/Examples.antt =====
-- pkg/mcp/ledger at a file with two checkpoints of one session and a corrupt line.
use remindb.Prelude.{
  ℕ, ◌≡◌, refl, Option, none, some, List, [], ◌∷◌, arith, Bytes, codes, str_dec, length,
}
use remindb.Session.{LedgerRecord, no_client}
use remindb.Ledger.{latest_per_session, summarize_client, compact, slug}
use remindb.Ledger.Compact.{compact-summarize_client}
use remindb.Prelude.Assoc.{lookup, insert}
use remindb.Prelude.Sorting.{sort}

abbrev checkpoint : ℕ → ℕ → LedgerRecord
checkpoint seen calls = record {
  session_id = codes "s";
  client = no_client;
  transport = codes "stdio";
  connected_at = 1;
  last_seen = seen;
  disconnected_at = 0;
  tool_calls = calls;
}

-- A record of this session as its two numbers.
abbrev write_line : LedgerRecord → Bytes
write_line r = r.last_seen ∷ r.tool_calls ∷ []

abbrev read_line : Bytes → Option LedgerRecord
read_line (seen ∷ calls ∷ []) = some (checkpoint seen calls)
read_line _ = none

abbrev lines : List Bytes
lines = (5 ∷ 1 ∷ []) ∷ codes "?" ∷ [] ∷ (9 ∷ 4 ∷ []) ∷ []

compact-lines : compact write_line read_line lines ≡ (9 ∷ 4 ∷ []) ∷ []
unfolding compact str_dec lookup insert sort
compact-lines = refl

slug_test : slug (codes "claude code (beta)") ≡ codes "claude-code-beta"
unfolding slug str_dec
slug_test = refl

abbrev length_hash : Bytes → ℕ
length_hash s = length s

compact-summarize_client_example :
    summarize_client length_hash read_line (compact write_line read_line lines)
    ≡ summarize_client length_hash read_line lines
unfolding latest_per_session str_dec lookup insert
compact-summarize_client_example =
    compact-summarize_client length_hash write_line read_line lines no_client (codes "stdio")
      ((refl, cc, omega arith), tt) ((refl, refl), tt)
