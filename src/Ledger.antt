-- ===== src/Ledger.antt =====
-- pkg/mcp/ledger/ledger.go: the checkpoints of the sessions of a client, one to a line of its file. A
-- file is the list of its lines. `marshal` and `unmarshal` are encoding/json's on a record; a line
-- that is no record has no value.
pub mod Order
pub mod Sessions
mod Examples
pub mod Compact
pub mod Totals
use remindb.Prelude.{
  ℕ, zero, suc, ◌+◌, ◌-◌, ◌*◌, ◌/◌, ◌%◌, ◌≤◌, ◌<◌, min, max, ◌≡◌, refl, sym, ap, ◌∙◌, subst, ◌≢◌,
  ◌↔◌, ◌⊎◌, inl, inr, Bool, true, false, not, ◌&&◌, ◌||◌, Option, none, some, List, [], ◌∷◌, ◌++◌,
  map, append_assoc, append-nil, arith, ltb, leb, ◌==◌, if◌then◌else◌, Bool-cases, Option-cases,
  Bytes, codes, ◌=s◌, str_dec, length, get_elem?, set, take, drop, replicate, All, All-append,
  All-map, All-append_left, All-append_right, All-zip, All-pure, length-append, length-take, ◌^◌,
}
use mathlib.Core.List.{reverse}
use remindb.Prelude.Assoc.{lookup, insert}
use remindb.Prelude.Sorting.{sort, str_leb}
use remindb.Prelude.Text.{join}
use remindb.Session.{ClientMeta, LedgerRecord, no_client}
use remindb.Contentid.{identify_payload}

pub record ClientLedger : Type 0 where
  pub hash : Bytes
  pub client : ClientMeta
  pub transport : Bytes
  pub sessions : ℕ
  pub lifetime_seconds : ℕ
  pub last_disconnect : ℕ
  pub tool_calls : ℕ

-- `Hash`, over xxhash.
unfoldable pub client_hash : (Bytes → ℕ) → ClientMeta → Bytes → Bytes
client_hash xxhash c transport =
    identify_payload xxhash (λ n. []) (codes "client")
      (join (0 ∷ []) (c.name ∷ c.title ∷ c.version ∷ c.protocol ∷ transport ∷ []))

abbrev slug_max_len : ℕ
slug_max_len = 40

abbrev is_word : ℕ → Bool
is_word c = (leb b'a' c && leb c b'z') || (leb b'0' c && leb c b'9')

-- The loop of `slug` over a lower-case name, with what it has written from the last byte to the
-- first. A rune of several bytes gives one dash, as its bytes give one together.
unfoldable slug_loop : Bool → Bytes → Bytes → Bytes
slug_loop dash out [] = reverse out
slug_loop dash out (c ∷ s) =
    let word = slug_loop false (c ∷ out) s in
    let gap = slug_loop true (b'-' ∷ out) s in
    let pass = slug_loop dash out s in
    if is_word c then word else if not dash && not (out =s []) then gap else pass

unfoldable drop_dashes : Bytes → Bytes
drop_dashes [] = []
drop_dashes (c ∷ s) = let rest = drop_dashes s in if c == b'-' then rest else c ∷ s

abbrev trim_dashes : Bytes → Bytes
trim_dashes s = reverse (drop_dashes (reverse (drop_dashes s)))

-- `slug` of the name as `strings.ToLower` gives it.
unfoldable pub slug : Bytes → Bytes
unfolding slug_loop drop_dashes
slug lowered =
    let s = trim_dashes (slug_loop false [] lowered) in
    let short = if ltb slug_max_len (length s) then trim_dashes (take slug_max_len s) else s in
    if short =s [] then codes "client" else short

abbrev pub scan_max_line : ℕ
scan_max_line = 2 ^ 20

abbrev zero_record : LedgerRecord
zero_record = record {
  session_id = [];
  client = no_client;
  transport = [];
  connected_at = 0;
  last_seen = 0;
  disconnected_at = 0;
  tool_calls = 0;
}

-- The two variables of the loop of `latestPerSession`.
pub record Latest : Type 0 where
  pub by_session : List (Bytes × LedgerRecord)
  pub order : List Bytes

unfoldable pub note_record : LedgerRecord → Latest → Latest
note_record r l = record {
  by_session = insert r.session_id r l.by_session;
  order = elim (lookup r.session_id l.by_session) [
    | none ↦ l.order ++ r.session_id ∷ []
    | some old ↦ l.order
  ];
}

abbrev pub no_sessions : Latest
no_sessions = record { by_session = []; order = [] }

-- What stands under a key of the map, and the zero value of a missing one.
abbrev pub record_at : List (Bytes × LedgerRecord) → Bytes → LedgerRecord
record_at m id = elim (lookup id m) [ none ↦ zero_record | some r ↦ r ]

unfoldable pub note_found : Option LedgerRecord → Latest → Latest
unfolding note_record
note_found none l = l
note_found (some r) l = note_record r l

module _ (unmarshal : Bytes → Option LedgerRecord) where
  -- One round of the loop: a line that is empty or corrupt is passed over.
  unfoldable pub note_line : Bytes → Latest → Latest
  unfolding note_found
  note_line raw l = if raw =s [] then l else note_found (unmarshal raw) l

  -- A line that is too long ends the scan.
  unfoldable pub scan_lines : List Bytes → Latest → Latest
  unfolding note_line
  scan_lines [] l = l
  scan_lines (raw ∷ lines) l =
      let rest = scan_lines lines (note_line raw l) in
      if leb scan_max_line (length raw) then l else rest

  unfoldable pub latest_per_session : List Bytes → List LedgerRecord
  unfolding scan_lines
  latest_per_session lines =
      let l = scan_lines lines no_sessions in map (record_at l.by_session) l.order

-- What one record adds to the sums, and the client that the newest one names.
abbrev pub counted : LedgerRecord → ClientLedger → ClientLedger
counted r cl =
    let end = if r.disconnected_at == 0 then r.last_seen else r.disconnected_at in
    record cl {
      lifetime_seconds = cl.lifetime_seconds + (end - r.connected_at);
      tool_calls = cl.tool_calls + r.tool_calls;
      last_disconnect = max cl.last_disconnect r.disconnected_at;
    }

abbrev pub named : Bool → LedgerRecord → ClientLedger → ClientLedger
named true r cl = record cl { client = r.client; transport = r.transport }
named false r cl = cl

abbrev pub is_newest : Option ℕ → LedgerRecord → Bool
is_newest none r = true
is_newest (some t) r = leb t r.last_seen

-- The loop of `summarizeClient`; `newest` is none before the first record.
unfoldable pub summarize_loop : Option ℕ → ClientLedger → List LedgerRecord → ClientLedger
summarize_loop newest cl [] = cl
summarize_loop newest cl (r ∷ rs) =
    summarize_loop (if is_newest newest r then some r.last_seen else newest)
      (named (is_newest newest r) r (counted r cl)) rs

abbrev pub empty_ledger : ℕ → ClientLedger
empty_ledger sessions = record {
  hash = [];
  client = no_client;
  transport = [];
  sessions = sessions;
  lifetime_seconds = 0;
  last_disconnect = 0;
  tool_calls = 0;
}

unfoldable pub summarize : (Bytes → ℕ) → List LedgerRecord → Option ClientLedger
unfolding summarize_loop
summarize xxhash [] = none
summarize xxhash (r ∷ rs) =
    let cl = summarize_loop none (empty_ledger (length (r ∷ rs))) (r ∷ rs) in
    some (record cl { hash = client_hash xxhash cl.client cl.transport })

-- `summarizeClient` on the lines of a file.
unfoldable pub summarize_client :
    (Bytes → ℕ) → (Bytes → Option LedgerRecord) → List Bytes → Option ClientLedger
unfolding latest_per_session summarize
summarize_client xxhash unmarshal lines = summarize xxhash (latest_per_session unmarshal lines)

-- The order of `compact`.
abbrev pub connected_leb : LedgerRecord → LedgerRecord → Bool
connected_leb a b =
    if a.connected_at == b.connected_at
    then str_leb a.session_id b.session_id
    else leb a.connected_at b.connected_at

abbrev pub write_records : (LedgerRecord → Bytes) → List Bytes → List LedgerRecord → List Bytes
write_records marshal lines [] = lines
write_records marshal lines (r ∷ rs) = map marshal (sort connected_leb (r ∷ rs))

-- What `compact` makes of the lines of a file: one without records is left alone.
unfoldable pub compact :
    (LedgerRecord → Bytes) → (Bytes → Option LedgerRecord) → List Bytes → List Bytes
unfolding latest_per_session
compact marshal unmarshal lines = write_records marshal lines (latest_per_session unmarshal lines)
