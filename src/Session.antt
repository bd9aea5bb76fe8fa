-- ===== src/Session.antt =====
-- pkg/mcp/session/registry.go. A session of the SDK is known by a handle; `Live` is what the server
-- says of a session that it has open. The mutex makes each call one step. Writing the records to the
-- ledger is left out.
pub mod Calls
pub mod Closing
mod Examples
use remindb.Prelude.{
  ℕ, zero, suc, ◌+◌, ◌-◌, ◌*◌, ◌/◌, ◌%◌, ◌≤◌, ◌<◌, min, max, ◌≡◌, refl, sym, ap, ◌∙◌, subst, ◌≢◌,
  ◌↔◌, ◌⊎◌, inl, inr, Bool, true, false, not, ◌&&◌, ◌||◌, Option, none, some, List, [], ◌∷◌, ◌++◌,
  map, append_assoc, append-nil, arith, ltb, leb, ◌==◌, if◌then◌else◌, Bool-cases, Option-cases,
  Bytes, codes, ◌=s◌, str_dec, length, get_elem?, set, take, drop, replicate, All, All-append,
  All-map, length-append,
}
use remindb.Prelude.Assoc.{lookup, insert}

pub record ClientMeta : Type 0 where
  pub name : Bytes
  pub title : Bytes
  pub version : Bytes
  pub protocol : Bytes

pub record Meta : Type 0 where
  pub id : Bytes
  pub client : ClientMeta
  pub connected_at : ℕ
  pub last_activity : ℕ
  pub tool_calls : ℕ

pub record Live : Type 0 where
  pub handle : Bytes
  pub raw_id : Bytes
  pub client : ClientMeta

pub record LedgerRecord : Type 0 where
  pub session_id : Bytes
  pub client : ClientMeta
  pub transport : Bytes
  pub connected_at : ℕ
  pub last_seen : ℕ
  pub disconnected_at : ℕ
  pub tool_calls : ℕ

pub record SessionInfo : Type 0 where
  pub id : Bytes
  pub client : ClientMeta
  pub transport : Bytes
  pub listen : Bytes
  pub connected_at : ℕ
  pub last_activity : ℕ
  pub count_tool_calls : ℕ

abbrev pub Sessions : Type 0
Sessions = List (Bytes × Meta)

abbrev pub no_client : ClientMeta
no_client = record { name = []; title = []; version = []; protocol = [] }

abbrev new_meta : ℕ → Meta
new_meta now = record {
  id = [];
  client = no_client;
  connected_at = now;
  last_activity = now;
  tool_calls = 0;
}

abbrev pub meta_or_new : ℕ → Option Meta → Meta
meta_or_new now none = new_meta now
meta_or_new now (some m) = m

-- The methods that `observe` tells apart.
pub data Method : Type 0 where
  ping call_tool another : Method

unfoldable pub is_live : Bytes → List Live → Bool
is_live q [] = false
is_live q (ss ∷ lives) = if q =s ss.handle then true else is_live q lives

-- `identify` is `IdentifyPayload` of the transport and the time of connecting.
module _ (identify : Bytes → ℕ → Bytes) (transport listen : Bytes) where
  unfoldable pub session_id : Bytes → ℕ → Bytes
  session_id raw connected_at = if not (raw =s []) then raw else identify transport connected_at

  -- The refresh of the id and the client.
  abbrev pub refresh : Live → Meta → Meta
  refresh ss m = record m { id = session_id ss.raw_id m.connected_at; client = ss.client }

  abbrev pub touch : ℕ → Method → Meta → Meta
  touch now ping m = m
  touch now call_tool m = record m { last_activity = now; tool_calls = m.tool_calls + 1 }
  touch now another m = record m { last_activity = now }

  unfoldable pub observe : ℕ → Live → Method → Sessions → Bytes × Sessions
  unfolding session_id
  observe now ss method sessions =
      let m = touch now method (refresh ss (meta_or_new now (lookup ss.handle sessions))) in
      (m.id, insert ss.handle m sessions)

  abbrev to_info : Live → Meta → SessionInfo
  to_info ss m = record {
    id = session_id ss.raw_id m.connected_at;
    client = ss.client;
    transport = transport;
    listen = if transport =s codes "http" then listen else [];
    connected_at = m.connected_at;
    last_activity = m.last_activity;
    count_tool_calls = m.tool_calls;
  }

  -- The loop of `Snapshot`, before the answer is sorted.
  unfoldable pub snapshot : ℕ → List Live → Sessions → List SessionInfo × Sessions
  snapshot now [] sessions = ([], sessions)
  snapshot now (ss ∷ lives) sessions =
      let m = meta_or_new now (lookup ss.handle sessions) in
      let rest = snapshot now lives (insert ss.handle m sessions) in (to_info ss m ∷ rest.0, rest.1)

  abbrev pub record_of : Meta → ℕ → LedgerRecord
  record_of m disconnected_at = record {
    session_id = m.id;
    client = m.client;
    transport = transport;
    connected_at = m.connected_at;
    last_seen = m.last_activity;
    disconnected_at = disconnected_at;
    tool_calls = m.tool_calls;
  }

  -- The first loop of `Flush`.
  unfoldable pub track_live : ℕ → List Live → Sessions → Sessions
  unfolding session_id
  track_live now [] sessions = sessions
  track_live now (ss ∷ lives) sessions =
      track_live now lives
        (insert ss.handle (refresh ss (meta_or_new now (lookup ss.handle sessions))) sessions)

  -- The second loop: the records, and the sessions that stay.
  unfoldable pub checkpoint : List Live → Sessions → List LedgerRecord × Sessions
  unfolding is_live
  checkpoint lives [] = ([], [])
  checkpoint lives ((q, m) ∷ sessions) =
      let rest = checkpoint lives sessions in
      if is_live q lives
      then (record_of m 0 ∷ rest.0, (q, m) ∷ rest.1)
      else if not (m.id =s [])
      then (record_of m m.last_activity ∷ rest.0, rest.1)
      else rest

  unfoldable pub flush : ℕ → List Live → Sessions → List LedgerRecord × Sessions
  unfolding track_live checkpoint
  flush now lives sessions = checkpoint lives (track_live now lives sessions)
