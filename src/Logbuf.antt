-- ===== src/Logbuf.antt =====
-- pkg/logbuf: the ring buffer of log records, and the handler that fills it. `Value` is what an
-- attribute holds.
pub mod Slots
pub mod Ring
mod Examples
use remindb.Prelude.{
  ℕ, zero, suc, ◌+◌, ◌-◌, ◌*◌, ◌/◌, ◌%◌, ◌≤◌, ◌<◌, min, max, ◌≡◌, refl, sym, ap, ◌∙◌, subst, ◌≢◌,
  ◌↔◌, ◌⊎◌, inl, inr, Bool, true, false, not, ◌&&◌, ◌||◌, Option, none, some, List, [], ◌∷◌, ◌++◌,
  map, append_assoc, append-nil, arith, ltb, leb, ◌==◌, if◌then◌else◌, Bool-cases, Option-cases,
  Bytes, codes, ◌=s◌, str_dec, length, get_elem?, set, take, drop, replicate, All, All-append,
  All-map, length-append,
}
use remindb.Prelude.Assoc.{insert}

pub record LogRecord (Value : Type 0) : Type 0 where
  pub time : ℕ
  pub level : Bytes
  pub msg : Bytes
  pub attrs : List (Bytes × Value)

-- The zero value of a slot.
abbrev pub zero_record : {Value : Type 0} → LogRecord Value
zero_record = record { time = 0; level = []; msg = []; attrs = [] }

-- `observed` says whether a callback is set.
pub record Buffer (Value : Type 0) : Type 0 where
  pub records : List (LogRecord Value)
  pub size : ℕ
  pub next : ℕ
  pub count : ℕ
  pub dropped : ℕ
  pub observed : Bool

module _ {Value : Type 0} where
  unfoldable pub new_buffer : ℕ → Buffer Value
  new_buffer size = record {
    records = replicate size zero_record;
    size = size;
    next = 0;
    count = 0;
    dropped = 0;
    observed = false;
  }

  abbrev set_observer : Bool → Buffer Value → Buffer Value
  set_observer fn b = record b { observed = fn }

  -- The new buffer, and whether the callback runs. A write out of bounds panics, and gives `none`.
  unfoldable pub append : LogRecord Value → Buffer Value → Option (Buffer Value × Bool)
  append r b =
      let dropped = if b.count == b.size then b.dropped + 1 else b.dropped in
      let count = if ltb b.count b.size then b.count + 1 else b.count in
      if ltb b.next (length b.records)
      then some (
        record b {
          records = set b.records b.next r;
          next = (b.next + 1) % b.size;
          count = count;
          dropped = dropped;
        },
        b.observed,
      )
      else none

  -- `Records`, oldest first.
  unfoldable pub buffered : Buffer Value → List (LogRecord Value)
  buffered b =
      if ltb b.count b.size
      then take b.count b.records
      else drop b.next b.records ++ take b.next b.records

  -- A sequence of appends, oldest first.
  unfoldable pub append_all : List (LogRecord Value) → Buffer Value → Option (Buffer Value)
  append_all [] b = some b
  append_all (r ∷ rs) b = elim (append r b) [ none ↦ none | some (b', fired) ↦ append_all rs b' ]

-- The handler's part that the buffer sees; `next` is the handler that it wraps.
pub record Handler (Value : Type 0) : Type 0 where
  pub prefix : Bytes
  pub attrs : List (Bytes × Value)

module _ {Value : Type 0} where
  -- `maps.Copy` and the loops over attributes: a later key replaces an earlier one.
  unfoldable add_attrs : Bytes → List (Bytes × Value) → List (Bytes × Value) → List (Bytes × Value)
  add_attrs prefix [] m = m
  add_attrs prefix ((k, v) ∷ l) m = add_attrs prefix l (insert (prefix ++ k) v m)

  abbrev with_attrs : List (Bytes × Value) → Handler Value → Handler Value
  with_attrs l h = record h { attrs = add_attrs h.prefix l h.attrs }

  -- `name + "."`.
  abbrev with_group : Bytes → Handler Value → Handler Value
  with_group name h = if name =s [] then h else record h { prefix = h.prefix ++ name ++ 46 ∷ [] }

  abbrev handle : LogRecord Value → Handler Value → Buffer Value → Option (Buffer Value × Bool)
  handle r h b = append (record r { attrs = add_attrs h.prefix r.attrs h.attrs }) b
