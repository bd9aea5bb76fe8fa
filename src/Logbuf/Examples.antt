-- ===== src/Logbuf/Examples.antt =====
-- pkg/logbuf at three records in two slots.
use remindb.Prelude.{ℕ, ◌≡◌, some, List, [], ◌∷◌, arith, Bytes, codes}
use remindb.Logbuf.{LogRecord, Buffer, new_buffer, append_all, buffered}
use remindb.Logbuf.Ring.{append_all-buffered}

abbrev line : ℕ → LogRecord Bytes
line t = record { time = t; level = codes "INFO"; msg = []; attrs = [] }

abbrev lines : List (LogRecord Bytes)
lines = line 1 ∷ line 2 ∷ line 3 ∷ []

append_all-buffered_example :
    (b : Buffer Bytes) × (append_all lines (new_buffer 2) ≡ some b)
    × (buffered b ≡ line 2 ∷ line 3 ∷ [])
    × (b.dropped ≡ 1)
append_all-buffered_example = append_all-buffered 2 lines (omega arith)
