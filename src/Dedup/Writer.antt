-- ===== src/Dedup/Writer.antt =====
-- internal/crawler/dedup.go: the goroutine that moves the queued batches into seen_events, and its
-- shutdown. The deadline of the shutdown and the outcome of each write are given, the i-th of each
-- by `o i`. A batch that is written goes to the control database.
use archive_relay.Prelude.{ℕ, ◌+◌, Bool, true, false, List, [], ◌∷◌, if◌then◌else◌}
use archive_relay.Control.{Db, SeenRef, mark_seen_batch}
use archive_relay.Dedup.{Dedup, add_one_u64}

-- How a batch fares in drainQueued: the deadline has passed when it is received, it is written, the
-- write fails, or the write fails and the deadline has passed by then.
pub data Outcome : Type 0 where
  expired written failed failed_late : Outcome

unfoldable pub take_batch : Bool → List (List SeenRef) → Dedup → Db → Dedup × Db
take_batch done [] d db = (d, db)
take_batch done (batch ∷ rest) d db =
    (record d { write_q = rest }, (mark_seen_batch done batch db).1)

-- One turn of writeLoop's third case: a failed write loses the batch with a warning.
unfoldable pub write_turn : Bool → Dedup → Db → Dedup × Db
write_turn done d db = take_batch done d.write_q d db

unfoldable pub drop_drain_batch : Dedup → Dedup
drop_drain_batch d = record d { dropped_writes = add_one_u64 d.dropped_writes }

unfoldable pub drop_remaining : List (List SeenRef) → Dedup → Dedup
drop_remaining [] d = record d { write_q = [] }
drop_remaining (batch ∷ rest) d = drop_remaining rest (drop_drain_batch d)

module _ (o : ℕ → Outcome) where
  unfoldable pub drain_from : ℕ → List (List SeenRef) → Dedup → Db → Dedup × Db
  drain_from i [] d db = (record d { write_q = [] }, db)
  drain_from i (batch ∷ rest) d db = elim (o i) [
    | expired ↦ (drop_remaining rest (drop_drain_batch d), db)
    | written ↦ drain_from (i + 1) rest d (mark_seen_batch true batch db).1
    | failed ↦ drain_from (i + 1) rest (drop_drain_batch d) (mark_seen_batch false batch db).1
    | failed_late ↦ (drop_remaining rest (drop_drain_batch d), (mark_seen_batch false batch db).1)
  ]

  unfoldable pub drain_queued : Dedup → Db → Dedup × Db
  drain_queued d db = drain_from 0 d.write_q d db

-- A second StartWriter does nothing.
unfoldable pub start_writer : Dedup → Dedup
start_writer d = if d.writer_running then d else record d { writer_running = true }

-- The writer drains on the closed channel, and StopWriter waits for it.
unfoldable pub stop_writer : (ℕ → Outcome) → Dedup → Db → Dedup × Db
stop_writer o d db =
    if d.writer_running
    then (let (d', db') = drain_queued o d db in (record d' { writer_running = false }, db'))
    else (d, db)
