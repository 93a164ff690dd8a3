-- ===== src/Durable.antt =====
-- cmd/archive-relay/main.go with internal/crawler/dedup.go: the way of the flushed events from the
-- callback of the batchers into the table seen_events, up to the shutdown. The deferred calls run
-- s.Close, whose final flushes are the last moves here, and then StopWriter. The loop of StartPrune
-- deletes rows meanwhile.
pub mod Recorded
pub mod Sent
mod Tests
use archive_relay.Prelude.{ℕ, ◌*◌, Bool, List, [], ◌∷◌, nat_eq, if◌then◌else◌}
use archive_relay.Nostr.{Event}
use archive_relay.Control.{Db, prune_seen}
use archive_relay.Control.Prune.{prune_seen_by_rowid}
use archive_relay.Dedup.{Dedup, on_flushed}
use archive_relay.Dedup.Writer.{Outcome, start_writer, write_turn, stop_writer}

abbrev pub default_seen_cap : ℕ
default_seen_cap = 20000000

abbrev pub prune_seen_chunk : ℕ
prune_seen_chunk = 50000

abbrev pub prune_max_age : ℕ
prune_max_age = 7 * 24 * 3600

-- StartPrune's cap of the rows; 0 is the default.
abbrev pub cap_or_default : ℕ → ℕ
cap_or_default seen_cap = if nat_eq seen_cap 0 then default_seen_cap else seen_cap

-- A tick of pruneLoop: its time, whether the statements of the age-prune and the count of the cap-prune
-- succeed, and which of the cap-prune's transactions do.
pub record Tick : Type 0 where
  pub now : ℕ
  pub ages : Bool
  pub counts : Bool
  pub tx : ℕ → Bool

unfoldable pub prune_tick : ℕ → Tick → Db → Db
prune_tick seen_cap tick db =
    let db' = (prune_seen tick.ages tick.now prune_max_age db).1 in
    record db' {
      seen_events =
          (prune_seen_by_rowid prune_seen_chunk (cap_or_default seen_cap) tick.tx tick.counts
            db').rows;
    }

-- A batcher calls onFlushed at a time, writeLoop takes a turn, whose write succeeds or not, or the
-- pruner ticks.
pub data Move : Type 0 where
  flushes : ℕ → List Event → Move
  writes_queued : Bool → Move
  prunes : ℕ → Tick → Move

module _ (cap : ℕ) where
  unfoldable pub move : Move → Dedup × Db → Dedup × Db
  move (flushes now evts) (d, db) = (on_flushed cap now evts d, db)
  move (writes_queued done) (d, db) = write_turn done d db
  move (prunes seen_cap tick) (d, db) = (d, prune_tick seen_cap tick db)

  unfoldable pub run_moves : List Move → Dedup × Db → Dedup × Db
  run_moves [] s = s
  run_moves (m ∷ ms) s = run_moves ms (move m s)

  -- From StartWriter to the return of StopWriter.
  unfoldable pub run_main : List Move → (ℕ → Outcome) → Dedup → Db → Dedup × Db
  run_main moves outcomes d db =
      let (d', db') = run_moves moves (start_writer d, db) in stop_writer outcomes d' db'
