-- ===== src/Feed.antt =====
-- internal/store/feed.go: the writer of events_feed as a state machine. An offer of a batcher is one
-- step, a case of the goroutine's select another, and any list of actions is an interleaving. The last
-- three fields are bookkeeping for the theorems: the events that the channel took, the number of
-- offers, and the batches of the flushes with whether their insert succeeded.
pub mod Account
mod Tests
use archive_relay.Prelude.{
  ℕ, zero, suc, ◌+◌, Bool, true, false, List, [], ◌∷◌, ◌++◌, length, is_nil, ltb, leb,
  if◌then◌else◌,
}
use archive_relay.Nostr.{Event}

abbrev pub feed_batch_max : ℕ
feed_batch_max = 10000

abbrev pub feed_queue_cap : ℕ
feed_queue_cap = 20000

pub record FeedWriter : Type 0 where
  pub inq : List Event  -- the channel `in`
  pub done : Bool
  pub drops : ℕ
  pub buf : List Event
  pub reported : ℕ  -- the drops that a flush_feed has logged
  pub accepted : List Event
  pub offered : ℕ
  pub batches : List (Bool × List Event)

unfoldable pub new_feed_writer : FeedWriter
new_feed_writer = record {
  inq = [];
  done = false;
  drops = 0;
  buf = [];
  reported = 0;
  accepted = [];
  offered = 0;
  batches = [];
}

unfoldable pub offer : Event → FeedWriter → FeedWriter
offer evt w =
    if ltb (length w.inq) feed_queue_cap
    then record w {
      inq = w.inq ++ evt ∷ [];
      accepted = w.accepted ++ evt ∷ [];
      offered = w.offered + 1;
    }
    else record w { drops = w.drops + 1; offered = w.offered + 1 }

-- `sent` is whether the insert succeeds; its rows are lost for the feed if not.
unfoldable pub flush_feed : Bool → FeedWriter → FeedWriter
flush_feed sent w = if is_nil w.buf then w else record w {
  reported = w.reported + w.drops;
  drops = 0;
  buf = [];
  batches = w.batches ++ (sent, w.buf) ∷ [];
}

unfoldable pub receive_event : Bool → List Event → FeedWriter → FeedWriter
receive_event sent [] w = w
receive_event sent (evt ∷ rest) w =
    let w' = record w { inq = rest; buf = w.buf ++ evt ∷ [] } in
    if leb feed_batch_max (length w'.buf) then flush_feed sent w' else w'

-- The drain at the stop, on as much fuel as the channel holds events.
unfoldable pub drain_feed : (ℕ → Bool) → ℕ → FeedWriter → FeedWriter
drain_feed sends zero w = w
drain_feed sends (suc fuel) w = drain_feed sends fuel (receive_event (sends (suc fuel)) w.inq w)

unfoldable pub stop_feed : (ℕ → Bool) → FeedWriter → FeedWriter
stop_feed sends w = record (flush_feed (sends 0) (drain_feed sends (length w.inq) w)) {
  done = true;
}

pub data FeedAction : Type 0 where
  offers : Event → FeedAction
  receives ticks : Bool → FeedAction
  stops : (ℕ → Bool) → FeedAction

-- The goroutine's part of an action; nothing once it has returned.
unfoldable pub run_feed : FeedAction → FeedWriter → FeedWriter
run_feed (offers evt) w = offer evt w
run_feed (receives sent) w = if w.done then w else receive_event sent w.inq w
run_feed (ticks sent) w = if w.done then w else flush_feed sent w
run_feed (stops sends) w = if w.done then w else stop_feed sends w

unfoldable pub run_all : List FeedAction → FeedWriter → FeedWriter
run_all [] w = w
run_all (a ∷ actions) w = run_all actions (run_feed a w)
