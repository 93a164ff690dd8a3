-- ===== src/Batcher.antt =====
-- internal/store/batcher.go: the batcher of one tier as a state machine. The worker goroutine is one
-- step for each case of its select, the producers and FlushAll are steps between them, and any list
-- of actions is an interleaving. The outcome of each ClickHouse insert is given with the step that
-- makes it. `accepted` and the `asked` of a reply are bookkeeping for the theorems: the events that
-- enqueue took, in order, and how many there were when a flush was requested.
pub mod Attempt
pub mod Conserve
pub mod Memory
pub mod Promises
pub mod Flush
pub mod Growth
pub mod Inserted
pub mod Final
pub mod Shutdown
mod Tests
use archive_relay.Prelude.{
  ℕ, zero, suc, ◌+◌, ◌*◌, ◌^◌, ◌-◌, Bool, true, false, ◌&&◌, Option, none, some, List, [], ◌∷◌,
  ◌++◌, map, length, take, drop, ltb, leb, min, max, if◌then◌else◌,
}
use archive_relay.Nostr.{Event}

pub data WorkerState : Type 0 where
  normal retry stopped : WorkerState

-- The reply channel of one FlushAll call.
pub record Reply : Type 0 where
  pub caller : ℕ
  pub asked : ℕ

pub record Answer : Type 0 where
  pub reply : Reply
  pub flushed : Bool  -- a nil error

-- What ClickHouse does with one insert: PrepareBatch, Append of each row, Send.
pub record Conn : Type 0 where
  pub prepares : Bool
  pub appends : Event → Bool
  pub sends : Bool

pub record Batcher : Type 0 where
  pub max_size : ℕ
  pub has_feed : Bool  -- `b.feed != nil`
  pub inq : List Event  -- the channel `in`
  pub stop_closed : Bool
  pub flush_req : List Reply  -- the channel `flushReq`
  pub state : WorkerState
  pub buf : List Event
  pub pending : List Event
  pub replies : List Reply
  pub queued : ℕ
  pub fails : ℕ
  pub retry_in : Option ℕ  -- the delay in seconds that retryC was armed with
  pub sent : List Event  -- the rows of successful inserts
  pub notified : List (List Event)  -- the calls of onFlushed
  pub offered : List Event  -- the calls of feed.offer
  pub answers : List Answer
  pub events_lost : ℕ  -- as logged by the final flush
  pub accepted : List Event

abbrev pub capacity : ℕ → ℕ
capacity max_size = max (max_size * 2) 1024

abbrev pub flush_req_cap : ℕ
flush_req_cap = 16

unfoldable pub new_batcher : ℕ → Bool → Batcher
new_batcher max_size has_feed = record {
  max_size = max_size;
  has_feed = has_feed;
  inq = [];
  stop_closed = false;
  flush_req = [];
  state = normal;
  buf = [];
  pending = [];
  replies = [];
  queued = 0;
  fails = 0;
  retry_in = none;
  sent = [];
  notified = [];
  offered = [];
  answers = [];
  events_lost = 0;
  accepted = [];
}

-- false is ErrBatchFull
unfoldable pub enqueue : Event → Batcher → Bool × Batcher
enqueue evt b =
    if b.stop_closed
    then (false, b)
    else if ltb (length b.inq) (capacity b.max_size)
    then (true, record b { inq = b.inq ++ evt ∷ []; accepted = b.accepted ++ evt ∷ [] })
    else (false, b)

-- The first select of FlushAll that sends; false is an error without a request.
unfoldable pub request_flush : ℕ → Batcher → Bool × Batcher
request_flush caller b =
    if b.stop_closed
    then (false, b)
    else if ltb (length b.flush_req) flush_req_cap
    then (
      true,
      record b {
        flush_req = b.flush_req ++ record { caller = caller; asked = length b.accepted } ∷ [];
      },
    )
    else (false, b)

unfoldable pub append_rows : Conn → List Event → Bool
append_rows conn [] = true
append_rows conn (evt ∷ evts) = conn.appends evt && append_rows conn evts

-- Whether the batch is in ClickHouse.
unfoldable pub flush_context : Conn → List Event → Bool
flush_context conn evts = conn.prepares && (append_rows conn evts && conn.sends)

abbrev answer_with : Bool → Reply → Answer
answer_with flushed r = record { reply = r; flushed = flushed }

unfoldable pub reply_all : Bool → Batcher → Batcher
reply_all flushed b = record b {
  answers = b.answers ++ map (answer_with flushed) b.replies;
  replies = [];
}

abbrev pub is_empty {ℓ} : {A : Type ℓ} → List A → Bool
is_empty [] = true
is_empty (x ∷ xs) = false

unfoldable pub stage : ℕ → Batcher → Batcher
stage n b = record b {
  pending = b.buf ++ take n b.inq;
  buf = [];
  inq = drop n b.inq;
  state = if is_empty (b.buf ++ take n b.inq) then b.state else retry;
}

abbrev pub chunk_size : Batcher → ℕ
chunk_size b = min (length b.pending) b.max_size

-- sendOne on success; the chunk is recorded, then offered to the feed.
unfoldable pub sent_one : Batcher → Batcher
sent_one b =
    let chunk = take (chunk_size b) b.pending in
    record b {
      sent = b.sent ++ chunk;
      notified = b.notified ++ chunk ∷ [];
      offered = if b.has_feed then b.offered ++ chunk else b.offered;
      pending = drop (chunk_size b) b.pending;
    }

abbrev pub sends_chunk : Conn → Batcher → Bool
sends_chunk conn b = flush_context conn (take (chunk_size b) b.pending)

unfoldable pub arm : ℕ → Batcher → Batcher
arm delay b = record b { retry_in = some delay }

-- The end of attempt: go on with the rest of the batch, or return to normal and answer.
unfoldable pub rest_or_normal : Batcher → Batcher
rest_or_normal b =
    if is_empty b.pending
    then reply_all true (record b { state = normal; retry_in = none })
    else arm 0 b

unfoldable pub next_snapshot : Batcher → Batcher
next_snapshot b =
    if is_empty b.pending && ltb 0 b.queued
    then rest_or_normal (record (stage b.queued b) { queued = 0 })
    else rest_or_normal b

unfoldable pub send_failed : Batcher → Batcher
send_failed b =
    let b' = arm (min 30 (2 ^ min b.fails 5)) (record (reply_all false b) { queued = 0 }) in
    record b' { fails = b.fails + 1 }

unfoldable pub attempt : Conn → Batcher → Batcher
attempt conn b =
    if is_empty b.pending
    then next_snapshot b
    else if sends_chunk conn b
    then next_snapshot (record (sent_one b) { fails = 0 })
    else send_failed b

-- case evt := <-input
unfoldable pub receive : Conn → List Event → Batcher → Batcher
receive conn [] b = b
receive conn (evt ∷ rest) b =
    let b' = record b { inq = rest; buf = b.buf ++ evt ∷ [] } in
    if leb b.max_size (length (b.buf ++ evt ∷ []))
    then attempt conn (stage (length rest) b')
    else b'

-- case reply := <-b.flushReq
unfoldable pub serve_flush : Conn → List Reply → Batcher → Batcher
serve_flush conn [] b = b
serve_flush conn (r ∷ rest) b =
    let b' = record b { flush_req = rest; replies = b.replies ++ r ∷ []; queued = length b.inq } in
    if is_empty b.pending
    then attempt conn (record (stage (length b.inq) b') { queued = 0 })
    else attempt conn b'

-- The loop of the final flush. `conns i` is the i-th insert; each round sends a chunk, so there are
-- at most as many as events, and one more that finds nothing.
unfoldable pub final_stage : Batcher → Batcher
final_stage b =
    if is_empty b.pending then record (stage (length b.inq) b) { state = stopped } else b

unfoldable pub final_loop : (ℕ → Conn) → ℕ → ℕ → Batcher → Batcher
final_loop conns zero i b = b
final_loop conns (suc fuel) i b =
    let b' = final_stage b in
    let next = final_loop conns fuel (i + 1) (sent_one b') in
    if is_empty b'.pending
    then reply_all true b'
    else if sends_chunk (conns i) b'
    then next
    else reply_all false
        (record b' { events_lost = length b'.pending + length b'.buf + length b'.inq })

unfoldable pub final_flush : (ℕ → Conn) → Batcher → Batcher
final_flush conns b =
    final_loop conns (length b.pending + length b.buf + length b.inq + 1) 0
      (record b { state = stopped })

-- case <-retryC, which is nil unless it was armed
unfoldable pub retry_fires : Conn → Option ℕ → Batcher → Batcher
retry_fires conn none b = b
retry_fires conn (some delay) b = attempt conn b

pub data Action : Type 0 where
  enqueues : Event → Action
  requests : ℕ → Action
  receives : Conn → Action
  ticks : Conn → Action
  serves : Conn → Action
  retries : Conn → Action
  closes_stop : Action
  stops : (ℕ → Conn) → Action

-- One round of the worker's select; a case that is not ready does nothing. In the states other
-- than normal the channels of the first two are nil.
unfoldable pub work : Action → WorkerState → Batcher → Batcher
work (receives conn) normal b = receive conn b.inq b
work (ticks conn) normal b = attempt conn (stage (length b.inq) b)
work (serves conn) normal b = serve_flush conn b.flush_req b
work (serves conn) retry b = serve_flush conn b.flush_req b
work (retries conn) retry b = retry_fires conn b.retry_in b
work (stops conns) normal b = if b.stop_closed then final_flush conns b else b
work (stops conns) retry b = if b.stop_closed then final_flush conns b else b
work action state b = b

unfoldable pub step : Action → Batcher → Batcher
step (enqueues evt) b = (enqueue evt b).1
step (requests caller) b = (request_flush caller b).1
step closes_stop b = record b { stop_closed = true }
step action b = work action b.state b

unfoldable pub run : List Action → Batcher → Batcher
run [] b = b
run (a ∷ rest) b = run rest (step a b)
