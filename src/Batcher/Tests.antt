-- ===== src/Batcher/Tests.antt =====
-- internal/store/batcher.go with ClickHouse up, down, and up again.
use archive_relay.Prelude.{
  ℕ, ◌≤◌, ◌≡◌, refl, sym, subst, ◌+◌, true, false, List, [], ◌∷◌, ◌++◌, take, length, All, Memᴰ,
  arith,
}
use archive_relay.Nostr.{Event}
use archive_relay.Samples.{note_a, note_b, profile_a}
use archive_relay.Batcher.{
  retry, stopped, Conn, Answer, new_batcher, enqueue, request_flush, append_rows, flush_context,
  reply_all, is_empty, stage, sent_one, arm, rest_or_normal, next_snapshot, send_failed, attempt,
  receive, serve_flush, final_stage, final_loop, final_flush, retry_fires, Action, enqueues,
  requests, ticks, serves, retries, closes_stop, stops, work, step, run, capacity,
}
use archive_relay.Batcher.Conserve.{run-conserved}
use archive_relay.Batcher.Memory.{concat, offers, run-handed_on}
use archive_relay.Batcher.Flush.{run-flushed}
use archive_relay.Batcher.Shutdown.{run-stopped, step_stops-all}

abbrev up : Conn
up = record { prepares = true; appends = λ _. true; sends = true }

abbrev down : Conn
down = record { prepares = true; appends = λ _. true; sends = false }

-- Two events are taken in one batch, whose insert fails and is tried again; a flush that is
-- requested meanwhile is answered.
abbrev outage : List Action
outage =
    enqueues note_a
    ∷ enqueues note_b
    ∷ ticks down
    ∷ enqueues profile_a
    ∷ requests 7
    ∷ retries up
    ∷ serves up
    ∷ retries up
    ∷ []

abbrev shutdown : List Action
shutdown = enqueues note_a ∷ closes_stop ∷ stops (λ i. down) ∷ []

abbrev answer_7 : Answer
answer_7 = record { reply = record { caller = 7; asked = 3 }; flushed = true }

outage_answers : (run outage (new_batcher 1 true)).answers ≡ answer_7 ∷ []
unfolding run step work enqueue request_flush attempt next_snapshot rest_or_normal stage sent_one
    send_failed arm reply_all receive serve_flush retry_fires append_rows flush_context new_batcher
outage_answers = refl

answer_7-Mem : Memᴰ answer_7 (run outage (new_batcher 1 true)).answers
answer_7-Mem = subst (Memᴰ answer_7) (sym outage_answers) (Memᴰ.head refl)

run-conserved_example :
    let b = run outage (new_batcher 1 true) in
    b.accepted ≡ b.sent ++ (b.pending ++ (b.buf ++ b.inq))
run-conserved_example = run-conserved 1 true outage

run-flushed_example :
    let b = run outage (new_batcher 1 true) in
    (3 ≤ length b.sent) × (take 3 b.accepted ≡ take 3 b.sent)
run-flushed_example = run-flushed 1 true outage answer_7 answer_7-Mem refl

run-handed_on_example :
    let b = run outage (new_batcher 1 true) in
    (concat b.notified ≡ b.sent)
    × (b.offered ≡ offers b.has_feed b.sent)
    × All (λ chunk. length chunk ≤ 1) b.notified
    × (length b.inq ≤ capacity 1)
run-handed_on_example = run-handed_on 1 true outage

shutdown_stops : (run shutdown (new_batcher 1 true)).state ≡ stopped
unfolding run step work enqueue stage sent_one reply_all append_rows flush_context new_batcher
    final_flush final_loop final_stage
shutdown_stops = refl

run-stopped_example :
    let b = run shutdown (new_batcher 1 true) in
    (length b.accepted ≡ length b.sent + b.events_lost) × (b.replies ≡ [])
run-stopped_example = run-stopped 1 true shutdown (omega arith) shutdown_stops

abbrev closing : List Action
closing = enqueues note_a ∷ enqueues note_b ∷ ticks down ∷ enqueues profile_a ∷ closes_stop ∷ []

closing_goes : (run closing (new_batcher 1 true)).state ≡ retry
unfolding run step work enqueue attempt stage sent_one send_failed arm reply_all append_rows
    flush_context new_batcher
closing_goes = refl

closing_closed : (run closing (new_batcher 1 true)).stop_closed ≡ true
unfolding run step work enqueue attempt stage sent_one send_failed arm reply_all append_rows
    flush_context new_batcher
closing_closed = refl

all_appended : (evts : List Event) → append_rows up evts ≡ true
unfolding append_rows
all_appended [] = refl
all_appended (evt ∷ rest) = all_appended rest

up_stores : (i : ℕ) (evts : List Event) → flush_context up evts ≡ true
unfolding flush_context
up_stores i evts = rw (all_appended evts) refl

step_stops-all_example :
    let b = run closing (new_batcher 1 true) in
    let b' = step (stops (λ i. up)) b in
    (b'.state ≡ stopped) × (b'.sent ≡ b'.accepted) × (b'.accepted ≡ b.accepted)
step_stops-all_example =
    step_stops-all 1 true closing (λ i. up) (omega arith) up_stores (λ h. cc closing_goes)
      closing_closed

closing_pending : is_empty (run closing (new_batcher 1 true)).pending ≡ false
unfolding run step work enqueue attempt stage sent_one send_failed arm reply_all append_rows
    flush_context new_batcher
closing_pending = refl
