-- ===== src/Durable/Tests.antt =====
-- The way of one note into seen_events.
use archive_relay.Prelude.{
  ℕ, ◌≤◌, ◌≡◌, ◌⊎◌, refl, sym, subst, Bool, true, false, ◌||◌, List, [], ◌∷◌, Memᴰ, All, length,
  ltb, arith,
}
use archive_relay.Nostr.{Event}
use archive_relay.Samples.{id_a, note_a}
use archive_relay.Classifier.{Tier, archive}
use archive_relay.Control.{empty_db, is_recorded}
use archive_relay.Dedup.{new_dedup, write_queue_cap}
use archive_relay.Dedup.Writer.{Outcome, written, start_writer}
use archive_relay.Batcher
use archive_relay.Batcher.{Conn, Action, enqueues, receives, new_batcher, capacity}
use archive_relay.Durable.{Move, flushes, writes_queued, run_moves, run_main}
use archive_relay.Durable.Recorded.{flushed, run_main-is_recorded}
use archive_relay.Durable.Sent.{Stored, From, batcher_at, run_main-Stored}

abbrev up : Conn
up = record { prepares = true; appends = λ _. true; sends = true }

abbrev one_note : Tier → List Action
one_note t = enqueues note_a ∷ receives up ∷ []

notified_a : (batcher_at 1 one_note archive).notified ≡ (note_a ∷ []) ∷ []
unfolding Batcher.run Batcher.step Batcher.work Batcher.enqueue Batcher.receive Batcher.attempt
    Batcher.stage Batcher.next_snapshot Batcher.rest_or_normal Batcher.reply_all Batcher.sent_one
    Batcher.new_batcher Batcher.flush_context Batcher.append_rows
notified_a = refl

abbrev moves : List Move
moves = flushes 9 (note_a ∷ []) ∷ writes_queued true ∷ []

moves-From : All (From 1 one_note) moves
moves-From = (
  From.told archive
      (subst (λ (l : List (List Event)). Memᴰ (note_a ∷ []) l) (sym notified_a) (Memᴰ.head refl)),
  (From.turn, tt),
)

recorded_a :
    is_recorded id_a (run_moves 4 moves (start_writer new_dedup, empty_db)).1.seen_events ≡ true
unfolding new_dedup is_recorded run_moves archive_relay.Durable.move start_writer
    archive_relay.Dedup.Writer.write_turn archive_relay.Dedup.Writer.take_batch
    archive_relay.Dedup.on_flushed archive_relay.Dedup.offer_refs archive_relay.Dedup.mark_many
    archive_relay.Dedup.mark archive_relay.Dedup.mark_key archive_relay.Dedup.Hex.parse_event_id
    archive_relay.Dedup.Hex.hex_decode archive_relay.Dedup.Hex.join_byte
    archive_relay.Dedup.Hex.from_hex_digit archive_relay.Dedup.insert_locked
    archive_relay.Prelude.insert archive_relay.Prelude.contains archive_relay.Control.insert_all
    archive_relay.Control.insert_or_ignore archive_relay.Control.mark_seen_batch
    archive_relay.Prelude.bytes_eq
recorded_a = refl

run_main-Stored_example : (is_recorded id_a empty_db.seen_events ≡ true) ⊎ Stored 1 one_note id_a
unfolding new_dedup
run_main-Stored_example =
    run_main-Stored 1 one_note 4 moves (λ i. written) id_a new_dedup empty_db false refl moves-From
      recorded_a

run_main-is_recorded_example :
    let r = run_main 4 moves (λ i. written) new_dedup empty_db in
    (r.0.write_q ≡ [])
    × (is_recorded id_a r.1.seen_events
        ≡ (flushed id_a moves || is_recorded id_a empty_db.seen_events))
unfolding new_dedup
run_main-is_recorded_example =
    run_main-is_recorded 4 moves (λ i. written) id_a new_dedup empty_db refl (refl, (refl, tt))
      (λ j. refl) (omega arith)
