-- ===== src/System/Tests.antt =====
-- The wired store with one note, a worker that serves each flush and a ClickHouse that is up.
use archive_relay.Prelude.{
  ℕ, ◌≡◌, ◌⊎◌, refl, Bool, true, false, ◌&&◌, Option, some, List, [], ◌∷◌, ◌++◌, eq_nat, eq_bytes,
  bytes_eq, contains, insert, length, ◌==◌, if◌then◌else◌,
}
use archive_relay.Nostr.{Event}
use archive_relay.Samples.{note_a}
use archive_relay.Classifier.{
  Tier, archive, eq_tier, tier_for_event, tier_for_kind, classify, classify_with_override,
}
use archive_relay.Batcher
use archive_relay.Batcher.{Conn, serves, capacity}
use archive_relay.Dedup.{new_dedup, check_and_mark}
use archive_relay.Dedup.Hex.{parse_event_id, hex_decode, from_hex_digit, join_byte}
use archive_relay.Ingest.{ingest_step, ingest_marked, after_save}
use archive_relay.Store.{Version, save_event}
use archive_relay.System.{System, Turn, new_system, batcher_of, enqueue_tier, flush_tier}
use archive_relay.System.Wired.{Sent}
use archive_relay.System.Ingesting.{accepted_by, ingested, ingest_step-Sent}

abbrev up : Conn
up = record { prepares = true; appends = λ _. true; sends = true }

abbrev serving : Tier → System → Turn
serving t s = record { moves = λ u. if t == u then serves up ∷ [] else []; heeds = true }

abbrev nothing_found : Event → Tier → System → Option (List Version)
nothing_found evt t s = some []

abbrev always : Event → Bool × Bool
always evt = (true, true)

abbrev pulled : System
pulled =
    (ingested 100 serving nothing_found (λ s. true) [] 4 9 always note_a new_system new_dedup).store

flushed_a : (flush_tier 100 serving (tier_for_event note_a []) pulled).0 ≡ true
unfolding flush_tier batcher_of enqueue_tier new_system ingest_step ingest_marked after_save
    save_event check_and_mark archive_relay.Dedup.check_and_mark_key parse_event_id hex_decode
    from_hex_digit join_byte new_dedup contains tier_for_kind tier_for_event classify_with_override
    classify archive_relay.Prelude.lookup Batcher.run Batcher.step Batcher.work Batcher.enqueue
    Batcher.request_flush Batcher.serve_flush Batcher.attempt Batcher.stage Batcher.next_snapshot
    Batcher.rest_or_normal Batcher.reply_all Batcher.sent_one Batcher.new_batcher
    Batcher.flush_context Batcher.append_rows
flushed_a = refl

ingest_step-Sent_example :
    let r =
      ingested 100 serving nothing_found (λ s. true) [] 4 9 always note_a new_system new_dedup in
    let t = tier_for_event note_a [] in
    (accepted_by 100 archive r.store ≡ (
      if r.stored && t == archive
      then accepted_by 100 archive new_system ++ note_a ∷ []
      else accepted_by 100 archive new_system))
    × ((r.stored ≡ false) ⊎ Sent 100 note_a (flush_tier 100 serving t r.store).1)
ingest_step-Sent_example =
    ingest_step-Sent 100 serving nothing_found (λ s. true) [] 4 9 always archive note_a new_system
      new_dedup flushed_a
