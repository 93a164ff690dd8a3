-- ===== src/Lookup/Tests.antt =====
-- A lookup by khatru just after a note was published, which the batcher of its tier still holds.
use archive_relay.Prelude.{◌≡◌, refl, true, Option, none, some, List, [], ◌∷◌, ◌==◌, if◌then◌else◌}
use archive_relay.Nostr.{Event, Filter}
use archive_relay.Samples.{id_a, note_a}
use archive_relay.Classifier.{Tier, archive, eq_tier}
use archive_relay.Batcher
use archive_relay.Batcher.{Conn, serves}
use archive_relay.Store.{Version, flush_all, flush_tiers}
use archive_relay.System.{System, Turn, new_system, batcher_of, enqueue_tier, flush_tier}
use archive_relay.System.Wired.{Sent, enqueue_tier-Accepted, wired}
use archive_relay.Lookup.{Answers, collected, query_events}
use archive_relay.Lookup.Flushed.{query_events-Sent}

abbrev up : Conn
up = record { prepares = true; appends = λ _. true; sends = true }

abbrev serving : Tier → System → Turn
serving t s = record { moves = λ u. if t == u then serves up ∷ [] else []; heeds = true }

abbrev nothing_found : Event → Tier → System → Option (List Version)
nothing_found evt t s = some []

-- ClickHouse answers with what the batchers have sent.
abbrev answers : Answers System
answers = record {
  tier = λ s t. some (batcher_of 100 t s).sent;
  plain = λ s. some [];
  replaceable = λ s. some [];
}

abbrev by_id : Filter
by_id = record {
  ids = id_a ∷ [];
  authors = [];
  kinds = [];
  tags = [];
  since = none;
  until = none;
  limit = 0;
}

abbrev published : System
published = (enqueue_tier 100 archive note_a new_system).1

taken : (enqueue_tier 100 archive note_a new_system).0 ≡ true
unfolding enqueue_tier batcher_of new_system Batcher.run Batcher.enqueue Batcher.new_batcher
taken = refl

flushed : (flush_all (wired 100 serving nothing_found (λ s. true)) [] published).0 ≡ true
unfolding flush_all flush_tiers flush_tier enqueue_tier batcher_of new_system Batcher.run
    Batcher.step Batcher.work Batcher.enqueue Batcher.request_flush Batcher.serve_flush
    Batcher.attempt Batcher.stage Batcher.next_snapshot Batcher.rest_or_normal Batcher.reply_all
    Batcher.sent_one Batcher.new_batcher Batcher.flush_context Batcher.append_rows
flushed = refl

query_events-Sent_example :
    let r =
      query_events
        (wired 100 serving nothing_found (λ s. true))
        []
        answers
        true
        5
        by_id
        true
        published in
    Sent 100 note_a r.1
    × (r.0 ≡ collected (wired 100 serving nothing_found (λ s. true)) [] answers true 5 by_id r.1)
query_events-Sent_example =
    query_events-Sent 100 serving nothing_found (λ s. true) [] answers true 5 by_id archive note_a
      published refl (enqueue_tier-Accepted 100 archive note_a new_system taken) flushed
