-- ===== src/Fetch/Tests.antt =====
-- fetchOn with one note that is sent twice before the end of the stored events, and with a store that
-- sheds its load.
use archive_relay.Prelude.{
  ℕ, ◌+◌, ◌≡◌, refl, Bool, true, false, ◌&&◌, none, List, [], ◌∷◌, ◌++◌, length, contains,
  if◌then◌else◌,
}
use archive_relay.Nostr.{Event}
use archive_relay.Samples.{note_a}
use archive_relay.Classifier.{Tier, tier_for_kind}
use archive_relay.Dedup.{Dedup, new_dedup, check_and_mark, unmark}
use archive_relay.Dedup.Hex.{parse_event_id, hex_decode, from_hex_digit, join_byte}
use archive_relay.Ingest.{Saved, batch_full, ingest_step, ingest_marked, after_save}
use archive_relay.System.{System, Turn, new_system}
use archive_relay.System.Ingesting.{accepted_by}
use archive_relay.Fetch.{Receive, received, end_of_stored, receive_all, fetch_on}
use archive_relay.Fetch.Taken.{pulled, ends_clean, Among, of_tier, fetched, fetch_on-Among}

abbrev always : Event → Bool × Bool
always ev = (true, true)

abbrev twice : List Receive
twice = received 9 note_a ∷ received 10 note_a ∷ end_of_stored ∷ []

abbrev quiet : Tier → System → Turn
quiet t s = record { moves = λ u. []; heeds = true }

fetch_on-Among_example :
    let r =
      fetched 100 quiet (λ ev t s. none) (λ s. true) [] 4 always true twice new_system new_dedup in
    (r.clean ≡ (true && ends_clean twice))
    × ((es : List Event) × Among es (pulled twice)
        × (r.ingested ≡ length es)
        × (r.skipped + r.ingested ≡ length (pulled twice))
        × ((u : Tier)
            → accepted_by 100 u r.store ≡ accepted_by 100 u new_system ++ of_tier [] u es))
fetch_on-Among_example =
    fetch_on-Among 100 quiet (λ ev t s. none) (λ s. true) [] 4 always true twice new_system
      new_dedup

abbrev shed : Event → ℕ → Saved × ℕ
shed ev n = (batch_full, n)

-- The subscription is clean although the store took nothing.
clean_but_shed :
    let r = fetch_on 4 shed always true twice 0 new_dedup in
    (r.clean ≡ true) × (r.ingested ≡ 0) × (r.skipped ≡ 2)
unfolding fetch_on receive_all ingest_step ingest_marked after_save check_and_mark
    archive_relay.Dedup.check_and_mark_key parse_event_id hex_decode from_hex_digit join_byte
    new_dedup contains tier_for_kind unmark archive_relay.Dedup.unmark_key
    archive_relay.Prelude.delete archive_relay.Dedup.insert_locked archive_relay.Prelude.insert
    archive_relay.Prelude.bytes_eq
clean_but_shed = (refl, refl, refl)
