-- ===== src/Ingest.antt =====
-- internal/crawler/ingest.go: one event on its way from an upstream relay into the store. The store
-- is a parameter, as in the source (`eventSaver`), and so is go-nostr's pair of checks on an event;
-- `S` is the state of the store. Logging is left out.
pub mod Outcomes
pub mod Again
mod Tests
use archive_relay.Prelude.{ℕ, Bool, true, false, ◌&&◌, if◌then◌else◌}
use archive_relay.Nostr.{Event}
use archive_relay.Classifier.{is_drop, tier_for_kind}
use archive_relay.Dedup.{Dedup, check_and_mark, unmark, count_bad_id}

-- What SaveEvent returns: nil, store.ErrBatchFull, or another error.
pub data Saved : Type 0 where
  saved batch_full save_failed : Saved

-- The state that one ingestion works on, and its result.
pub record Ingested (S : Type 0) : Type 0 where
  pub store : S
  pub dedup : Dedup
  pub stored : Bool

-- `verifyEvent`: the signature is checked only if the id matches the body.
unfoldable pub verify_event : (Event → Bool) → (Event → Bool) → Event → Bool × Bool
verify_event check_id check_signature ev =
    if check_id ev then (true, check_signature ev) else (false, false)

module _ {S : Type 0} (cap now : ℕ) (save : Event → S → Saved × S)
    (verify : Event → Bool × Bool) where
  unfoldable pub after_save : Event → Dedup → Saved × S → Ingested S
  after_save ev d (saved, s) = record { store = s; dedup = d; stored = true }
  after_save ev d (batch_full, s) = record { store = s; dedup = unmark ev.id d; stored = false }
  after_save ev d (save_failed, s) = record { store = s; dedup = d; stored = false }

  -- ingestStep behind its first test, with the cache that CheckAndMark left
  unfoldable pub ingest_marked : Event → S → Dedup → Ingested S
  ingest_marked ev s d =
      if is_drop (tier_for_kind ev.kind)
      then record { store = s; dedup = unmark ev.id d; stored = false }
      else if (verify ev).0
      then (if (verify ev).1
          then after_save ev d (save ev s)
          else record { store = s; dedup = unmark ev.id d; stored = false })
      else record { store = s; dedup = count_bad_id (unmark ev.id d); stored = false }

  unfoldable pub ingest_step : Event → S → Dedup → Ingested S
  ingest_step ev s d =
      let (won, d') = check_and_mark cap now ev.id d in
      if won then ingest_marked ev s d' else record { store = s; dedup = d'; stored = false }
