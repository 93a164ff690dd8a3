-- ===== src/Ingest/Tests.antt =====
-- internal/crawler/ingest.go with a store that counts what it is handed.
use archive_relay.Prelude.{
  [], ◌∷◌, arith, ℕ, ◌+◌, ◌≡◌, refl, Bool, true, false, not, ◌&&◌, ◌||◌, contains, if◌then◌else◌,
  leb,
}
use archive_relay.Nostr.{Event}
use archive_relay.Samples.{id_a, id_b, note_a}
use archive_relay.Classifier.{tier_for_kind}
use archive_relay.Dedup.{Dedup, new_dedup, seen, check_and_mark, insert_locked}
use archive_relay.Dedup.Hex.{parse_event_id, hex_decode, from_hex_digit, join_byte}
use archive_relay.Dedup.Cache.{is_some}
use archive_relay.Dedup.Lookback.{checks, run}
use archive_relay.Dedup.Tests.{key_a, parse_event_id_a}
use archive_relay.Ingest.Again.{ingest_step-twice}
use archive_relay.Ingest.{
  Saved, saved, batch_full, Ingested, ingest_step, ingest_marked, after_save,
}
use archive_relay.Ingest.Outcomes.{
  is_saved, is_batch_full, is_accepted, ingest_step-store, ingest_step-seen,
}

-- A store that takes one event and then sheds load.
abbrev save_one : Event → ℕ → Saved × ℕ
save_one ev n = if leb n 0 then (saved, n + 1) else (batch_full, n)

abbrev always : Event → Bool × Bool
always ev = (true, true)

abbrev first_pull : Ingested ℕ
first_pull = ingest_step 4 9 save_one always note_a 0 new_dedup

stored_a : first_pull.stored ≡ true
unfolding ingest_step ingest_marked after_save check_and_mark archive_relay.Dedup.check_and_mark_key
    parse_event_id hex_decode from_hex_digit join_byte new_dedup contains tier_for_kind
stored_a = refl

ingest_step-store_example :
    let r = ingest_step 4 9 save_one always note_a 0 new_dedup in
    (r.store
      ≡ (if is_accepted 4 9 save_one always note_a new_dedup then (save_one note_a 0).1 else 0))
    × (r.stored
        ≡ (is_accepted 4 9 save_one always note_a new_dedup && is_saved (save_one note_a 0).0))
ingest_step-store_example = ingest_step-store 4 9 save_one always note_a 0 new_dedup

ingest_step-seen_example :
    let r = ingest_step 4 9 save_one always note_a 1 new_dedup in
    seen id_a r.dedup ≡ (
      seen id_a new_dedup
      || (is_some (parse_event_id id_a)
          && (is_accepted 4 9 save_one always note_a new_dedup
              && not (is_batch_full (save_one note_a 1).0))))
ingest_step-seen_example = ingest_step-seen 4 9 save_one always note_a 1 new_dedup

-- The second pull is of the same note, after another event was ingested; the store would take it.

ingest_step-twice_example :
    let d' = run 4 (checks 10 id_b ∷ []) first_pull.dedup in
    let r = ingest_step 4 11 save_one always note_a 0 d' in (r.store ≡ 0) × (r.stored ≡ false)
ingest_step-twice_example =
    ingest_step-twice 4 9 save_one always 11 note_a note_a key_a 0 0 new_dedup (checks 10 id_b ∷ [])
      parse_event_id_a refl stored_a (omega arith) (tt, tt)
