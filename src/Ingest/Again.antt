-- ===== src/Ingest/Again.antt =====
-- internal/crawler/ingest.go with internal/crawler/dedup.go: ingesting an event again.
use archive_relay.Prelude.{ℕ, ◌<◌, ◌≡◌, Bool, true, false, List, All, some, arith}
use archive_relay.Nostr.{Event}
use archive_relay.Dedup.{Dedup, check_and_mark}
use archive_relay.Dedup.Hex.{Key, parse_event_id}
use archive_relay.Dedup.Lookback.{Call, run, total_weight, Spares, check_and_mark-wins_once}
use archive_relay.Ingest.{Saved, ingest_marked, ingest_step}
use archive_relay.Ingest.Outcomes.{is_accepted, after_save_lem, ingest_step-store}

module _ {S : Type 0} (cap now : ℕ) (save : Event → S → Saved × S)
    (verify : Event → Bool × Bool) where
  stored_won :
      (ev : Event) (s : S) (d : Dedup)
      → (ingest_step cap now save verify ev s d).stored ≡ true
      → ((check_and_mark cap now ev.id d).0 ≡ true)
        × ((ingest_step cap now save verify ev s d).dedup ≡ (check_and_mark cap now ev.id d).1)
  unfolding ingest_step ingest_marked
  stored_won ev s d h =
      let d' = (check_and_mark cap now ev.id d).1 in
      ground (arith, after_save_lem cap now save verify ev d' (save ev s))

  -- After an ingestion that stored an event whose id is a key, and any calls on the cache that do
  -- not unmark the id and insert fewer than `cap` keys, a second ingestion of an event with that id
  -- returns false and leaves the store as it is.
  pub ingest_step-twice :
      (later : ℕ) (ev again : Event) (k : Key) (s t : S) (d : Dedup) (cs : List Call)
      → parse_event_id ev.id ≡ some k
      → again.id ≡ ev.id
      → (ingest_step cap now save verify ev s d).stored ≡ true
      → total_weight cs < cap
      → All (Spares ev.id) cs
      → let d' = run cap cs (ingest_step cap now save verify ev s d).dedup in
        let r = ingest_step cap later save verify again t d' in (r.store ≡ t) × (r.stored ≡ false)
  unfolding is_accepted
  ingest_step-twice later ev again k s t d cs is_key same_id stored few spared =
      let (won, left) = stored_won ev s d stored in
      let remembered = check_and_mark-wins_once cap ev.id k is_key now later cs d won few spared in
      let r =
        ingest_step-store cap later save verify again t
          (run cap cs (check_and_mark cap now ev.id d).1) in
      rw left (ground (arith, r, remembered, same_id))
