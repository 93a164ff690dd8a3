-- ===== src/Ingest/Outcomes.antt =====
-- internal/crawler/ingest.go: what one ingestion does to the store, to the cache and to its result,
-- on every path.
use archive_relay.Prelude.{ℕ, ◌≡◌, refl, Bool, true, false, not, ◌&&◌, ◌||◌, arith, if◌then◌else◌}
use archive_relay.Nostr.{Event}
use archive_relay.Classifier.{is_drop, tier_for_kind}
use archive_relay.Dedup.{Dedup, seen, check_and_mark, unmark}
use archive_relay.Dedup.Hex.{parse_event_id}
use archive_relay.Dedup.Cache.{
  is_some, check_and_mark_lem, seen-unmark_self, seen-count_bad_id, seen-is_some,
}
use archive_relay.Ingest.{
  Saved, saved, batch_full, save_failed, after_save, ingest_marked, ingest_step,
}

abbrev pub is_saved : Saved → Bool
is_saved saved = true
is_saved _ = false

abbrev pub is_batch_full : Saved → Bool
is_batch_full batch_full = true
is_batch_full _ = false

module _ {S : Type 0} (cap now : ℕ) (save : Event → S → Saved × S)
    (verify : Event → Bool × Bool) where
  pub after_save_lem :
      (ev : Event) (d : Dedup) (r : Saved × S)
      → let a = after_save cap now save verify ev d r in
        (a.store ≡ r.1)
        × (a.stored ≡ is_saved r.0)
        × (a.dedup ≡ (if is_batch_full r.0 then unmark ev.id d else d))
  unfolding after_save
  after_save_lem ev d (saved, s) = (refl, refl, refl)
  after_save_lem ev d (batch_full, s) = (refl, refl, refl)
  after_save_lem ev d (save_failed, s) = (refl, refl, refl)

  -- The event is new to the cache, in scope, its id matches and its signature is valid.
  unfoldable pub is_accepted : Event → Dedup → Bool
  is_accepted ev d =
      not (seen ev.id d)
      && (not (is_drop (tier_for_kind ev.kind)) && ((verify ev).0 && (verify ev).1))

  -- The store is handed the event exactly if it is accepted, and otherwise is left alone; the
  -- result is true exactly if the store then took it.
  pub ingest_step-store :
      (ev : Event) (s : S) (d : Dedup)
      → let r = ingest_step cap now save verify ev s d in
        (r.store ≡ (if is_accepted ev d then (save ev s).1 else s))
        × (r.stored ≡ (is_accepted ev d && is_saved (save ev s).0))
  unfolding ingest_step ingest_marked is_accepted
  ingest_step-store ev s d =
      let (won, _) = check_and_mark_lem cap now ev.id d in
      let d' = (check_and_mark cap now ev.id d).1 in
      let (st, out, _) = after_save_lem ev d' (save ev s) in
      (ground (arith, won, st), ground (arith, won, out))

  -- An event that was new stays in the cache only if it was stored or the store failed otherwise
  -- than by a full batch: after each other refusal its id is unseen again.
  pub ingest_step-seen :
      (ev : Event) (s : S) (d : Dedup)
      → let r = ingest_step cap now save verify ev s d in
        seen ev.id r.dedup ≡ (
          seen ev.id d
          || (is_some (parse_event_id ev.id)
              && (is_accepted ev d && not (is_batch_full (save ev s).0))))
  unfolding ingest_step ingest_marked is_accepted
  ingest_step-seen ev s d =
      let d' = (check_and_mark cap now ev.id d).1 in
      ground (
        arith,
        check_and_mark_lem cap now ev.id d,
        after_save_lem ev d' (save ev s),
        seen-unmark_self ev.id d',
        seen-count_bad_id ev.id (unmark ev.id d'),
        seen-is_some ev.id d,
      )
