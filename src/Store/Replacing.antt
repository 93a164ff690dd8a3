-- ===== src/Store/Replacing.antt =====
-- internal/store/store.go: what ReplaceEvent hides, and what it leaves to be served.
use archive_relay.Prelude.{
  ◌≡◌, ◌⊎◌, inl, inr, refl, Bool, true, false, not, Option, none, some, List, Memᴰ, Bytes, bytes,
  if-cases,
}
use archive_relay.Nostr.{Event}
use archive_relay.Classifier.{active_tiers, Override, tier_for_event, is_replaceable_kind}
use archive_relay.Ingest.{Saved, saved, batch_full, save_failed}
use archive_relay.Reads.{tiers_for_filter}
use archive_relay.Store.{
  Version, Backend, Replaced, judge, save_event, flush_all, retire_ids, own_versions, probe_tiers,
  probe_replaceable, flushed_then, saved_then, judged, probed, admitted, saved_only, replace_event,
}
use archive_relay.Store.Verdict.{
  Superseded, Outdone, judge-Superseded, judge-Outdone, save_event-Hidden, flush_tiers-Hidden,
  probe_tiers-Hidden, retire_ids-Hidden, retire_ids-Stored, save_event-Accepted,
}

module _ {S : Type 0} (backend : Backend S) (override : Override) (evt : Event) (id : Bytes) where
  open backend use {flush, admit, Stored, Hidden}

  abbrev Hides : List Bytes → S → Replaced × S → Type 0
  Hides ids s r = Hidden id r.1 → Hidden id s ⊎ (Memᴰ id ids × Stored evt r.1)

  flushed_then-Hides :
      (ids : List Bytes) (s : S) (r : Bool × S)
      → (r.0 ≡ true → Stored evt r.1)
      → (Hidden id r.1 → Hidden id s)
      → Hides ids s (flushed_then backend override evt ids r)
  flushed_then-Hides ids s (true, s') stored back h =
      found (retire_ids-Hidden backend override evt id ids (bytes "replaced") evt.pubkey s' h)
    where
      found :
          Memᴰ id ids ⊎ Hidden id s'
          → Hidden id s
            ⊎ (Memᴰ id ids
                × Stored evt (retire_ids backend override ids (bytes "replaced") evt.pubkey s').1)
      found (inl m) = inr (
        m,
        retire_ids-Stored backend override evt id ids (bytes "replaced") evt.pubkey s'
            (stored refl),
      )
      found (inr h') = inl (back h')
  flushed_then-Hides ids s (false, s') stored back h = inl (back h)

  saved_then-Hides :
      (ids : List Bytes) (s : S) (r : Saved × S)
      → (r.0 ≡ saved → backend.Accepted (tier_for_event evt override) evt r.1)
      → (Hidden id r.1 → Hidden id s)
      → Hides ids s (saved_then backend override evt ids r)
  saved_then-Hides ids s (saved, s') accepted back h =
      let t = tier_for_event evt override in
      flushed_then-Hides ids s (flush t s') (backend.flush_stores t evt s' (accepted refl))
        (λ h'. back (backend.flush_hidden t id s' h')) h
  saved_then-Hides ids s (batch_full, s') accepted back h = inl (back h)
  saved_then-Hides ids s (save_failed, s') accepted back h = inl (back h)

  -- What is hidden on top of `s`, given the probed versions.
  abbrev Replaces : List Version → S → Replaced × S → Type 0
  Replaces prev s r =
      Hidden id r.1 → Hidden id s ⊎ (Superseded evt id prev × (Stored evt r.1 ⊎ Outdone evt prev))

  judged-Replaces :
      (prev : List Version) (s : S) (verdict : List Bytes × Bool)
      → (Memᴰ id verdict.0 → Superseded evt id prev)
      → (verdict.1 ≡ false → Outdone evt prev)
      → Replaces prev s (judged backend override evt verdict s)
  judged-Replaces prev s (ids, true) older newer h = found (
      saved_then-Hides ids s (save_event backend override evt s)
        (save_event-Accepted backend override evt id s)
        (save_event-Hidden backend override evt id s) h)
    where
      found :
          Hidden id s ⊎ (Memᴰ id ids × Stored evt (judged backend override evt (ids, true) s).1)
          → Hidden id s
            ⊎ (Superseded evt id prev
                × (Stored evt (judged backend override evt (ids, true) s).1 ⊎ Outdone evt prev))
      found (inl h') = inl h'
      found (inr (m, stored)) = inr (older m, inl stored)
  judged-Replaces prev s (ids, false) older newer h =
      found (retire_ids-Hidden backend override evt id ids (bytes "replaced") evt.pubkey s h)
    where
      found :
          Memᴰ id ids ⊎ Hidden id s
          → Hidden id s
            ⊎ (Superseded evt id prev
                × (Stored evt (judged backend override evt (ids, false) s).1 ⊎ Outdone evt prev))
      found (inl m) = inr (older m, inr (newer refl))
      found (inr h') = inl h'

  -- What ReplaceEvent probes, after its flush and its admission.
  abbrev pub probe_of : S → Option (List Version) × S
  probe_of s = probe_replaceable backend override evt (admit (flush_all backend override s).1).1

  abbrev Answers : S → Option (List Version) → Replaced × S → Type 0
  Answers s rows r =
      Hidden id r.1
      → Hidden id s
        ⊎ ((prev : List Version) × (rows ≡ some prev)
            × Superseded evt id prev
            × (Stored evt r.1 ⊎ Outdone evt prev))

  probed-Answers :
      (s : S) (r : Option (List Version) × S)
      → (Hidden id r.1 → Hidden id s)
      → Answers s r.0 (probed backend override evt r)
  probed-Answers s (none, s') back h = inl (back h)
  probed-Answers s (some prev, s') back h = found (
      judged-Replaces prev s' (judge evt prev) (judge-Superseded evt id prev)
        (judge-Outdone evt prev) h)
    where
      r : Replaced × S
      r = judged backend override evt (judge evt prev) s'

      found :
          Hidden id s' ⊎ (Superseded evt id prev × (Stored evt r.1 ⊎ Outdone evt prev))
          → Hidden id s
            ⊎ ((prev' : List Version) × (some prev ≡ some prev')
                × Superseded evt id prev'
                × (Stored evt r.1 ⊎ Outdone evt prev'))
      found (inl h') = inl (back h')
      found (inr (old, served)) = inr (prev, refl, old, served)

  admitted-Answers :
      (s : S) (r : Bool × S)
      → (Hidden id r.1 → Hidden id s)
      → Answers s (probe_replaceable backend override evt r.1).0 (admitted backend override evt r)
  unfolding probe_replaceable
  admitted-Answers s (false, s') back h = inl (back h)
  admitted-Answers s (true, s') back h =
      let tiers = tiers_for_filter (own_versions backend override evt) override in
      probed-Answers s (probe_tiers backend override evt tiers s')
        (λ h'. back (probe_tiers-Hidden backend override evt id tiers s' h')) h

  saved_only-Hidden : (r : Saved × S) → Hidden id (saved_only backend override r).1 → Hidden id r.1
  saved_only-Hidden (saved, s) h = h
  saved_only-Hidden (batch_full, s) h = h
  saved_only-Hidden (save_failed, s) h = h

  -- An id that ReplaceEvent hides is that of a version that its probe found and that is older than
  -- the event. And the author is still served: the event itself is in ClickHouse by then, or the
  -- probe found a version that is not older. On an error, and for a kind that is not replaceable,
  -- nothing is hidden without that either.
  pub replace_event-Hidden :
      (s : S)
      → Hidden id (replace_event backend override evt s).1
      → Hidden id s
        ⊎ ((prev : List Version) × ((probe_of s).0 ≡ some prev)
            × Superseded evt id prev
            × (Stored evt (replace_event backend override evt s).1 ⊎ Outdone evt prev))
  unfolding replace_event flush_all
  replace_event-Hidden s =
      if-cases (Answers s (probe_of s).0) (not (is_replaceable_kind evt.kind))
        (λ _ h. inl (
          save_event-Hidden backend override evt id s
            (saved_only-Hidden (save_event backend override evt s) h)))
        (λ _.
          let flushed = flush_all backend override s in
          admitted-Answers s (admit flushed.1) (λ h.
            flush_tiers-Hidden backend override evt id active_tiers s
              (backend.admit_hidden id flushed.1 h)))
