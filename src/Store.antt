-- ===== src/Store.antt =====
-- The writes of internal/store/store.go, over what the batchers, the tombstone writer and ClickHouse
-- do for them (`Backend`).
pub mod Verdict
pub mod Replacing
pub mod Lifecycle
pub mod Memory
mod Tests
use archive_relay.Prelude.{
  ℕ, ◌≡◌, ◌⊎◌, Bool, true, false, not, ◌&&◌, ◌||◌, Option, none, some, List, [], ◌∷◌, ◌++◌, Memᴰ,
  Bytes, bytes, bytes_lt, nat_eq, ltb, is_nil, if◌then◌else◌,
}
use archive_relay.Nostr.{Filter, Event}
use archive_relay.Classifier.{
  Tier, is_drop, active_tiers, Override, tier_for_event, is_replaceable_kind,
}
use archive_relay.Ingest.{Saved, saved, batch_full, save_failed}
use archive_relay.Reads.{tiers_for_filter}

-- replaceableRow
pub record Version : Type 0 where
  pub id : Bytes
  pub created_at : ℕ

-- What the store calls, on a state `S`: a batcher's enqueue and FlushAll, the slim probe of a tier,
-- retire, and the admission of a read. `false` or `none` is an error. `Accepted`, `Stored` and
-- `Hidden` are what can be said of a state: an event is in a tier's batcher or beyond it, in
-- ClickHouse, an id was handed to the tombstone writer.
pub record Backend (S : Type 0) : Type 1 where
  pub enqueue : Tier → Event → S → Bool × S
  pub flush : Tier → S → Bool × S
  pub probe : Event → Tier → S → Option (List Version) × S
  pub retire : List Bytes → Bytes → Bytes → S → Bool × S
  pub admit : S → Bool × S
  pub Accepted : Tier → Event → S → Type 0
  pub Stored : Event → S → Type 0
  pub Hidden : Bytes → S → Type 0
  pub enqueue_accepts :
      (t : Tier) (evt : Event) (s : S)
      → (enqueue t evt s).0 ≡ true
      → Accepted t evt (enqueue t evt s).1
  pub flush_stores :
      (t : Tier) (evt : Event) (s : S)
      → Accepted t evt s
      → (flush t s).0 ≡ true
      → Stored evt (flush t s).1
  pub retire_stored :
      (ids : List Bytes) (reason by : Bytes) (evt : Event) (s : S)
      → Stored evt s
      → Stored evt (retire ids reason by s).1
  pub enqueue_hidden :
      (t : Tier) (evt : Event) (id : Bytes) (s : S) → Hidden id (enqueue t evt s).1 → Hidden id s
  pub flush_hidden : (t : Tier) (id : Bytes) (s : S) → Hidden id (flush t s).1 → Hidden id s
  pub probe_hidden :
      (evt : Event) (t : Tier) (id : Bytes) (s : S) → Hidden id (probe evt t s).1 → Hidden id s
  pub admit_hidden : (id : Bytes) (s : S) → Hidden id (admit s).1 → Hidden id s
  pub retire_hidden :
      (ids : List Bytes) (reason by id : Bytes) (s : S)
      → Hidden id (retire ids reason by s).1
      → Memᴰ id ids ⊎ Hidden id s

-- An error of ReplaceEvent, or `replaced` for nil.
pub data Replaced : Type 0 where
  replaced : Replaced
  not_saved : Saved → Replaced
  read_busy probe_failed flush_failed : Replaced

-- NIP-01: an earlier version, or one of the same time with a higher id.
unfoldable pub is_older : Event → Version → Bool
is_older evt p =
    ltb p.created_at evt.created_at || (nat_eq p.created_at evt.created_at && bytes_lt evt.id p.id)

-- The ids to retire, and shouldStore.
unfoldable pub judge : Event → List Version → List Bytes × Bool
judge evt [] = ([], true)
judge evt (p ∷ prev) =
    let (ids, should_store) = judge evt prev in
    if is_older evt p then (p.id ∷ ids, should_store) else (ids, false)

module _ {S : Type 0} (backend : Backend S) (override : Override) where
  open backend use {enqueue, flush, probe, retire, admit}

  abbrev pub enqueued : Bool × S → Saved × S
  enqueued (true, s) = (saved, s)
  enqueued (false, s) = (batch_full, s)

  unfoldable pub save_event : Event → S → Saved × S
  save_event evt s =
      let t = tier_for_event evt override in
      if is_drop t then (save_failed, s) else enqueued (enqueue t evt s)

  unfoldable pub flush_tiers : List Tier → S → Bool × S
  flush_tiers [] s = (true, s)
  flush_tiers (t ∷ tiers) s =
      let (ok, s') = flush t s in let (rest, s'') = flush_tiers tiers s' in (ok && rest, s'')

  -- Whether FlushAll returns nil; the tiers come in the order of a list, where Go's is that of a map.
  unfoldable pub flush_all : S → Bool × S
  flush_all s = flush_tiers active_tiers s

  unfoldable pub retire_ids : List Bytes → Bytes → Bytes → S → Bool × S
  retire_ids ids reason by s = if is_nil ids then (true, s) else retire ids reason by s

  unfoldable pub delete_event : Event → S → Bool × S
  delete_event evt s = retire_ids (evt.id ∷ []) (bytes "nip09") evt.pubkey s

  abbrev pub own_versions : Event → Filter
  own_versions evt = record {
    ids = [];
    authors = evt.pubkey ∷ [];
    kinds = evt.kind ∷ [];
    tags = [];
    since = none;
    until = none;
    limit = 0;
  }

  -- `before` are the rows of the tiers already probed.
  abbrev pub with_rows : List Version → Option (List Version) → Option (List Version)
  with_rows before none = none
  with_rows before (some rows) = some (before ++ rows)

  abbrev pub after_probe :
      Option (List Version) × S → (S → Option (List Version) × S) → Option (List Version) × S
  after_probe (none, s) others = (none, s)
  after_probe (some rows, s) others = (with_rows rows (others s).0, (others s).1)

  unfoldable pub probe_tiers : Event → List Tier → S → Option (List Version) × S
  probe_tiers evt [] s = (some [], s)
  probe_tiers evt (t ∷ tiers) s = after_probe (probe evt t s) (probe_tiers evt tiers)

  unfoldable pub probe_replaceable : Event → S → Option (List Version) × S
  probe_replaceable evt s = probe_tiers evt (tiers_for_filter (own_versions evt) override) s

  -- An error of the retirement is only logged.
  abbrev pub retire_then : Event → List Bytes → S → Replaced × S
  retire_then evt ids s = (replaced, (retire_ids ids (bytes "replaced") evt.pubkey s).1)

  abbrev pub flushed_then : Event → List Bytes → Bool × S → Replaced × S
  flushed_then evt ids (true, s) = retire_then evt ids s
  flushed_then evt ids (false, s) = (flush_failed, s)

  abbrev pub saved_then : Event → List Bytes → Saved × S → Replaced × S
  saved_then evt ids (saved, s) = flushed_then evt ids (flush (tier_for_event evt override) s)
  saved_then evt ids (batch_full, s) = (not_saved batch_full, s)
  saved_then evt ids (save_failed, s) = (not_saved save_failed, s)

  abbrev pub judged : Event → List Bytes × Bool → S → Replaced × S
  judged evt (ids, true) s = saved_then evt ids (save_event evt s)
  judged evt (ids, false) s = retire_then evt ids s

  abbrev pub probed : Event → Option (List Version) × S → Replaced × S
  probed evt (none, s) = (probe_failed, s)
  probed evt (some prev, s) = judged evt (judge evt prev) s

  abbrev pub admitted : Event → Bool × S → Replaced × S
  admitted evt (false, s) = (read_busy, s)
  admitted evt (true, s) = probed evt (probe_replaceable evt s)

  abbrev pub saved_only : Saved × S → Replaced × S
  saved_only (saved, s) = (replaced, s)
  saved_only (batch_full, s) = (not_saved batch_full, s)
  saved_only (save_failed, s) = (not_saved save_failed, s)

  unfoldable pub replace_event : Event → S → Replaced × S
  replace_event evt s =
      if not (is_replaceable_kind evt.kind)
      then saved_only (save_event evt s)
      else admitted evt (admit (flush_all s).1)
