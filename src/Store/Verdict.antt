-- ===== src/Store/Verdict.antt =====
-- internal/store/store.go: the verdict of ReplaceEvent on the versions that it found, and what each of
-- its calls hides.
use archive_relay.Prelude.{
  ◌<◌, ltb, nat_eq, Before, bytes_lt-Before, bytes_lt-total, arith, ◌≡◌, ◌⊎◌, inl, inr, refl, sym,
  Bool, true, false, Option, none, some, List, [], ◌∷◌, Memᴰ, Bytes, is_nil, if-cases, Bool-cases,
}
use archive_relay.Nostr.{Event}
use archive_relay.Classifier.{Tier, is_drop, Override, tier_for_event}
use archive_relay.Ingest.{Saved, saved}
use archive_relay.Store.{
  Version, Backend, is_older, judge, enqueued, save_event, flush_tiers, retire_ids, after_probe,
  probe_tiers,
}

-- NIP-01: of two versions the later one counts, and of two of one time the one with the lower id.
abbrev pub IsOlder : Version → Event → Type 0
IsOlder p evt =
    (p.created_at < evt.created_at) ⊎ ((p.created_at ≡ evt.created_at) × Before evt.id p.id)

abbrev pub IsAsNew : Version → Event → Type 0
IsAsNew q evt =
    (evt.created_at < q.created_at)
    ⊎ ((q.created_at ≡ evt.created_at) × ((evt.id ≡ q.id) ⊎ Before q.id evt.id))

is_older-IsOlder : (evt : Event) (p : Version) → is_older evt p ≡ true → IsOlder p evt
unfolding is_older
is_older-IsOlder evt p h = elim (Bool-cases (ltb p.created_at evt.created_at)) [
  | inl l ↦ inl (ground (arith, l))
  | inr g ↦ inr (ground (arith, g, h), bytes_lt-Before evt.id p.id (ground (arith, g, h)))
]

is_older-IsAsNew : (evt : Event) (q : Version) → is_older evt q ≡ false → IsAsNew q evt
unfolding is_older
is_older-IsAsNew evt q h = elim (Bool-cases (nat_eq q.created_at evt.created_at)) [
  | inl e ↦ inr (ground (arith, e), bytes_lt-total evt.id q.id (ground (arith, e, h)))
  | inr n ↦ inl (ground (arith, n, h))
]

-- A version with this id is older than the event.
abbrev pub Superseded : Event → Bytes → List Version → Type 0
Superseded evt id prev = (p : Version) × Memᴰ p prev × (p.id ≡ id) × IsOlder p evt

-- A version is as new as the event or newer.
abbrev pub Outdone : Event → List Version → Type 0
Outdone evt prev = (q : Version) × Memᴰ q prev × IsAsNew q evt

pub judge-Superseded :
    (evt : Event) (id : Bytes) (prev : List Version)
    → Memᴰ id (judge evt prev).0
    → Superseded evt id prev
unfolding judge
judge-Superseded evt id [] m = elim m [ ]
judge-Superseded evt id (p ∷ prev) m = elim (Bool-cases (is_older evt p)) [
  | inl old ↦ first old (rw old at m) (judge-Superseded evt id prev)
  | inr new ↦ later (judge-Superseded evt id prev (rw new at m))
]
  where
    later : Superseded evt id prev → Superseded evt id (p ∷ prev)
    later (q, m', e, old) = (q, Memᴰ.tail m', e, old)

    first :
        is_older evt p ≡ true
        → Memᴰ id (p.id ∷ (judge evt prev).0)
        → (Memᴰ id (judge evt prev).0 → Superseded evt id prev)
        → Superseded evt id (p ∷ prev)
    first old (Memᴰ.head e) ih = (p, Memᴰ.head refl, sym e, is_older-IsOlder evt p old)
    first old (Memᴰ.tail m') ih = later (ih m')

pub judge-Outdone :
    (evt : Event) (prev : List Version) → (judge evt prev).1 ≡ false → Outdone evt prev
unfolding judge
judge-Outdone evt [] h = cc
judge-Outdone evt (p ∷ prev) h = elim (Bool-cases (is_older evt p)) [
  | inl old ↦ later (judge-Outdone evt prev (rw old at h))
  | inr new ↦ (p, Memᴰ.head refl, is_older-IsAsNew evt p new)
]
  where
    later : Outdone evt prev → Outdone evt (p ∷ prev)
    later (q, m', new) = (q, Memᴰ.tail m', new)

module _ {S : Type 0} (backend : Backend S) (override : Override) (evt : Event) (id : Bytes) where
  open backend use {flush, probe, retire, admit, Stored, Hidden}

  enqueued-Hidden : (r : Bool × S) → Hidden id (enqueued backend override r).1 → Hidden id r.1
  enqueued-Hidden (true, s) h = h
  enqueued-Hidden (false, s) h = h

  pub save_event-Hidden : (s : S) → Hidden id (save_event backend override evt s).1 → Hidden id s
  unfolding save_event
  save_event-Hidden s =
      if-cases (λ (r : Saved × S). Hidden id r.1 → Hidden id s)
        (is_drop (tier_for_event evt override)) (λ _ h. h)
        (λ _ h.
          backend.enqueue_hidden (tier_for_event evt override) evt id s
            (enqueued-Hidden (backend.enqueue (tier_for_event evt override) evt s) h))

  pub flush_tiers-Hidden :
      (tiers : List Tier) (s : S) → Hidden id (flush_tiers backend override tiers s).1 → Hidden id s
  unfolding flush_tiers
  flush_tiers-Hidden [] s h = h
  flush_tiers-Hidden (t ∷ tiers) s h =
      backend.flush_hidden t id s (flush_tiers-Hidden tiers (flush t s).1 h)

  pub probe_tiers-Hidden :
      (tiers : List Tier) (s : S)
      → Hidden id (probe_tiers backend override evt tiers s).1
      → Hidden id s
  unfolding probe_tiers
  probe_tiers-Hidden [] s h = h
  probe_tiers-Hidden (t ∷ tiers) s h =
      backend.probe_hidden evt t id s (after (probe evt t s) (λ s'. probe_tiers-Hidden tiers s') h)
    where
      after :
          (r : Option (List Version) × S)
          → ((s' : S) → Hidden id (probe_tiers backend override evt tiers s').1 → Hidden id s')
          → Hidden id (after_probe backend override r (probe_tiers backend override evt tiers)).1
          → Hidden id r.1
      after (none, s') ih h' = h'
      after (some rows, s') ih h' = ih s' h'

  pub retire_ids-Hidden :
      (ids : List Bytes) (reason by : Bytes) (s : S)
      → Hidden id (retire_ids backend override ids reason by s).1
      → Memᴰ id ids ⊎ Hidden id s
  unfolding retire_ids
  retire_ids-Hidden ids reason by s =
      if-cases (λ (r : Bool × S). Hidden id r.1 → Memᴰ id ids ⊎ Hidden id s) (is_nil ids)
        (λ _ h. inr h) (λ _ h. backend.retire_hidden ids reason by id s h)

  pub retire_ids-Stored :
      (ids : List Bytes) (reason by : Bytes) (s : S)
      → Stored evt s
      → Stored evt (retire_ids backend override ids reason by s).1
  unfolding retire_ids
  retire_ids-Stored ids reason by s h =
      if-cases (λ (r : Bool × S). Stored evt r.1) (is_nil ids) (λ _. h)
        (λ _. backend.retire_stored ids reason by evt s h)

  pub save_event-Accepted :
      (s : S)
      → (save_event backend override evt s).0 ≡ saved
      → backend.Accepted (tier_for_event evt override) evt (save_event backend override evt s).1
  unfolding save_event
  save_event-Accepted s =
      if-cases
        (λ (r : Saved × S). r.0 ≡ saved → backend.Accepted (tier_for_event evt override) evt r.1)
        (is_drop (tier_for_event evt override)) (λ _ h. cc)
        (λ _ h. accepted (backend.enqueue t evt s) (backend.enqueue_accepts t evt s) h)
    where
      t : Tier
      t = tier_for_event evt override

      accepted :
          (r : Bool × S)
          → (r.0 ≡ true → backend.Accepted (tier_for_event evt override) evt r.1)
          → (enqueued backend override r).0 ≡ saved
          → backend.Accepted (tier_for_event evt override) evt (enqueued backend override r).1
      accepted (true, s') law h = law refl
      accepted (false, s') law h = cc
