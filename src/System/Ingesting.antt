-- ===== src/System/Ingesting.antt =====
-- internal/crawler/ingest.go with internal/store: what an ingestion and a ReplaceEvent do to the
-- batchers and to the tombstone writer.
use archive_relay.Prelude.{
  ℕ, ◌≡◌, ◌⊎◌, refl, sym, ap, subst, ◌∙◌, Bool, true, false, ◌&&◌, Option, some, List, [], ◌∷◌,
  ◌++◌, Memᴰ, Memᴰ-append_last, Bytes, length, ltb, ◌==◌, if◌then◌else◌, if-cases, Bool-cases, inl,
  inr, arith,
}
use archive_relay.Nostr.{Event}
use archive_relay.Classifier.{Tier, is_drop, same_tier_iff, eq_tier, Override, tier_for_event}
use archive_relay.Dedup.{Dedup}
use archive_relay.Ingest.{Saved, Ingested, ingest_step}
use archive_relay.Ingest.Outcomes.{is_saved, is_accepted, ingest_step-store}
use archive_relay.Batcher
use archive_relay.Batcher.{Batcher, capacity, enqueues}
use archive_relay.Store.{Version, Backend, enqueued, save_event, replace_event}
use archive_relay.Store.Verdict.{Superseded, Outdone}
use archive_relay.Store.Replacing.{probe_of, replace_event-Hidden}
use archive_relay.System.{System, Turn, batcher_of, only, enqueue_tier, flush_tier, retired}
use archive_relay.System.Wired.{Sent, batcher_of-act, flush_tier-Sent, wired}

accepted-enqueues :
    (evt : Event) (b : Batcher)
    → (Batcher.run (enqueues evt ∷ []) b).accepted
      ≡ (if (Batcher.enqueue evt b).0 then b.accepted ++ evt ∷ [] else b.accepted)
unfolding Batcher.run Batcher.step Batcher.enqueue
accepted-enqueues evt b =
    let P : Bool × Batcher → Type 0 =
      λ r. r.1.accepted ≡ (if r.0 then b.accepted ++ evt ∷ [] else b.accepted) in
    if-cases P b.stop_closed (λ _. refl)
      (λ _. if-cases P (ltb (length b.inq) (capacity b.max_size)) (λ _. refl) (λ _. refl))

module _ (max_size : ℕ) where
  abbrev pub accepted_by : Tier → System → List Event
  accepted_by t s = (batcher_of max_size t s).accepted

  abbrev Adds : Event → Bool → Tier → Tier → System → System → Type 0
  Adds evt taken t u s s' =
      accepted_by u s' ≡ (if taken && t == u then accepted_by u s ++ evt ∷ [] else accepted_by u s)

  -- One enqueue adds its event to the batcher of its tier, if it is taken, and to no other.
  accepted-enqueue_tier :
      (t u : Tier) (evt : Event) (s : System)
      → let r = enqueue_tier max_size t evt s in Adds evt r.0 t u s r.1
  unfolding enqueue_tier Batcher.run
  accepted-enqueue_tier t u evt s =
      ap (λ (b : Batcher). b.accepted)
        (batcher_of-act max_size (only max_size t (enqueues evt ∷ [])) u s)
      ∙ elim (Bool-cases (t == u)) [
        | inl e ↦ subst Q ((same_tier_iff t u).0 e) (
            rw ((same_tier_iff t t).1 refl)
              (accepted-enqueues evt (batcher_of max_size t s) ∙ ground arith))
        | inr e ↦ rw e (ground arith)
      ]
    where
      Q : Tier → Type 0
      Q v =
          (Batcher.run (only max_size t (enqueues evt ∷ []) v) (batcher_of max_size v s)).accepted
          ≡ (if (Batcher.enqueue evt (batcher_of max_size t s)).0 && t == v
              then accepted_by v s ++ evt ∷ []
              else accepted_by v s)

  module _ (turn : Tier → System → Turn) (probe : Event → Tier → System → Option (List Version))
      (admits : System → Bool) (override : Override) (cap now : ℕ)
      (verify : Event → Bool × Bool) where
    abbrev pub backend : Backend System
    backend = wired max_size turn probe admits

    accepted-save_event :
        (u : Tier) (evt : Event) (s : System)
        → let r = save_event backend override evt s in
          Adds evt (is_saved r.0) (tier_for_event evt override) u s r.1
    unfolding save_event
    accepted-save_event u evt s =
        let t = tier_for_event evt override in
        if-cases (λ (r : Saved × System). Adds evt (is_saved r.0) t u s r.1) (is_drop t) (λ _. refl)
          (λ _. by_answer (enqueue_tier max_size t evt s) (accepted-enqueue_tier t u evt s))
      where
        by_answer :
            (r : Bool × System)
            → Adds evt r.0 (tier_for_event evt override) u s r.1
            → let r' = enqueued backend override r in
              Adds evt (is_saved r'.0) (tier_for_event evt override) u s r'.1
        by_answer (true, s') h = h
        by_answer (false, s') h = h

    abbrev pub ingested : Event → System → Dedup → Ingested System
    ingested evt s d = ingest_step cap now (save_event backend override) verify evt s d

    pub accepted-ingested :
        (u : Tier) (evt : Event) (s : System) (d : Dedup)
        → let r = ingested evt s d in Adds evt r.stored (tier_for_event evt override) u s r.store
    accepted-ingested u evt s d =
        let save = save_event backend override in
        let out = ingest_step-store cap now save verify evt s d in
        carry (is_accepted cap now save verify evt d) _ _ out.0 out.1
      where
        carry :
            (accepted taken : Bool) (s' : System)
            → s' ≡ (if accepted then (save_event backend override evt s).1 else s)
            → taken ≡ (accepted && is_saved (save_event backend override evt s).0)
            → Adds evt taken (tier_for_event evt override) u s s'
        carry true taken s' p q = rw (p, q) (accepted-save_event u evt s)
        carry false taken s' p q = rw (p, q) refl

    -- If a FlushAll of the event's tier straight after an ingestion is answered with no error, then the
    -- ingestion had added its event to the batcher of that tier exactly if it reported that it was
    -- stored, and had changed what no other batcher has accepted; and if it was stored, that FlushAll
    -- leaves the event in ClickHouse, whatever the other goroutines do meanwhile and whatever inserts
    -- fail.
    pub ingest_step-Sent :
        (u : Tier) (evt : Event) (s : System) (d : Dedup)
        → (flush_tier max_size turn (tier_for_event evt override) (ingested evt s d).store).0 ≡ true
        → let t = tier_for_event evt override in
          let r = ingested evt s d in
          (accepted_by u r.store
            ≡ (if r.stored && t == u then accepted_by u s ++ evt ∷ [] else accepted_by u s))
          × ((r.stored ≡ false) ⊎ Sent max_size evt (flush_tier max_size turn t r.store).1)
    ingest_step-Sent u evt s d ok =
        let t = tier_for_event evt override in
        let r = ingested evt s d in
        (
          accepted-ingested u evt s d,
          elim (Bool-cases r.stored) [
            | inl yes' ↦ inr (
                flush_tier-Sent max_size turn t evt r.store
                  (subst (λ l. Memᴰ evt l)
                    (sym
                      (accepted-ingested t evt s d ∙ (rw (yes', (same_tier_iff t t).1 refl) refl)))
                    (Memᴰ-append_last evt (accepted_by t s)))
                  ok)
            | inr no' ↦ inl no'
          ],
        )

    -- ReplaceEvent hands the tombstone writer only ids of versions that its probe found and that are
    -- older than the event; and by then the event itself is in ClickHouse, sent by a batcher, or the
    -- probe found a version that is not older.
    pub replace_event-retired :
        (evt : Event) (id : Bytes) (s : System)
        → Memᴰ id (retired (replace_event backend override evt s).1.tombstones)
        → Memᴰ id (retired s.tombstones)
          ⊎ ((prev : List Version) × ((probe_of backend override evt id s).0 ≡ some prev)
              × Superseded evt id prev
              × (Sent max_size evt (replace_event backend override evt s).1 ⊎ Outdone evt prev))
    replace_event-retired evt id s m = replace_event-Hidden backend override evt id s m
