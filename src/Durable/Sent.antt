-- ===== src/Durable/Sent.antt =====
-- cmd/archive-relay/main.go with internal/store/batcher.go: an id in seen_events stands for an event in
-- ClickHouse.
use archive_relay.Prelude.{
  ℕ, ◌≡◌, ◌⊎◌, refl, subst, Bool, true, false, ◌||◌, List, [], ◌∷◌, All, Memᴰ, Memᴰ-append_left,
  Memᴰ-append_right, Bytes, bytes_eq_iff, ◌==◌, eq_bytes, Bool-cases, if◌then◌else◌, inl, inr,
  arith,
}
use archive_relay.Nostr.{Event}
use archive_relay.Classifier.{Tier}
use archive_relay.Control.{Db, is_recorded}
use archive_relay.Dedup.{Dedup}
use archive_relay.Dedup.Writer.{Outcome, start_writer}
use archive_relay.Batcher
use archive_relay.Batcher.{Batcher, new_batcher}
use archive_relay.Batcher.Memory.{concat, run-handed_on}
use archive_relay.Durable.{Move, flushes, writes_queued, prunes, Tick, run_moves, run_main}
use archive_relay.Durable.Recorded.{has_id, flushed, run_main_lem}

module _ (max_size : ℕ) (acts : Tier → List Batcher.Action) where
  abbrev pub batcher_at : Tier → Batcher
  batcher_at t = Batcher.run (acts t) (new_batcher max_size true)

  -- A call of onFlushed is one of a tier's batcher.
  pub data From : Move → Type 0 where
    told :
        {now : ℕ} {evts : List Event} (t : Tier)
        → Memᴰ evts (batcher_at t).notified
        → From (flushes now evts)
    turn : {done : Bool} → From (writes_queued done)
    tick : {seen_cap : ℕ} {t : Tick} → From (prunes seen_cap t)

  -- A batcher has inserted an event with the id.
  abbrev pub Stored : Bytes → Type 0
  Stored id = (t : Tier) × ((ev : Event) × Memᴰ ev (batcher_at t).sent × (ev.id ≡ id))

  has_id-Memᴰ :
      (id : Bytes) (evts : List Event)
      → has_id id evts ≡ true
      → (ev : Event) × Memᴰ ev evts × (ev.id ≡ id)
  has_id-Memᴰ id [] h = absurd (ground (arith, h))
  has_id-Memᴰ id (ev ∷ evts) h = elim (Bool-cases (ev.id == id)) [
    | inl e ↦ (ev, Memᴰ.head refl, (bytes_eq_iff ev.id id).0 e)
    | inr n ↦ let (ev', m, e) = has_id-Memᴰ id evts (ground (arith, h, n)) in (ev', Memᴰ.tail m, e)
  ]

  Memᴰ-concat :
      (ev : Event) (c : List Event) (cs : List (List Event))
      → Memᴰ ev c
      → Memᴰ c cs
      → Memᴰ ev (concat cs)
  Memᴰ-concat ev c [] m n = elim n [ ]
  Memᴰ-concat ev c (x ∷ cs) m (Memᴰ.head e) =
      Memᴰ-append_left x (concat cs) (subst (λ (l : List Event). Memᴰ ev l) e m)
  Memᴰ-concat ev c (x ∷ cs) m (Memᴰ.tail n) =
      Memᴰ-append_right x (concat cs) (Memᴰ-concat ev c cs m n)

  flushed-Stored : (id : Bytes) (ms : List Move) → All From ms → flushed id ms ≡ true → Stored id
  flushed-Stored id [] a h = absurd (ground (arith, h))
  flushed-Stored id (flushes now evts ∷ ms) (told t n, a) h = elim (Bool-cases (has_id id evts)) [
    | inl e ↦
        let (ev, m, p) = has_id-Memᴰ id evts e in
        let at = (run-handed_on max_size true (acts t)).0 in
        (t, (ev, subst (λ (l : List Event). Memᴰ ev l) at (Memᴰ-concat ev evts _ m n), p))
    | inr e ↦ flushed-Stored id ms a (ground (arith, h, e))
  ]
  flushed-Stored id (writes_queued done ∷ ms) (turn, a) h = flushed-Stored id ms a h
  flushed-Stored id (prunes seen_cap t ∷ ms) (tick, a) h = flushed-Stored id ms a h

  due-Stored :
      (id : Bytes) (ms : List Move) (db : Db) (recorded : Bool)
      → All From ms
      → (recorded ≡ true → (flushed id ms || is_recorded id db.seen_events) ≡ true)
      → recorded ≡ true
      → (is_recorded id db.seen_events ≡ true) ⊎ Stored id
  due-Stored id ms db recorded a sound h = elim (Bool-cases (is_recorded id db.seen_events)) [
    | inl e ↦ inl e
    | inr n ↦ inr (flushed-Stored id ms a (ground (arith, sound h, n)))
  ]

  -- From an empty queue, with calls of onFlushed by the tiers' batchers only, in whatever order they
  -- and the writer's turns and the pruner's ticks come and whatever writes fail or are late: an id that the table holds, at
  -- any time before the shutdown or after it, was there at the start or is that of an event that a
  -- batcher has inserted into ClickHouse.
  pub run_main-Stored :
      (cap : ℕ) (ms : List Move) (o : ℕ → Outcome) (id : Bytes) (d : Dedup) (db : Db) (over : Bool)
      → d.write_q ≡ []
      → All From ms
      → let before = run_moves cap ms (start_writer d, db) in
        let after = run_main cap ms o d db in
        is_recorded id (if over then after else before).1.seen_events ≡ true
        → (is_recorded id db.seen_events ≡ true) ⊎ Stored id
  run_main-Stored cap ms o id d db false empty a h =
      due-Stored id ms db _ a (run_main_lem cap ms o id d db empty).0 h
  run_main-Stored cap ms o id d db true empty a h =
      due-Stored id ms db _ a (run_main_lem cap ms o id d db empty).1 h
