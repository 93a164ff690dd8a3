-- ===== src/Dedup/Queue.antt =====
-- internal/crawler/dedup.go: what becomes of the queued batches on shutdown.
use archive_relay.Prelude.{
  ℕ, ◌+◌, ◌%◌, ◌^◌, ◌≡◌, refl, Bool, true, false, List, [], ◌∷◌, length, arith, Bytes, ◌||◌, ◌&&◌,
}
use archive_relay.Control.{Db, SeenRef, mark_seen_batch, is_recorded}
use archive_relay.Control.Tables.{mark_seen_batch_lem}
use archive_relay.Dedup.{Dedup}
use archive_relay.Dedup.Writer.{
  Outcome, expired, written, failed, failed_late, drop_drain_batch, drop_remaining, drain_from,
  drain_queued, stop_writer,
}

-- How many of the batches from the i-th on are written.
pub writes : (ℕ → Outcome) → ℕ → List (List SeenRef) → ℕ
writes o i [] = 0
writes o i (batch ∷ rest) = elim (o i) [
  | expired ↦ 0
  | written ↦ writes o (i + 1) rest + 1
  | failed ↦ writes o (i + 1) rest
  | failed_late ↦ 0
]

unfoldable pub any_recorded : Bytes → List (List SeenRef) → Bool
any_recorded id [] = false
any_recorded id (batch ∷ rest) = is_recorded id batch || any_recorded id rest

drop_remaining_lem :
    (q : List (List SeenRef)) (d : Dedup)
    → ((drop_remaining q d).write_q ≡ [])
      × ((drop_remaining q d).dropped_writes % 2 ^ 64 ≡ (d.dropped_writes + length q) % 2 ^ 64)
unfolding drop_remaining drop_drain_batch
drop_remaining_lem [] d = (refl, omega arith)
drop_remaining_lem (b ∷ q) d =
    let h = drop_remaining_lem q (drop_drain_batch d) in (h.0, omega (arith, h.1))

drain_from_lem :
    (o : ℕ → Outcome) (i : ℕ) (q : List (List SeenRef)) (d : Dedup) (db : Db)
    → let r = drain_from o i q d db in
      (r.0.write_q ≡ [])
      × ((r.0.dropped_writes + writes o i q) % 2 ^ 64 ≡ (d.dropped_writes + length q) % 2 ^ 64)
unfolding drain_from writes drop_drain_batch
drain_from_lem o i [] d db = (refl, omega arith)
drain_from_lem o i (b ∷ q) d db = ground (
  arith,
  drop_remaining_lem q (drop_drain_batch d),
  drain_from_lem o (i + 1) q d (mark_seen_batch true b db).1,
  drain_from_lem o (i + 1) q (drop_drain_batch d) (mark_seen_batch false b db).1,
)

pub is_recorded-mark_seen_batch :
    (done : Bool) (b : List SeenRef) (db : Db) (id : Bytes)
    → is_recorded id (mark_seen_batch done b db).1.seen_events
      ≡ ((done && is_recorded id b) || is_recorded id db.seen_events)
unfolding mark_seen_batch is_recorded
is_recorded-mark_seen_batch false [] db id = refl
is_recorded-mark_seen_batch false (r ∷ rs) db id = refl
is_recorded-mark_seen_batch true [] db id = refl
is_recorded-mark_seen_batch true (r ∷ rs) db id =
    (mark_seen_batch_lem true true (r ∷ rs) db).0 refl id

-- Whatever fails, the drain records no id that is neither queued nor recorded.
drain_from-known :
    (o : ℕ → Outcome) (i : ℕ) (q : List (List SeenRef)) (d : Dedup) (db : Db) (id : Bytes)
    → is_recorded id (drain_from o i q d db).1.seen_events ≡ true
    → (any_recorded id q || is_recorded id db.seen_events) ≡ true
unfolding drain_from any_recorded
drain_from-known o i [] d db id h = h
drain_from-known o i (b ∷ q) d db id h = ground (
  arith,
  h,
  drain_from-known o (i + 1) q d (mark_seen_batch true b db).1 id,
  drain_from-known o (i + 1) q (drop_drain_batch d) (mark_seen_batch false b db).1 id,
  is_recorded-mark_seen_batch true b db id,
  is_recorded-mark_seen_batch false b db id,
)

drain_from-recorded :
    (o : ℕ → Outcome) (i : ℕ) (q : List (List SeenRef)) (d : Dedup) (db : Db) (id : Bytes)
    → ((j : ℕ) → o j ≡ written)
    → is_recorded id (drain_from o i q d db).1.seen_events
      ≡ (any_recorded id q || is_recorded id db.seen_events)
unfolding drain_from any_recorded
drain_from-recorded o i [] d db id h = refl
drain_from-recorded o i (b ∷ q) d db id h = ground (
  arith,
  h i,
  drain_from-recorded o (i + 1) q d (mark_seen_batch true b db).1 id h,
  is_recorded-mark_seen_batch true b db id,
)

-- StopWriter on a running writer empties the queue and stops it, and each batch was either written
-- or counted (modulo 2 ^ 64) as dropped; where no write fails or is late, the recorded ids are
-- those that were recorded or queued.
pub stop_writer_lem :
    (o : ℕ → Outcome) (d : Dedup) (db : Db)
    → d.writer_running ≡ true
    → let r = stop_writer o d db in
      (r.0.write_q ≡ [])
      × (r.0.writer_running ≡ false)
      × ((r.0.dropped_writes + writes o 0 d.write_q) % 2 ^ 64
          ≡ (d.dropped_writes + length d.write_q) % 2 ^ 64)
      × (((j : ℕ) → o j ≡ written)
          → (id : Bytes)
          → is_recorded id r.1.seen_events
            ≡ (any_recorded id d.write_q || is_recorded id db.seen_events))
unfolding stop_writer drain_queued
stop_writer_lem o d db running =
    let drained = drain_from_lem o 0 d.write_q d db in
    (
      ground (arith, drained),
      ground arith,
      ground (arith, drained),
      λ h id. ground (arith, drain_from-recorded o 0 d.write_q d db id h),
    )

pub stop_writer-known :
    (o : ℕ → Outcome) (d : Dedup) (db : Db) (id : Bytes)
    → is_recorded id (stop_writer o d db).1.seen_events ≡ true
    → (any_recorded id d.write_q || is_recorded id db.seen_events) ≡ true
unfolding stop_writer drain_queued
stop_writer-known o d db id h = ground (arith, h, drain_from-known o 0 d.write_q d db id)
