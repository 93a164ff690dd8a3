-- ===== src/Dedup/Bounds.antt =====
-- internal/crawler/dedup.go: the sizes of the cache and of the queue of durable batches.
use archive_relay.Prelude.{
  ℕ, ◌+◌, ◌*◌, ◌≤◌, Option, none, some, List, [], ◌∷◌, Bytes, length, length-append, length-insert,
  length-delete, eq_bytes, arith, map,
}
use archive_relay.Nostr.{Event}
use archive_relay.Dedup.{
  Dedup, write_queue_cap, new_dedup, insert_locked, mark_key, mark, check_and_mark_key,
  check_and_mark, mark_many, unmark_key, unmark, ref_of, warm_key, warm, count_bad_id, offer_refs,
  on_flushed,
}
use archive_relay.Dedup.Hex.{Key, parse_event_id}
use archive_relay.Dedup.Lookback.{Call, marks, checks, flushes, unmarks, counts_bad_id, step, run}

-- Warm fills the current generation up to the cap, so the insertion that rotates it may exceed it.
pub record IsBounded (cap : ℕ) (d : Dedup) : Type 0 where
  pub current : length d.cur ≤ cap
  pub previous : length d.prev ≤ cap + 1
  pub queued : length d.write_q ≤ write_queue_cap

module _ (cap : ℕ) where
  insert_locked-IsBounded :
      (now : ℕ) (k : Key) (d : Dedup) → IsBounded cap d → IsBounded cap (insert_locked cap now k d)
  unfolding insert_locked
  insert_locked-IsBounded now k d v = ground (arith, length-insert k d.cur)

  mark_key-IsBounded :
      (now : ℕ) (o : Option Key) (d : Dedup)
      → IsBounded cap d
      → IsBounded cap (mark_key cap now o d)
  unfolding mark_key
  mark_key-IsBounded now none d v = v
  mark_key-IsBounded now (some k) d v = insert_locked-IsBounded now k d v

  check_and_mark_key-IsBounded :
      (now : ℕ) (o : Option Key) (d : Dedup)
      → IsBounded cap d
      → IsBounded cap (check_and_mark_key cap now o d).1
  unfolding check_and_mark_key
  check_and_mark_key-IsBounded now none d v = v
  check_and_mark_key-IsBounded now (some k) d v = ground (arith, insert_locked-IsBounded now k d v)

  mark_many-IsBounded :
      (now : ℕ) (ids : List Bytes) (d : Dedup)
      → IsBounded cap d
      → IsBounded cap (mark_many cap now ids d)
  unfolding mark_many mark
  mark_many-IsBounded now [] d v = v
  mark_many-IsBounded now (id ∷ ids) d v =
      mark_many-IsBounded now ids _ (mark_key-IsBounded now (parse_event_id id) d v)

  on_flushed-IsBounded :
      (now : ℕ) (evs : List Event) (d : Dedup)
      → IsBounded cap d
      → IsBounded cap (on_flushed cap now evs d)
  unfolding on_flushed offer_refs
  on_flushed-IsBounded now [] d v = v
  on_flushed-IsBounded now (ev ∷ evs) d v =
      let d' = mark_many cap now (map (λ (e : Event). e.id) (ev ∷ evs)) d in
      ground (
        arith,
        mark_many-IsBounded now (map (λ (e : Event). e.id) (ev ∷ evs)) d v,
        length-append d'.write_q (map ref_of (ev ∷ evs) ∷ []),
      )

  unmark_key-IsBounded :
      (o : Option Key) (d : Dedup) → IsBounded cap d → IsBounded cap (unmark_key o d)
  unfolding unmark_key
  unmark_key-IsBounded none d v = v
  unmark_key-IsBounded (some k) d v = ground (arith, length-delete k d.cur, length-delete k d.prev)

  step-IsBounded : (c : Call) (d : Dedup) → IsBounded cap d → IsBounded cap (step cap c d)
  unfolding step mark check_and_mark unmark count_bad_id
  step-IsBounded (marks now id) d v = mark_key-IsBounded now (parse_event_id id) d v
  step-IsBounded (checks now id) d v = check_and_mark_key-IsBounded now (parse_event_id id) d v
  step-IsBounded (flushes now evs) d v = on_flushed-IsBounded now evs d v
  step-IsBounded (unmarks id) d v = unmark_key-IsBounded (parse_event_id id) d v
  step-IsBounded counts_bad_id d v = ground arith

  run-IsBounded : (cs : List Call) (d : Dedup) → IsBounded cap d → IsBounded cap (run cap cs d)
  unfolding run
  run-IsBounded [] d v = v
  run-IsBounded (c ∷ cs) d v = run-IsBounded cs (step cap c d) (step-IsBounded c d v)

  warm_key-IsBounded :
      (n : ℕ) (o : Option Key) (d : Dedup)
      → length d.cur ≤ n
      → n + 1 ≤ cap
      → IsBounded cap d
      → IsBounded cap (warm_key o d) × (length (warm_key o d).cur ≤ n + 1)
  unfolding warm_key
  warm_key-IsBounded n none d c h v = (v, omega arith)
  warm_key-IsBounded n (some k) d c h v =
      (ground (arith, length-insert k d.cur), omega (arith, length-insert k d.cur))

  warm-IsBounded :
      (n : ℕ) (ids : List Bytes) (d : Dedup)
      → length d.cur ≤ n
      → n + length ids ≤ cap
      → IsBounded cap d
      → IsBounded cap (warm ids d)
  unfolding warm
  warm-IsBounded n [] d c h v = v
  warm-IsBounded n (id ∷ ids) d c h v =
      let (v', c') = warm_key-IsBounded n (parse_event_id id) d c (omega arith) v in
      warm-IsBounded (n + 1) ids (warm_key (parse_event_id id) d) c' (omega arith) v'

  -- After Warm with at most `cap` ids and whatever calls, the two generations hold at most
  -- 2 · cap + 1 keys, and the queue at most its capacity.
  pub run-warm-IsBounded :
      (ids : List Bytes) (cs : List Call)
      → length ids ≤ cap
      → let d = run cap cs (warm ids new_dedup) in
        (length d.cur + length d.prev ≤ 2 * cap + 1) × (length d.write_q ≤ write_queue_cap)
  run-warm-IsBounded ids cs h =
      let start : IsBounded cap new_dedup = unfold new_dedup in ground arith in
      let warmed =
        warm-IsBounded 0 ids new_dedup (unfold new_dedup in omega arith) (omega arith) start in
      let v = run-IsBounded cs (warm ids new_dedup) warmed in
      (omega (arith, v.current, v.previous), v.queued)
