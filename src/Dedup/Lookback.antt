-- ===== src/Dedup/Lookback.antt =====
-- internal/crawler/dedup.go: how long the cache remembers an id over a history of calls.
use archive_relay.Prelude.{
  ℕ, ◌+◌, ◌≤◌, ◌<◌, ◌≡◌, ◌⊎◌, inl, inr, true, false, Option, none, some, List, [], ◌∷◌, Bytes, map,
  contains, contains-insert, length-insert, length-delete, length-map, contains-delete, eq_bytes,
  ==_self, arith, length, All,
}
use archive_relay.Nostr.{Event}
use archive_relay.Dedup.{
  Dedup, has_key, seen_key, seen, insert_locked, mark_key, mark, check_and_mark_key, check_and_mark,
  mark_many, unmark_key, unmark, on_flushed, count_bad_id, offer_refs,
}
use archive_relay.Dedup.Hex.{Key, parse_event_id}
use archive_relay.Dedup.Cache.{same, same_key, check_and_mark_lem}

-- A call of a method on the shared cache, with the time at which it runs.
pub data Call : Type 0 where
  marks : ℕ → Bytes → Call
  checks : ℕ → Bytes → Call
  flushes : ℕ → List Event → Call
  unmarks : Bytes → Call
  counts_bad_id : Call

unfoldable pub step : ℕ → Call → Dedup → Dedup
step cap (marks now id) d = mark cap now id d
step cap (checks now id) d = (check_and_mark cap now id d).1
step cap (flushes now evs) d = on_flushed cap now evs d
step cap (unmarks id) d = unmark id d
step cap counts_bad_id d = count_bad_id d

unfoldable pub run : ℕ → List Call → Dedup → Dedup
run cap [] d = d
run cap (c ∷ cs) d = run cap cs (step cap c d)

-- At most how many keys a call inserts.
abbrev pub weight : Call → ℕ
weight (marks now id) = 1
weight (checks now id) = 1
weight (flushes now evs) = length evs
weight (unmarks id) = 0
weight counts_bad_id = 0

abbrev pub total_weight : List Call → ℕ
total_weight [] = 0
total_weight (c ∷ cs) = weight c + total_weight cs

-- The call does not unmark `id`.
abbrev pub Spares : Bytes → Call → Type 0
Spares id (unmarks j) = same_key j id ≡ false
Spares id _ = Unit

-- The key is in the current generation, or in the previous one while the current one is small.
abbrev Recent : Key → ℕ → Dedup → Type 0
Recent k n d = (contains k d.cur ≡ true) ⊎ ((contains k d.prev ≡ true) × (length d.cur ≤ n))

module _ (cap : ℕ) (k : Key) where
  Recent-new : (now : ℕ) (d : Dedup) → Recent k 0 (insert_locked cap now k d)
  unfolding insert_locked
  Recent-new now d = ground (arith, contains-insert k k d.cur, ==_self k)

  Recent-insert_locked :
      (now n : ℕ) (j : Key) (d : Dedup)
      → n + 1 < cap
      → Recent k n d
      → Recent k (n + 1) (insert_locked cap now j d)
  unfolding insert_locked
  Recent-insert_locked now n j d h (inl c) = ground (arith, contains-insert j k d.cur)
  Recent-insert_locked now n j d h (inr (p, le)) = ground (arith, length-insert j d.cur)

  Recent-mono : {m n : ℕ} (d : Dedup) → m ≤ n → Recent k m d → Recent k n d
  Recent-mono d h (inl c) = inl c
  Recent-mono d h (inr (p, le)) = inr (p, omega arith)

  Recent-mark_key :
      (now n : ℕ) (o : Option Key) (d : Dedup)
      → n + 1 < cap
      → Recent k n d
      → Recent k (n + 1) (mark_key cap now o d)
  unfolding mark_key
  Recent-mark_key now n none d h r = Recent-mono d (omega arith) r
  Recent-mark_key now n (some j) d h r = Recent-insert_locked now n j d h r

  Recent-check_and_mark_key :
      (now n : ℕ) (o : Option Key) (d : Dedup)
      → n + 1 < cap
      → Recent k n d
      → Recent k (n + 1) (check_and_mark_key cap now o d).1
  unfolding check_and_mark_key
  Recent-check_and_mark_key now n none d h r = Recent-mono d (omega arith) r
  Recent-check_and_mark_key now n (some j) d h r =
      ground (
        arith,
        Recent-insert_locked now n j d h r,
        Recent-mono {m = n} {n = n + 1} d (omega arith) r,
      )

  Recent-mark_many :
      (now n : ℕ) (ids : List Bytes) (d : Dedup)
      → n + length ids < cap
      → Recent k n d
      → Recent k (n + length ids) (mark_many cap now ids d)
  unfolding mark_many mark
  Recent-mark_many now n [] d h r = Recent-mono d (omega arith) r
  Recent-mark_many now n (id ∷ ids) d h r =
      let d' = mark_key cap now (parse_event_id id) d in
      Recent-mono (mark_many cap now ids d') (omega arith) (
        Recent-mark_many now (n + 1) ids d' (omega arith)
          (Recent-mark_key now n (parse_event_id id) d (omega arith) r))

  Recent-unmark_key :
      (n : ℕ) (o : Option Key) (d : Dedup)
      → same o (some k) ≡ false
      → Recent k n d
      → Recent k n (unmark_key o d)
  unfolding unmark_key
  Recent-unmark_key n none d h r = r
  Recent-unmark_key n (some j) d h (inl c) = ground (arith, contains-delete j k d.cur)
  Recent-unmark_key n (some j) d h (inr (p, le)) =
      ground (arith, contains-delete j k d.prev, length-delete j d.cur)

  Recent-on_flushed :
      (now n : ℕ) (evs : List Event) (d : Dedup)
      → n + length evs < cap
      → Recent k n d
      → Recent k (n + length evs) (on_flushed cap now evs d)
  unfolding on_flushed offer_refs
  Recent-on_flushed now n [] d h r = Recent-mono d (omega arith) r
  Recent-on_flushed now n (ev ∷ evs) d h r =
      let ids : List Bytes = map (λ (e : Event). e.id) (ev ∷ evs) in
      let len = length-map (ev ∷ evs) (λ (e : Event). e.id) in
      ground (arith, Recent-mark_many now n ids d, len)

module _ (cap : ℕ) (id : Bytes) (k : Key) (is_key : parse_event_id id ≡ some k) where
  Recent-win :
      (now : ℕ) (d : Dedup)
      → (check_and_mark cap now id d).0 ≡ true
      → Recent k 0 (check_and_mark cap now id d).1
  unfolding check_and_mark check_and_mark_key
  Recent-win now d won = rw is_key (ground (arith, Recent-new cap k now d, rw is_key at won))

  Recent-step :
      (n : ℕ) (c : Call) (d : Dedup)
      → n + weight c < cap
      → Spares id c
      → Recent k n d
      → Recent k (n + weight c) (step cap c d)
  unfolding step mark check_and_mark unmark count_bad_id
  Recent-step n (marks now j) d h s r = Recent-mark_key cap k now n (parse_event_id j) d h r
  Recent-step n (checks now j) d h s r =
      Recent-check_and_mark_key cap k now n (parse_event_id j) d h r
  Recent-step n (flushes now evs) d h s r = Recent-on_flushed cap k now n evs d h r
  Recent-step n (unmarks j) d h s r =
      Recent-mono cap k {m = n} (unmark_key (parse_event_id j) d) (omega arith)
        (Recent-unmark_key cap k n (parse_event_id j) d (rw (← is_key) s) r)
  Recent-step n counts_bad_id d h s r = Recent-mono cap k {m = n} (count_bad_id d) (omega arith) r

  Recent-run :
      (n : ℕ) (cs : List Call) (d : Dedup)
      → n + total_weight cs < cap
      → All (Spares id) cs
      → Recent k n d
      → seen id (run cap cs d) ≡ true
  unfolding run seen seen_key has_key
  Recent-run n [] d h s r = rw is_key (ground arith)
  Recent-run n (c ∷ cs) d h s r =
      Recent-run (n + weight c) cs (step cap c d) (omega arith) s.1
        (Recent-step n c d (omega arith) s.0 r)

  -- For an id that parseEventID accepts, so one of 64 hexadecimal digits: after a winning CheckAndMark
  -- of it, and while fewer than `cap` keys are inserted and the id is not unmarked, Seen reports the id
  -- and a second CheckAndMark loses.
  pub check_and_mark-wins_once :
      (now later : ℕ) (cs : List Call) (d : Dedup)
      → (check_and_mark cap now id d).0 ≡ true
      → total_weight cs < cap
      → All (Spares id) cs
      → let d' = run cap cs (check_and_mark cap now id d).1 in
        (seen id d' ≡ true) × ((check_and_mark cap later id d').0 ≡ false)
  check_and_mark-wins_once now later cs d won few spared =
      (remembered, ground (arith, remembered, (check_and_mark_lem cap later id d').0))
    where
      d' : Dedup
      d' = run cap cs (check_and_mark cap now id d).1

      remembered : seen id d' ≡ true
      remembered =
          Recent-run 0 cs (check_and_mark cap now id d).1 (omega arith) spared
            (Recent-win now d won)
