-- ===== src/Store/Lifecycle/Closed.antt =====
-- internal/store/store.go: what Close leaves.
use archive_relay.Prelude.{
  ℕ, ◌≡◌, refl, Bool, true, false, not, ◌&&◌, ◌||◌, Option, none, some, List, [], ◌∷◌, Bytes, bytes,
  eq_bytes, nat_eq, length, is_nil, if◌then◌else◌, if-cases, ◌==◌,
}
use archive_relay.Classifier.{Tier, permanent, archive, social, drop, active_tiers}
use archive_relay.Schema.{ClickHouse, Pool, Result, init_schema}
use archive_relay.Store.Lifecycle.{
  PoolName, bootstrap, write_pool, read_pool, stats_pool, Dial, fails, silent, answers, is_failure,
  Worker, tombstone_worker, feed_worker, batcher_worker, Happening, opens, closes, starts, stops,
  Handles, Failure, no_identifier, no_bootstrap, no_database, no_pool, no_answer, no_schema,
  create_database, Outcome, and_next, open_conn, new_store, close, is_identifier, backfill_feed,
  ensure_database, open_pools, open_writes, with_schema, start_workers, init, start_batchers,
}

abbrev pool_code : PoolName → ℕ
pool_code bootstrap = 0
pool_code write_pool = 1
pool_code read_pool = 2
pool_code stats_pool = 3

abbrev tier_code : Tier → ℕ
tier_code permanent = 0
tier_code archive = 1
tier_code social = 2
tier_code drop = 3

abbrev worker_code : Worker → ℕ
worker_code tombstone_worker = 4
worker_code feed_worker = 5
worker_code (batcher_worker t) = tier_code t

-- The pools that are open and the workers that run, by their codes.
pub record Live : Type 0 where
  pub pools : List ℕ
  pub workers : List ℕ

abbrev pub is_among : ℕ → List ℕ → Bool
is_among n [] = false
is_among n (m ∷ ms) = nat_eq n m || is_among n ms

abbrev pub without : ℕ → List ℕ → List ℕ
without n [] = []
without n (m ∷ ms) = if nat_eq n m then ms else m ∷ without n ms

abbrev writes : Live → Bool
writes l = is_among (pool_code write_pool) l.pools

-- Nothing is opened or started twice, nor closed or stopped that is not there; a worker starts and
-- stops while the write pool is open, and that is closed when no worker runs.
abbrev pub is_sound : Happening → Live → Bool
is_sound (opens p) l = not (is_among (pool_code p) l.pools)
is_sound (closes write_pool) l = writes l && is_nil l.workers
is_sound (closes p) l = is_among (pool_code p) l.pools
is_sound (starts w) l = writes l && not (is_among (worker_code w) l.workers)
is_sound (stops w) l = writes l && is_among (worker_code w) l.workers

abbrev pub after : Happening → Live → Live
after (opens p) l = record l { pools = pool_code p ∷ l.pools }
after (closes p) l = record l { pools = without (pool_code p) l.pools }
after (starts w) l = record l { workers = worker_code w ∷ l.workers }
after (stops w) l = record l { workers = without (worker_code w) l.workers }

abbrev pub follow_one : Happening → Option Live → Option Live
follow_one h none = none
follow_one h (some l) = if is_sound h l then some (after h l) else none

-- What is live after a journal, whose last entry comes first; `none` if something in it is not sound.
abbrev pub follow : List Happening → Option Live
follow [] = some (record { pools = []; workers = [] })
follow (h ∷ earlier) = follow_one h (follow earlier)

-- The pool that openConn forgets when it does not answer.
abbrev pub unclosed : Option Failure → List ℕ
unclosed none = []
unclosed (some no_identifier) = []
unclosed (some no_bootstrap) = []
unclosed (some no_database) = []
unclosed (some (no_pool p)) = []
unclosed (some (no_answer p)) = pool_code p ∷ []
unclosed (some (no_schema e)) = []

abbrev pub Leaves : List ℕ → List Happening → Type 0
Leaves pools journal = follow journal ≡ some (record { pools = pools; workers = [] })

-- A store that Init returned with no error.
abbrev pub is_up : {S : Type 0} → Handles S → Bool
is_up s = s.wch && (s.ch && (s.sch && (s.tw && (s.fw && nat_eq (length s.tiers) 3))))

abbrev pub EndsWell : {S : Type 0} → Outcome S → Type 0
EndsWell r = Leaves (unclosed r.0) (close r.1).journal × (r.0 ≡ none → is_up r.1 ≡ true)

module _ {S : Type 0} (server : ClickHouse S) (dial : PoolName → Dial) (ttl : Tier → Bytes)
    (feed_count : S → Option ℕ) where
  -- A store whose workers run and that has not opened the other pools yet.
  abbrev started : Pool S → List Happening → Handles S
  started c journal = start_batchers active_tiers (record {
    pool = c;
    wch = true;
    ch = false;
    sch = false;
    tw = true;
    fw = true;
    tiers = [];
    journal = starts feed_worker ∷ starts tombstone_worker ∷ opens write_pool ∷ journal;
  })

  open_pools-EndsWell :
      (c : Pool S) (journal : List Happening) (read stats : Dial)
      → Leaves [] journal
      → EndsWell (
          and_next
            (open_conn read_pool read (λ s'. record s' { ch = true }) (started c journal))
            (open_conn stats_pool stats (λ s'. record s' { sch = true })))
  unfolding open_conn close
  open_pools-EndsWell c journal fails stats h = (rw h refl, λ k. absurd (cc k))
  open_pools-EndsWell c journal silent stats h = (rw h refl, λ k. absurd (cc k))
  open_pools-EndsWell c journal answers fails h = (rw h refl, λ k. absurd (cc k))
  open_pools-EndsWell c journal answers silent h = (rw h refl, λ k. absurd (cc k))
  open_pools-EndsWell c journal answers answers h = (rw h refl, λ _. refl)

  start_workers-EndsWell :
      (c0 : Pool S) (r : Result S) (journal : List Happening)
      → Leaves [] journal
      → EndsWell (
          start_workers server dial ttl feed_count r
            (record (new_store c0) { wch = true; journal = opens write_pool ∷ journal }))
  unfolding start_workers open_pools close
  start_workers-EndsWell c0 (some e, c) journal h = (rw h refl, λ k. absurd (cc k))
  start_workers-EndsWell c0 (none, c) journal h =
      open_pools-EndsWell (backfill_feed server feed_count c).1 journal (dial read_pool)
        (dial stats_pool) h

  open_writes-EndsWell :
      (c0 : Pool S) (journal : List Happening) (writes : Dial)
      → Leaves [] journal
      → EndsWell (
          and_next
            (open_conn write_pool writes
              (λ s'. record s' { wch = true })
              (record (new_store c0) { journal = journal }))
            (with_schema server dial ttl feed_count))
  unfolding open_conn close
  open_writes-EndsWell c0 journal fails h = (h, λ k. absurd (cc k))
  open_writes-EndsWell c0 journal silent h = (rw h refl, λ k. absurd (cc k))
  open_writes-EndsWell c0 journal answers h =
      start_workers-EndsWell c0 (init_schema server ttl c0) journal h

  -- Wherever Init ends, a Close after it leaves no worker running and no pool open, but for one: if
  -- Init gave up a pool because its ping failed, that pool stays open. On the way nothing is opened,
  -- started, closed or stopped twice, and the workers start and stop while the write pool is open. If
  -- Init returns nil, it has left the three pools, the two writers and three batchers.
  pub close-init :
      (name : Bytes) (c : Pool S)
      → let r = init server dial ttl feed_count name c in
        Leaves (unclosed r.0) (close r.1).journal × (r.0 ≡ none → is_up r.1 ≡ true)
  unfolding init ensure_database open_writes close
  close-init name c =
      let next : Handles S → Outcome S = λ s.
        and_next (open_writes server dial ttl feed_count s)
          (with_schema server dial ttl feed_count) in
      let P : Outcome S → Type 0 = λ r. EndsWell (and_next r next) in
      let created = server.exec (create_database name) c.db in
      let journal = closes bootstrap ∷ opens bootstrap ∷ [] in
      let c' : Pool S = record c { db = created.1 } in
      if-cases P ((name == bytes "") || (name == bytes "default"))
        (λ _. open_writes-EndsWell c [] (dial write_pool) refl)
        (λ _.
          if-cases P (not (is_identifier name)) (λ _. (refl, λ k. absurd (cc k)))
            (λ _.
              if-cases P (is_failure (dial bootstrap)) (λ _. (refl, λ k. absurd (cc k)))
                (λ _.
                  if-cases P created.0 (λ _. open_writes-EndsWell c' journal (dial write_pool) refl)
                    (λ _. (refl, λ k. absurd (cc k))))))
