-- ===== src/Store/Lifecycle.antt =====
-- internal/store/store.go: Init, with ensureDatabase and backfillFeed, and Close. `S` is the state of
-- ClickHouse, to which initSchema sends its statements. What becomes of the opening of a pool is given.
-- The deadlines of the statements are left out.
pub mod Closed
mod Tests
use archive_relay.Prelude.{
  ℕ, Bool, true, false, not, ◌&&◌, ◌||◌, Option, none, some, List, [], ◌∷◌, Bytes, bytes, bytes_eq,
  eq_bytes, leb, nat_eq, ltb, ◌==◌, if◌then◌else◌,
}
use archive_relay.Classifier.{Tier, active_tiers}
use archive_relay.Api.Atoi.{is_digit}
use archive_relay.Schema.{ClickHouse, Pool, InitError, Result, send, init_schema}
use archive_relay.Schema.Text.{texts}
use archive_relay.Rows.{tier_columns}

pub data PoolName : Type 0 where
  bootstrap write_pool read_pool stats_pool : PoolName

-- clickhouse.Open fails, or opens a pool whose ping fails, or one that answers.
pub data Dial : Type 0 where
  fails silent answers : Dial

pub data Worker : Type 0 where
  tombstone_worker feed_worker : Worker
  batcher_worker : Tier → Worker

-- What Init and Close do, apart from the statements.
pub data Happening : Type 0 where
  opens closes : PoolName → Happening
  starts stops : Worker → Happening

-- Which of the store's pools and writers are not nil, the keys of `tiers`, and what happened, the last
-- first.
pub record Handles (S : Type 0) : Type 0 where
  pub pool : Pool S
  pub wch : Bool
  pub ch : Bool
  pub sch : Bool
  pub tw : Bool
  pub fw : Bool
  pub tiers : List Tier
  pub journal : List Happening

pub data Failure : Type 0 where
  no_identifier no_bootstrap no_database : Failure
  no_pool no_answer : PoolName → Failure
  no_schema : InitError → Failure

abbrev pub is_failure : Dial → Bool
is_failure fails = true
is_failure silent = false
is_failure answers = false

abbrev pub is_letter : ℕ → Bool
is_letter c = (leb b'A' c && leb c b'Z') || ((leb b'a' c && leb c b'z') || nat_eq c b'_')

unfoldable pub all_word : Bytes → Bool
all_word [] = true
all_word (c ∷ s) = (is_letter c || is_digit c) && all_word s

-- identifierRe
unfoldable pub is_identifier : Bytes → Bool
is_identifier [] = false
is_identifier (c ∷ s) = is_letter c && all_word s

abbrev pub create_database : Bytes → Bytes
create_database name =
    texts (bytes "CREATE DATABASE IF NOT EXISTS `" ∷ name ∷ bytes "` ENGINE = Atomic" ∷ [])

abbrev pub backfill : Bytes
backfill = texts (
    bytes "INSERT INTO events_feed ("
    ∷ tier_columns
    ∷ bytes ") SELECT "
    ∷ tier_columns
    ∷ bytes " FROM events_all WHERE created_at >= toUnixTimestamp(now()) - 604800"
    ∷ [])

-- An error, or none.
abbrev pub Outcome : Type 0 → Type 0
Outcome S = Option Failure × Handles S

module _ {S : Type 0} where
  abbrev pub did : Happening → Handles S → Handles S
  did h s = record s { journal = h ∷ s.journal }

  abbrev pub new_store : Pool S → Handles S
  new_store c = record {
    pool = c;
    wch = false;
    ch = false;
    sch = false;
    tw = false;
    fw = false;
    tiers = [];
    journal = [];
  }

  -- openConn, which does not close a pool that does not answer; `keep` puts the handle into the store.
  unfoldable pub open_conn : PoolName → Dial → (Handles S → Handles S) → Handles S → Outcome S
  open_conn p fails keep s = (some (no_pool p), s)
  open_conn p silent keep s = (some (no_answer p), did (opens p) s)
  open_conn p answers keep s = (none, keep (did (opens p) s))

  abbrev pub and_next : Outcome S → (Handles S → Outcome S) → Outcome S
  and_next (some e, s) next = (some e, s)
  and_next (none, s) next = next s

  abbrev pub start_batchers : List Tier → Handles S → Handles S
  start_batchers [] s = s
  start_batchers (t ∷ ts) s =
      start_batchers ts
        (record s { tiers = t ∷ s.tiers; journal = starts (batcher_worker t) ∷ s.journal })

  abbrev pub stop_batchers : List Tier → Handles S → Handles S
  stop_batchers [] s = s
  stop_batchers (t ∷ ts) s = stop_batchers ts (did (stops (batcher_worker t)) s)

  abbrev pub when_open : Bool → Happening → Handles S → Handles S
  when_open held h s = if held then did h s else s

  unfoldable pub close : Handles S → Handles S
  close s = when_open s.wch (closes write_pool) (
      when_open s.sch (closes stats_pool) (
        when_open s.ch (closes read_pool) (
          when_open s.fw (stops feed_worker)
            (when_open s.tw (stops tombstone_worker) (stop_batchers s.tiers s)))))

  module _ (server : ClickHouse S) where
    -- `feed_count` is the count of events_feed; `none` is an error.
    abbrev pub backfill_with : Option ℕ → Pool S → Bool × Pool S
    backfill_with none c = (false, c)
    backfill_with (some n) c = if ltb 0 n then (true, c) else send server backfill c

    unfoldable pub backfill_feed : (S → Option ℕ) → Pool S → Bool × Pool S
    backfill_feed feed_count c = backfill_with (feed_count c.db) c

    unfoldable pub ensure_database : Bytes → Dial → Handles S → Outcome S
    ensure_database name dial s =
        if (name == bytes "") || (name == bytes "default")
        then (none, s)
        else if not (is_identifier name)
        then (some no_identifier, s)
        else if is_failure dial
        then (some no_bootstrap, s)
        else (let (ok, db) = server.exec (create_database name) s.pool.db in
            let s' = did (closes bootstrap) (did (opens bootstrap) s) in
            let s'' = record s' { pool = record s.pool { db = db } } in
            if ok then (none, s'') else (some no_database, s''))

    module _ (dial : PoolName → Dial) (ttl : Tier → Bytes) (feed_count : S → Option ℕ) where
      -- The other two pools.
      unfoldable pub open_pools : Handles S → Outcome S
      open_pools s =
          and_next (open_conn read_pool (dial read_pool) (λ s'. record s' { ch = true }) s)
            (open_conn stats_pool (dial stats_pool) (λ s'. record s' { sch = true }))

      -- The workers, after the schema. The error of the backfill is logged.
      unfoldable pub start_workers : Result S → Handles S → Outcome S
      start_workers (some e, c) s = (some (no_schema e), record s { pool = c })
      start_workers (none, c) s =
          let s1 = did (starts tombstone_worker) (record s { tw = true }) in
          let s2 = did (starts feed_worker) (record s1 { fw = true }) in
          open_pools
            (start_batchers active_tiers (record s2 { pool = (backfill_feed feed_count c).1 }))

      unfoldable pub open_writes : Handles S → Outcome S
      open_writes s = open_conn write_pool (dial write_pool) (λ s'. record s' { wch = true }) s

      abbrev pub with_schema : Handles S → Outcome S
      with_schema s = start_workers (init_schema server ttl s.pool) s

      unfoldable pub init : Bytes → Pool S → Outcome S
      init name c =
          and_next (ensure_database name (dial bootstrap) (new_store c))
            (λ s. and_next (open_writes s) with_schema)
