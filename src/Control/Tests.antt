-- ===== src/Control/Tests.antt =====
-- internal/control/control.go on small tables.
use archive_relay.Prelude.{
  ℕ, zero, suc, ◌≡◌, ◌-◌, refl, Bool, true, false, some, [], ◌∷◌, Bytes, bytes, bytes_eq, arith,
  drop, length, contains, lookup, eq_bytes,
}
use archive_relay.Control.{
  Db, SeenRef, empty_db, is_recorded, mark_seen_batch, last_fetched, last_swept, mark_fetched,
  mark_swept,
}
use archive_relay.Control.Prune.{
  Pruned, prune_seen_by_rowid, prune_seen_by_rowid_lem, prune_seen_by_rowid-all,
}
use archive_relay.Control.Opening.{
  File, Statements, add_column, columns, earlier_rows, migrate_crawl_state, open_db,
}
use archive_relay.Control.Migrated.{has_sweeps, open_db-crawled}

abbrev ref : Bytes → SeenRef
ref id = record { id = id; created_at = 5 }

abbrev three : Db
three = record empty_db { seen_events = ref (bytes "a") ∷ ref (bytes "b") ∷ ref (bytes "c") ∷ [] }

abbrev fails_late : ℕ → Bool
fails_late n = elim n [ zero ↦ true | suc k ↦ false ]

prune_runs :
    (prune_seen_by_rowid 1 1 fails_late true three).rows ≡ ref (bytes "b") ∷ ref (bytes "c") ∷ []
unfolding prune_seen_by_rowid archive_relay.Control.Prune.prune_loop
prune_runs = refl

prune_seen_by_rowid-all_example :
    let r = prune_seen_by_rowid 2 1 (λ _. true) true three in
    (r.done ≡ true)
    × (r.deleted ≡ length three.seen_events - 1)
    × (r.rows ≡ drop (length three.seen_events - 1) three.seen_events)
prune_seen_by_rowid-all_example =
    prune_seen_by_rowid-all 2 1 (λ _. true) three (omega arith) (omega arith) (λ _. refl)

abbrev all_done : Statements
all_done = record {
  opens = true;
  creates = true;
  queries = true;
  scans = true;
  ends = true;
  alters = true;
}

-- The file of an earlier version, in which one pubkey was fetched.
abbrev earlier_file : File
earlier_file = record {
  crawl_state = some (earlier_rows ((bytes "a", record { last_fetched = 7; updated_at = 8 }) ∷ []));
  others = empty_db;
}

abbrev migrated : Db
migrated = record empty_db {
  crawl_state = (bytes "a", record { last_fetched = 7; last_full_sweep = 0; updated_at = 8 }) ∷ [];
}

opens : (open_db all_done earlier_file).0 ≡ some migrated
unfolding open_db migrate_crawl_state columns add_column contains bytes_eq
opens = refl

open_db-crawled_example :
    (has_sweeps (open_db all_done earlier_file).1 ≡ true)
    × (last_fetched true (bytes "a") migrated ≡ some 7)
    × (last_swept true (bytes "a") migrated ≡ some 0)
    × ((open_db all_done (open_db all_done earlier_file).1).0 ≡ some migrated)
unfolding lookup bytes_eq
open_db-crawled_example =
    open_db-crawled all_done all_done earlier_file migrated (bytes "a") opens refl
