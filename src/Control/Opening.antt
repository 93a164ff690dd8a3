-- ===== src/Control/Opening.antt =====
-- internal/control/control.go: Open, with the migration of a crawl_state that an earlier version wrote.
-- SQLite's statements succeed or not, as given; the pragmas of the connection are left out, and so is
-- that a failed schema may have created some of its empty tables.
use archive_relay.Prelude.{
  ℕ, Bool, true, false, not, ◌&&◌, Option, none, some, List, [], ◌∷◌, Bytes, bytes, eq_bytes,
  contains, if◌then◌else◌,
}
use archive_relay.Control.{Db, CrawlState}

pub record EarlierState : Type 0 where
  pub last_fetched : ℕ
  pub updated_at : ℕ

-- crawl_state of an earlier version, or as it is now.
pub data CrawlTable : Type 0 where
  earlier_rows : List (Bytes × EarlierState) → CrawlTable
  current_rows : List (Bytes × CrawlState) → CrawlTable

-- PRAGMA table_info
unfoldable pub columns : CrawlTable → List Bytes
columns (earlier_rows rows) = bytes "pubkey" ∷ bytes "last_fetched" ∷ bytes "updated_at" ∷ []
columns (current_rows rows) =
    bytes "pubkey" ∷ bytes "last_fetched" ∷ bytes "last_full_sweep" ∷ bytes "updated_at" ∷ []

-- ADD COLUMN last_full_sweep INTEGER NOT NULL DEFAULT 0
abbrev pub with_column : List (Bytes × EarlierState) → List (Bytes × CrawlState)
with_column [] = []
with_column ((pk, row) ∷ rows) =
    let state : CrawlState = record {
      last_fetched = row.last_fetched;
      last_full_sweep = 0;
      updated_at = row.updated_at;
    } in
    (pk, state) ∷ with_column rows

unfoldable pub add_column : CrawlTable → CrawlTable
add_column (earlier_rows rows) = current_rows (with_column rows)
add_column (current_rows rows) = current_rows rows

-- The file: its crawl_state, if it has one, and the other tables.
pub record File : Type 0 where
  pub crawl_state : Option CrawlTable
  pub others : Db

-- Whether the connection and the statements of an Open succeed: the schema, the query of the columns
-- with its rows and its end, and the ALTER TABLE.
pub record Statements : Type 0 where
  pub opens : Bool
  pub creates : Bool
  pub queries : Bool
  pub scans : Bool
  pub ends : Bool
  pub alters : Bool

abbrev pub created : Option CrawlTable → CrawlTable
created none = current_rows []
created (some t) = t

unfoldable pub migrate_crawl_state : Statements → CrawlTable → Bool × CrawlTable
migrate_crawl_state st t =
    if not (st.queries && (st.scans && st.ends))
    then (false, t)
    else if contains (bytes "last_full_sweep") (columns t)
    then (true, t)
    else if st.alters
    then (true, add_column t)
    else (false, t)

-- The tables as the other methods see them. Open succeeds only on a table that has the column.
abbrev pub states : CrawlTable → List (Bytes × CrawlState)
states (earlier_rows rows) = with_column rows
states (current_rows rows) = rows

abbrev pub db_of : CrawlTable → Db → Db
db_of t others = record others { crawl_state = states t }

abbrev pub opened : Db → Bool × CrawlTable → Option Db × File
opened others (ok, t) =
    (if ok then some (db_of t others) else none, record { crawl_state = some t; others = others })

unfoldable pub open_db : Statements → File → Option Db × File
open_db st file =
    if not st.opens
    then (none, file)
    else if not st.creates
    then (none, file)
    else opened file.others (migrate_crawl_state st (created file.crawl_state))
