-- ===== src/Control.antt =====
-- internal/control/control.go: the tables of the SQLite control database and the statements on
-- them. Each method is one function on the tables, and takes as its first argument whether SQLite
-- carried the statement or transaction out; a failed one leaves the tables as they were. The rows
-- of seen_events stand in rowid order; the other tables are maps from their primary key.
pub mod Prune
pub mod Tables
pub mod Opening
pub mod Migrated
mod Tests
use archive_relay.Prelude.{
  ℕ, zero, suc, ◌+◌, ◌-◌, ◌≡◌, Bool, true, false, ◌||◌, Option, none, some, List, [], ◌∷◌, ◌++◌,
  map, Bytes, eq_bytes, ◌==◌, lookup, put, erase, take, drop, length, leb, ltb, nat_eq,
  if◌then◌else◌, sort_by, min,
}

pub record SeenRef : Type 0 where
  pub id : Bytes
  pub created_at : ℕ

pub record AllowedPubkey : Type 0 where
  pub note : Bytes
  pub created_at : ℕ

pub record CrawlState : Type 0 where
  pub last_fetched : ℕ
  pub last_full_sweep : ℕ
  pub updated_at : ℕ

pub record Parked : Type 0 where
  pub event_json : Bytes
  pub publish_at : ℕ

pub record Db : Type 0 where
  pub seen_events : List SeenRef
  pub allowed_pubkeys : List (Bytes × AllowedPubkey)
  pub crawl_state : List (Bytes × CrawlState)
  pub scheduled_events : List (Bytes × Parked)

abbrev pub empty_db : Db
empty_db = record {
  seen_events = [];
  allowed_pubkeys = [];
  crawl_state = [];
  scheduled_events = [];
}

unfoldable pub is_recorded : Bytes → List SeenRef → Bool
is_recorded id [] = false
is_recorded id (r ∷ rows) = r.id == id || is_recorded id rows

-- INSERT OR IGNORE
unfoldable pub insert_or_ignore : SeenRef → List SeenRef → List SeenRef
insert_or_ignore r rows = if is_recorded r.id rows then rows else rows ++ r ∷ []

-- Whether the row is new; `none` is an error.
unfoldable pub mark_seen : Bool → SeenRef → Db → Option Bool × Db
mark_seen false r db = (none, db)
mark_seen true r db = (
  some (ltb 0 (length (insert_or_ignore r db.seen_events) - length db.seen_events)),
  record db { seen_events = insert_or_ignore r db.seen_events },
)

unfoldable pub insert_all : List SeenRef → List SeenRef → List SeenRef
insert_all [] rows = rows
insert_all (r ∷ rs) rows = insert_all rs (insert_or_ignore r rows)

-- One transaction; with no items it is not begun. `true` is success.
unfoldable pub mark_seen_batch : Bool → List SeenRef → Db → Bool × Db
mark_seen_batch done [] db = (true, db)
mark_seen_batch false (r ∷ rs) db = (false, db)
mark_seen_batch true (r ∷ rs) db =
    (true, record db { seen_events = insert_all (r ∷ rs) db.seen_events })

unfoldable pub newest_first : List SeenRef → List SeenRef
newest_first [] = []
newest_first (r ∷ rows) = newest_first rows ++ r ∷ []

unfoldable pub load_recent_seen : Bool → ℕ → Db → Option (List Bytes)
load_recent_seen false limit db = none
load_recent_seen true limit db =
    some (map (λ (r : SeenRef). r.id) (take limit (newest_first db.seen_events)))

unfoldable pub keep_since : ℕ → List SeenRef → List SeenRef
keep_since cutoff [] = []
keep_since cutoff (r ∷ rows) =
    let rest = keep_since cutoff rows in if ltb r.created_at cutoff then rest else r ∷ rest

-- The number of deleted rows; `none` is an error.
unfoldable pub prune_seen : Bool → ℕ → ℕ → Db → Option ℕ × Db
prune_seen false now max_age db = (none, db)
prune_seen true now max_age db =
    let kept = keep_since (now - max_age) db.seen_events in
    (some (length db.seen_events - length kept), record db { seen_events = kept })

-- INSERT OR REPLACE
unfoldable pub allow_pubkey : Bool → ℕ → Bytes → Bytes → Db → Bool × Db
allow_pubkey false now pubkey note db = (false, db)
allow_pubkey true now pubkey note db = (
  true,
  record db {
    allowed_pubkeys = put pubkey (record { note = note; created_at = now }) db.allowed_pubkeys;
  },
)

unfoldable pub revoke_pubkey : Bool → Bytes → Db → Bool × Db
revoke_pubkey false pubkey db = (false, db)
revoke_pubkey true pubkey db =
    (true, record db { allowed_pubkeys = erase pubkey db.allowed_pubkeys })

abbrev older : Bytes × AllowedPubkey → Bytes × AllowedPubkey → Bool
older a b = leb a.1.created_at b.1.created_at

unfoldable pub list_allowed : Bool → Db → Option (List (Bytes × AllowedPubkey))
list_allowed false db = none
list_allowed true db = some (sort_by older db.allowed_pubkeys)

unfoldable pub load_allowed_set : Bool → Db → Option (List Bytes)
load_allowed_set false db = none
load_allowed_set true db = some (map (λ (row : Bytes × AllowedPubkey). row.0) db.allowed_pubkeys)

-- The row of a pubkey, or the column defaults if there is none (sql.ErrNoRows).
unfoldable pub state_of : Option CrawlState → CrawlState
state_of none = record { last_fetched = 0; last_full_sweep = 0; updated_at = 0 }
state_of (some row) = row

unfoldable pub last_fetched : Bool → Bytes → Db → Option ℕ
last_fetched false pubkey db = none
last_fetched true pubkey db = some (state_of (lookup pubkey db.crawl_state)).last_fetched

unfoldable pub last_swept : Bool → Bytes → Db → Option ℕ
last_swept false pubkey db = none
last_swept true pubkey db = some (state_of (lookup pubkey db.crawl_state)).last_full_sweep

-- INSERT … ON CONFLICT(pubkey) DO UPDATE of the two named columns
unfoldable pub mark_fetched : Bool → ℕ → Bytes → Db → Bool × Db
mark_fetched false now pubkey db = (false, db)
mark_fetched true now pubkey db =
    let row = state_of (lookup pubkey db.crawl_state) in
    (
      true,
      record db {
        crawl_state =
            put pubkey (record row { last_fetched = now; updated_at = now }) db.crawl_state;
      },
    )

unfoldable pub mark_swept : Bool → ℕ → Bytes → Db → Bool × Db
mark_swept false now pubkey db = (false, db)
mark_swept true now pubkey db =
    let row = state_of (lookup pubkey db.crawl_state) in
    (
      true,
      record db {
        crawl_state =
            put pubkey (record row { last_full_sweep = now; updated_at = now }) db.crawl_state;
      },
    )

-- INSERT OR REPLACE
unfoldable pub save_scheduled : Bool → Bytes → Bytes → ℕ → Db → Bool × Db
save_scheduled false id event_json publish_at db = (false, db)
save_scheduled true id event_json publish_at db = (
  true,
  record db {
    scheduled_events =
        put id (record { event_json = event_json; publish_at = publish_at }) db.scheduled_events;
  },
)

unfoldable pub due_rows : ℕ → List (Bytes × Parked) → List (Bytes × Parked)
due_rows now [] = []
due_rows now ((id, p) ∷ rows) =
    let rest = due_rows now rows in if leb p.publish_at now then (id, p) ∷ rest else rest

abbrev earlier : Bytes × Parked → Bytes × Parked → Bool
earlier a b = leb a.1.publish_at b.1.publish_at

unfoldable pub load_due_scheduled : Bool → ℕ → ℕ → Db → Option (List (Bytes × Parked))
load_due_scheduled false now limit db = none
load_due_scheduled true now limit db =
    some (take limit (sort_by earlier (due_rows now db.scheduled_events)))

unfoldable pub delete_scheduled : Bool → Bytes → Db → Bool × Db
delete_scheduled false id db = (false, db)
delete_scheduled true id db = (true, record db { scheduled_events = erase id db.scheduled_events })
