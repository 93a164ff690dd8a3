-- ===== src/Stats.antt =====
-- internal/stats/stats.go: the snapshot tables and the answers of the stats API. The rows are those of
-- events_all (or of the tier that a query names), `dead` is dictHas of the tombstone dictionary, days
-- are those of UTC. Whether a statement succeeds is given with it.
pub mod Keys
pub mod Daily
pub mod Newest
pub mod Winners
pub mod Followers
mod Tests
use archive_relay.Prelude.{
  ℕ, ◌+◌, ◌-◌, ◌*◌, ◌/◌, Bool, true, false, not, ◌&&◌, ◌||◌, Option, none, some, List, [], ◌∷◌,
  ◌++◌, Bytes, bytes, bytes_eq, bytes_lt, eq_bytes, eq_nat, nat_eq, ltb, leb, contains, insert, put,
  sort_by, KeyType, ◌==◌, if◌then◌else◌,
}
use archive_relay.Rows.{Row}
use archive_relay.FilterSql.{tag_column, first_or_empty}
use archive_relay.Rolling.{grouped, refresh_window}
use archive_relay.Stats.Keys.{eq_pair}

abbrev pub day_of : ℕ → ℕ
day_of created_at = created_at / 86400

-- RefreshDaily. A metric is its text, which is not empty for these kinds.
abbrev pub daily_metric : ℕ → Option Bytes
daily_metric kind =
    if nat_eq kind 1
    then some (bytes "posts")
    else if nat_eq kind 7
    then some (bytes "reactions")
    else if nat_eq kind 6 || nat_eq kind 16
    then some (bytes "reposts")
    else if nat_eq kind 9735
    then some (bytes "zaps")
    else none

abbrev pub DayMetric : Type 0
DayMetric = ℕ × Bytes

abbrev pub with_metric {ℓ} : {K : Type ℓ} → Option K → Bytes → List (K × Bytes) → List (K × Bytes)
with_metric none id pairs = pairs
with_metric (some k) id pairs = (k, id) ∷ pairs

abbrev pub on_day : ℕ → Option Bytes → Option DayMetric
on_day day none = none
on_day day (some metric) = some (day, metric)

abbrev pub day_metric : Row → Option DayMetric
day_metric row = on_day (day_of row.created_at) (daily_metric row.kind)

unfoldable pub daily_pairs : ℕ → (Bytes → Bool) → List Row → List (DayMetric × Bytes)
daily_pairs today dead [] = []
daily_pairs today dead (row ∷ rows) =
    let rest = daily_pairs today dead rows in
    if leb ((today - 3) * 86400) row.created_at && not (dead row.id)
    then with_metric (day_metric row) row.id rest
    else rest

abbrev pub last_days : ℕ → DayMetric → Bool
last_days today key = leb (today - 3) key.0

unfoldable pub refresh_daily :
    Bool → Bool → ℕ → (Bytes → Bool) → List Row → List (DayMetric × ℕ) → Bool × List (DayMetric × ℕ)
refresh_daily deletes inserts today dead rows table =
    refresh_window deletes inserts (last_days today) (daily_pairs today dead rows) table

-- RefreshFollowers: the newest contact list of each author that is not tombstoned.
abbrev pub newer : Row → Row → Bool
newer a b =
    if nat_eq a.created_at b.created_at
    then not (bytes_lt b.id a.id)
    else ltb b.created_at a.created_at

unfoldable pub contact_lists : (Bytes → Bool) → List Row → List Row
contact_lists dead [] = []
contact_lists dead (row ∷ rows) =
    let rest = contact_lists dead rows in
    if nat_eq row.kind 3 && not (dead row.id) then row ∷ rest else rest

-- LIMIT 1 BY pubkey
unfoldable pub first_by_pubkey : List Bytes → List Row → List Row
first_by_pubkey seen [] = []
first_by_pubkey seen (row ∷ rows) =
    let rest = first_by_pubkey (insert row.pubkey seen) rows in
    if contains row.pubkey seen then rest else row ∷ rest

-- arrayJoin(tag_p)
abbrev pub each_tag : Bytes → List Bytes → List (Bytes × Bytes) → List (Bytes × Bytes)
each_tag author [] rest = rest
each_tag author (p ∷ ps) rest = (p, author) ∷ each_tag author ps rest

unfoldable pub follows : List Row → List (Bytes × Bytes)
follows [] = []
follows (row ∷ rows) = each_tag row.pubkey (tag_column (bytes "p") row.tags) (follows rows)

unfoldable pub follower_pairs : (Bytes → Bool) → List Row → List (Bytes × Bytes)
follower_pairs dead rows = follows (first_by_pubkey [] (sort_by newer (contact_lists dead rows)))

pub record Service : Type 0 where
  pub engine_checked : Bool
  pub engine_ok : Bool  -- `engineErr == nil`
  pub counts : List (Bytes × ℕ)  -- author_follower_counts
  pub staging : List (Bytes × ℕ)

-- What ClickHouse does with the statements of one refresh: the engine of the database, or an error;
-- then the truncation, the insert and the exchange.
pub record Statements : Type 0 where
  pub engine : Option Bytes
  pub truncates : Bool
  pub builds : Bool
  pub exchanges : Bool

unfoldable pub check_engine : Option Bytes → Service → Service
check_engine none s = s
check_engine (some engine) s =
    if s.engine_checked
    then s
    else record s { engine_checked = true; engine_ok = engine == bytes "Atomic" }

unfoldable pub swap_followers : Statements → List (Bytes × ℕ) → Service → Bool × Service
swap_followers ch fresh s =
    if not ch.truncates
    then (false, s)
    else if not ch.builds
    then (false, record s { staging = [] })
    else if not ch.exchanges
    then (false, record s { staging = fresh })
    else (true, record s { counts = fresh; staging = s.counts })

unfoldable pub refresh_followers : Statements → (Bytes → Bool) → List Row → Service → Bool × Service
refresh_followers ch dead rows s =
    let s' = check_engine ch.engine s in
    if s'.engine_checked && s'.engine_ok
    then swap_followers ch (grouped (follower_pairs dead rows)) s'
    else (false, s')

-- What a query of several rows answers: an error of the query, or the rows that Next gives, of which
-- one may fail to scan; rows.Err is not read.
abbrev pub scanned {ℓ} : {A : Type ℓ} → A → Option (List A) → Option (List A)
scanned row none = none
scanned row (some rest) = some (row ∷ rest)

unfoldable pub scan_all {ℓ} : {A : Type ℓ} → List (Option A) → Option (List A)
scan_all [] = some []
scan_all (none ∷ rows) = none
scan_all (some row ∷ rows) = scanned row (scan_all rows)

unfoldable pub query_rows {ℓ} : {A : Type ℓ} → Option (List (Option A)) → Option (List A)
query_rows none = none
query_rows (some rows) = scan_all rows

pub record DailyRow : Type 0 where
  pub day : ℕ
  pub metric : Bytes
  pub value : ℕ

pub record DauRow : Type 0 where
  pub day : ℕ
  pub active : ℕ

unfoldable pub daily : Option (List (Option DailyRow)) → Option (List DailyRow)
daily answer = query_rows answer

unfoldable pub dau : Option (List (Option DauRow)) → Option (List DauRow)
dau answer = query_rows answer

pub record MetricRow : Type 0 where
  pub metric : Bytes
  pub count : ℕ
  pub sats : ℕ

abbrev pub add_metrics : List MetricRow → List (Bytes × ℕ) → List (Bytes × ℕ)
add_metrics [] out = out
add_metrics (r ∷ rows) out =
    add_metrics rows (put (r.metric ++ bytes "_sats") r.sats (put r.metric r.count out))

abbrev pub engagement_of : Option (List MetricRow) → Option (List (Bytes × ℕ))
engagement_of none = none
engagement_of (some rows) = some (add_metrics rows [])

unfoldable pub engagement : Option (List (Option MetricRow)) → Option (List (Bytes × ℕ))
engagement answer = engagement_of (query_rows answer)

-- Followers: an error of the query, no row, or its count.
pub data Counted : Type 0 where
  query_error no_rows : Counted
  row : ℕ → Counted

unfoldable pub followers : Counted → Option ℕ
followers query_error = none
followers no_rows = some 0
followers (row n) = some n
