-- ===== src/Stats/Tests.antt =====
-- internal/stats/stats.go with two notes of one day, one of which is stored twice, and a contact list.
use archive_relay.Prelude.{
  ℕ, ◌-◌, ◌*◌, ◌≡◌, refl, Bool, true, false, ◌&&◌, some, List, [], ◌∷◌, Bytes, bytes, bytes_eq,
  bytes_lt, eq_bytes, eq_nat, contains, insert, put, erase, sort_by, insert_sorted, length, leb,
  if◌then◌else◌,
}
use archive_relay.Rows.{Row}
use archive_relay.FilterSql.{tag_column}
use archive_relay.Rolling.{keys_of, ids_of, grouped, total, prune, refresh_window}
use archive_relay.Stats.Keys.{same_pair, eq_pair}
use archive_relay.Stats.{
  DayMetric, Service, Statements, refresh_daily, daily_pairs, refresh_followers, check_engine,
  swap_followers, follower_pairs, follows, first_by_pubkey, contact_lists, engagement, query_rows,
  scan_all,
}
use archive_relay.Stats.Daily.{ids_on, total-refresh_daily}
use archive_relay.Stats.Winners.{AreWinners, authors_naming}
use archive_relay.Stats.Followers.{is_atomic, total-refresh_followers}

abbrev row_of : Bytes → ℕ → List (List Bytes) → Row
row_of id kind tags = record {
  id = id;
  pubkey = bytes "alice";
  created_at = 10 * 86400;
  kind = kind;
  content = [];
  sig = [];
  tags_json = [];
  tags = tags;
  reply_to = [];
}

abbrev three_rows : List Row
three_rows = row_of (bytes "a") 1 [] ∷ row_of (bytes "b") 1 [] ∷ row_of (bytes "a") 1 [] ∷ []

abbrev none_dead : Bytes → Bool
none_dead id = false

abbrev old_table : List (DayMetric × ℕ)
old_table = ((10, bytes "posts"), 9) ∷ ((2, bytes "posts"), 5) ∷ []

two_posts :
    total (10, bytes "posts") (refresh_daily true true 11 none_dead three_rows old_table).1 ≡ 2
unfolding refresh_daily refresh_window daily_pairs grouped keys_of ids_of prune total insert
    contains same_pair bytes_eq
two_posts = refl

total-refresh_daily_example :
    total (10, bytes "posts") (refresh_daily true true 11 none_dead three_rows old_table).1 ≡ (
      if true && leb (11 - 3) 10
      then (if true then length (ids_on none_dead 10 (bytes "posts") three_rows) else 0)
      else total (10, bytes "posts") old_table)
total-refresh_daily_example =
    total-refresh_daily true true 11 none_dead three_rows old_table 10 (bytes "posts")

abbrev new_service : Service
new_service = record { engine_checked = false; engine_ok = false; counts = []; staging = [] }

abbrev up : Statements
up = record { engine = some (bytes "Atomic"); truncates = true; builds = true; exchanges = true }

abbrev contacts : List Row
contacts = row_of (bytes "c") 3 ((bytes "p" ∷ bytes "bob" ∷ []) ∷ []) ∷ three_rows

one_follower :
    total (bytes "bob") (refresh_followers up none_dead contacts new_service).1.counts ≡ 1
unfolding refresh_followers check_engine swap_followers follower_pairs contact_lists first_by_pubkey
    follows tag_column sort_by insert_sorted grouped keys_of ids_of total insert contains bytes_eq
    bytes_lt
one_follower = refl

total-refresh_followers_example :
    let r = refresh_followers up none_dead contacts new_service in
    (selected : List Row) × AreWinners none_dead contacts selected
    × (r.0 ≡ (is_atomic (some (bytes "Atomic")) new_service && (true && (true && true))))
    × (total (bytes "bob") r.1.counts ≡ (
        if r.0
        then length (authors_naming (bytes "bob") selected)
        else total (bytes "bob") new_service.counts))
total-refresh_followers_example =
    total-refresh_followers up none_dead contacts new_service (bytes "bob")

one_reaction :
    engagement (some (some (record { metric = bytes "zap"; count = 2; sats = 21 }) ∷ []))
    ≡ some ((bytes "zap_sats", 21) ∷ (bytes "zap", 2) ∷ [])
unfolding engagement query_rows scan_all put erase bytes_eq
one_reaction = refl
