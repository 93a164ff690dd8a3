-- ===== src/Stats/Daily.antt =====
-- internal/stats/stats.go: the daily rollups after RefreshDaily.
use archive_relay.Prelude.{
  ℕ, ◌-◌, ◌*◌, ◌≡◌, refl, ap, ◌∙◌, inl, inr, Bool-cases, insert, nat_eq, ◌==◌, Bool, true, false,
  not, ◌&&◌, Option, none, some, List, [], ◌∷◌, Bytes, eq_bytes, eq_nat, leb, length, All,
  if◌then◌else◌, if-cases, arith,
}
use archive_relay.Rows.{Row}
use archive_relay.Rolling.{ids_of, total}
use archive_relay.Rolling.Buckets.{total-refresh_window}
use archive_relay.Stats.Keys.{same_pair, eq_pair}
use archive_relay.Stats.{
  DayMetric, day_of, daily_metric, on_day, with_metric, daily_pairs, last_days, refresh_daily,
}

daily_pairs-last_days :
    (today : ℕ) (dead : Bytes → Bool) (rows : List Row)
    → All (λ p. last_days today p.0 ≡ true) (daily_pairs today dead rows)
unfolding daily_pairs
daily_pairs-last_days today dead [] = tt
daily_pairs-last_days today dead (row ∷ rows) =
    let ih = daily_pairs-last_days today dead rows in
    if-cases (All (λ p. last_days today p.0 ≡ true))
      (leb ((today - 3) * 86400) row.created_at && not (dead row.id))
      (λ h. added (daily_metric row.kind) (ground arith) ih) (λ _. ih)
  where
    added :
        (m : Option Bytes)
        → leb (today - 3) (day_of row.created_at) ≡ true
        → All (λ p. last_days today p.0 ≡ true) (daily_pairs today dead rows)
        → All
            (λ p. last_days today p.0 ≡ true)
            (with_metric (on_day (day_of row.created_at) m) row.id (daily_pairs today dead rows))
    added none h ih = ih
    added (some metric) h ih = (h, ih)

abbrev pub is_metric : Bytes → Option Bytes → Bool
is_metric metric none = false
is_metric metric (some m) = m == metric

-- The different ids of the rows of a day and a metric that are not tombstoned.
unfoldable pub ids_on : (Bytes → Bool) → ℕ → Bytes → List Row → List Bytes
ids_on dead day metric [] = []
ids_on dead day metric (row ∷ rows) =
    let rest = ids_on dead day metric rows in
    if nat_eq (day_of row.created_at) day
      && is_metric metric (daily_metric row.kind)
      && not (dead row.id)
    then insert row.id rest
    else rest

ids_of-daily_pairs :
    (today : ℕ) (dead : Bytes → Bool) (rows : List Row) (day : ℕ) (metric : Bytes)
    → leb (today - 3) day ≡ true
    → ids_of (day, metric) (daily_pairs today dead rows) ≡ ids_on dead day metric rows
unfolding ids_of daily_pairs ids_on same_pair
ids_of-daily_pairs today dead [] day metric h = refl
ids_of-daily_pairs today dead (row ∷ rows) day metric h =
    by_metric (daily_metric row.kind) (ids_of-daily_pairs today dead rows day metric h)
  where
    by_metric :
        (m : Option Bytes)
        → ids_of (day, metric) (daily_pairs today dead rows) ≡ ids_on dead day metric rows
        → ids_of
            (day, metric)
            (if leb ((today - 3) * 86400) row.created_at && not (dead row.id)
              then with_metric
                  (on_day (day_of row.created_at) m)
                  row.id
                  (daily_pairs today dead rows)
              else daily_pairs today dead rows)
          ≡ (if nat_eq (day_of row.created_at) day && is_metric metric m && not (dead row.id)
              then insert row.id (ids_on dead day metric rows)
              else ids_on dead day metric rows)
    by_metric none ih =
        if-cases
          (λ (l : List (DayMetric × Bytes)). ids_of (day, metric) l ≡ (
            if nat_eq (day_of row.created_at) day && false && not (dead row.id)
            then insert row.id (ids_on dead day metric rows)
            else ids_on dead day metric rows))
          (leb ((today - 3) * 86400) row.created_at && not (dead row.id))
          (λ k. ground (arith, ih, h)) (λ k. ground (arith, ih, h))
    by_metric (some m) ih =
        if-cases
          (λ (l : List (DayMetric × Bytes)). ids_of (day, metric) l ≡ (
            if nat_eq (day_of row.created_at) day && (m == metric) && not (dead row.id)
            then insert row.id (ids_on dead day metric rows)
            else ids_on dead day metric rows))
          (leb ((today - 3) * 86400) row.created_at && not (dead row.id))
          (λ k. ground (arith, ih, h)) (λ k. ground (arith, ih, h))

-- After a refresh of the daily rollups, the value of a metric on one of the last three days, or on a
-- day from today on, is the number of the different ids of that day's live events of its kinds; all
-- older values are what they were. If the insert fails the values of those days are 0, and if the
-- delete fails nothing changes.
pub total-refresh_daily :
    (deletes inserts : Bool) (today : ℕ) (dead : Bytes → Bool) (rows : List Row)
    (table : List (DayMetric × ℕ)) (day : ℕ) (metric : Bytes)
    → total (day, metric) (refresh_daily deletes inserts today dead rows table).1 ≡ (
        if deletes && leb (today - 3) day
        then (if inserts then length (ids_on dead day metric rows) else 0)
        else total (day, metric) table)
unfolding refresh_daily
total-refresh_daily deletes inserts today dead rows table day metric =
    total-refresh_window deletes inserts (last_days today) (daily_pairs today dead rows) table
      (day, metric) (daily_pairs-last_days today dead rows)
    ∙ elim (Bool-cases (leb (today - 3) day)) [
      | inl h ↦ ground (arith, ap length (ids_of-daily_pairs today dead rows day metric h))
      | inr h ↦ ground arith
    ]
