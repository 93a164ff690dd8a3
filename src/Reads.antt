-- ===== src/Reads.antt =====
-- The reads of internal/store/store.go, with feedEligible of internal/store/feed.go. What ClickHouse
-- answers to the query of a tier or of the feed is given: `none` is an error, of the query, of a row
-- or of the context.
pub mod Routing
pub mod Merging
pub mod Feeding
mod Tests
use archive_relay.Prelude.{
  is_nil, ℕ, ◌+◌, ◌-◌, ◌*◌, ◌^◌, Bool, true, false, not, ◌&&◌, ◌||◌, Option, none, some, List, [],
  ◌∷◌, ◌++◌, map, Bytes, bytes_lt, eq_bytes, eq_nat, nat_eq, ltb, length, take, contains, insert,
  sort_by, if◌then◌else◌, ◌==◌,
}
use archive_relay.Nostr.{Filter, Event}
use archive_relay.Classifier.{
  Tier, eq_tier, is_drop, active_tiers, in_scope_kinds, Override, classify_with_override,
}
use archive_relay.FilterSql.{query_limit}

unfoldable pub add_tier : Tier → List Tier → List Tier
add_tier t out = if is_drop t then out else if contains t out then out else out ++ t ∷ []

unfoldable pub tiers_of_kinds : Override → List ℕ → List Tier → List Tier
tiers_of_kinds override [] out = out
tiers_of_kinds override (k ∷ kinds) out =
    tiers_of_kinds override kinds (add_tier (classify_with_override k override) out)

unfoldable pub tiers_for_filter : Filter → Override → List Tier
tiers_for_filter f override =
    if is_nil f.kinds then active_tiers else tiers_of_kinds override f.kinds []

-- The order of sortDesc and of each tier's ORDER BY: created_at DESC, id ASC.
unfoldable pub newest_first : Event → Event → Bool
newest_first a b =
    if nat_eq a.created_at b.created_at
    then not (bytes_lt b.id a.id)
    else ltb b.created_at a.created_at

unfoldable pub sort_desc : List Event → List Event
sort_desc events = sort_by newest_first events

abbrev pub both : Option (List Event) → Option (List Event) → Option (List Event)
both none answer = none
both (some rows) none = none
both (some rows) (some more) = some (rows ++ more)

unfoldable pub collect_tiers : (Tier → Option (List Event)) → List Tier → Option (List Event)
collect_tiers answer [] = some []
collect_tiers answer (t ∷ tiers) = both (answer t) (collect_tiers answer tiers)

abbrev pub sort_and_trim : ℕ → Option (List Event) → Option (List Event)
sort_and_trim limit none = none
sort_and_trim limit (some collected) = some (take limit (sort_desc collected))

-- in nanoseconds
abbrev pub hour : ℕ
hour = 3600 * 10 ^ 9

abbrev pub feed_retention : ℕ
feed_retention = 7 * 24 * hour

abbrev pub any_dropped : Override → List ℕ → Bool
any_dropped override [] = false
any_dropped override (k ∷ kinds) =
    is_drop (classify_with_override k override) || any_dropped override kinds

abbrev pub recent : ℕ → Option ℕ → Bool
recent now none = false
recent now (some since) = not (ltb (since * 10 ^ 9 + (feed_retention - 2 * hour)) now)

abbrev pub no_time : Option ℕ → Bool
no_time none = true
no_time (some t) = false

unfoldable pub feed_eligible : ℕ → Filter → Override → Bool
feed_eligible now f override =
    is_nil f.ids
    && (is_nil f.authors
        && (is_nil f.tags
            && (no_time f.until && (recent now f.since && not (any_dropped override f.kinds)))))

abbrev pub replaceable_kinds : List ℕ
replaceable_kinds = 0 ∷ 3 ∷ 10002 ∷ []

abbrev pub kinds_or_all : List ℕ → List ℕ
kinds_or_all [] = in_scope_kinds
kinds_or_all (k ∷ kinds) = k ∷ kinds

unfoldable pub split_kinds : Override → List ℕ → List ℕ × List ℕ
split_kinds override [] = ([], [])
split_kinds override (k ∷ kinds) =
    let (a, b) = split_kinds override kinds in
    if is_drop (classify_with_override k override)
    then (a, b)
    else if contains k replaceable_kinds
    then (a, k ∷ b)
    else (k ∷ a, b)

unfoldable pub split_feed_kinds : List ℕ → Override → List ℕ × List ℕ
split_feed_kinds filter_kinds override = split_kinds override (kinds_or_all filter_kinds)

-- The rows with an id that is not in `seen`, nor that of an earlier row.
unfoldable pub unique_ids : List Bytes → List Event → List Event
unique_ids seen [] = []
unique_ids seen (e ∷ events) =
    let rest = unique_ids (insert e.id seen) events in if contains e.id seen then rest else e ∷ rest

abbrev pub feed_step : List ℕ → Option (List Event) → Option (List Event)
feed_step [] answer = some []
feed_step (k ∷ kinds) answer = answer

abbrev pub trim_unique : ℕ → Option (List Event) → Option (List Event)
trim_unique limit none = none
trim_unique limit (some collected) = some (take limit (sort_desc (unique_ids [] collected)))

-- `answer_a` and `answer_b` are what ClickHouse answers for the plain and for the replaceable kinds.
unfoldable pub collect_feed :
    Filter → Override → ℕ → Option (List Event) → Option (List Event) → Option (List Event)
collect_feed f override limit answer_a answer_b =
    let (kinds_a, kinds_b) = split_feed_kinds f.kinds override in
    trim_unique limit (both (feed_step kinds_a answer_a) (feed_step kinds_b answer_b))

abbrev pub or_tiers : Option (List Event) → Option (List Event) → Option (List Event)
or_tiers none scan = scan
or_tiers (some collected) scan = some collected

unfoldable pub collect_events :
    Bool
    → ℕ
    → Filter
    → Override
    → (Tier → Option (List Event))
    → Option (List Event)
    → Option (List Event)
    → Option (List Event)
collect_events has_feed now f override answer answer_a answer_b =
    let limit = query_limit f in
    let scan = sort_and_trim limit (collect_tiers answer (tiers_for_filter f override)) in
    if has_feed && feed_eligible now f override
    then or_tiers (collect_feed f override limit answer_a answer_b) scan
    else scan

-- CountEvents: the counts of the tiers are added up; `none` is an error.
abbrev pub plus_count : Option ℕ → Option ℕ → Option ℕ
plus_count none total = none
plus_count (some n) none = none
plus_count (some n) (some total) = some (n + total)

unfoldable pub count_tiers : (Tier → Option ℕ) → List Tier → Option ℕ
count_tiers count [] = some 0
count_tiers count (t ∷ tiers) = plus_count (count t) (count_tiers count tiers)

unfoldable pub count_events : (Tier → Option ℕ) → Filter → Override → Option ℕ
count_events count f override = count_tiers count (tiers_for_filter f override)
