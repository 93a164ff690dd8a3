-- ===== src/Reads/Tests.antt =====
-- The reads of internal/store/store.go with two notes and a profile.
use archive_relay.Prelude.{
  ℕ, ◌≤◌, ◌≡◌, refl, Bool, true, false, Option, none, some, List, [], ◌∷◌, ◌++◌, bytes, bytes_eq,
  contains, insert, length, sort_by, insert_sorted,
}
use archive_relay.Nostr.{Filter, Event}
use archive_relay.Samples.{note_a, note_b, profile_a}
use archive_relay.Classifier.{
  Tier, permanent, archive, social, drop, eq_tier, is_drop, classify, classify_with_override,
  tier_for_event,
}
use archive_relay.FilterSql.Matches.{matches}
use archive_relay.Reads.{
  newest_first, sort_desc, tiers_for_filter, collect_tiers, split_kinds, split_feed_kinds,
  unique_ids, collect_feed, count_events,
}
use archive_relay.Reads.Routing.{tiers_for_filter-matches}

abbrev notes_since : Filter
notes_since = record {
  ids = [];
  authors = [];
  kinds = 1 ∷ 0 ∷ [];
  tags = [];
  since = some 900;
  until = none;
  limit = 2;
}

note_a-matches : matches notes_since note_a ≡ true
unfolding matches contains
note_a-matches = refl

note_a_stored : is_drop (tier_for_event note_a []) ≡ false
unfolding tier_for_event classify archive_relay.Prelude.lookup
note_a_stored = refl

tiers_for_filter-matches_example :
    contains (tier_for_event note_a []) (tiers_for_filter notes_since []) ≡ true
tiers_for_filter-matches_example =
    tiers_for_filter-matches notes_since note_a [] note_a-matches note_a_stored

abbrev stored_rows : Tier → List Event
stored_rows permanent = profile_a ∷ []
stored_rows archive = note_a ∷ note_b ∷ []
stored_rows social = []
stored_rows drop = []

abbrev archive_down : Tier → Option (List Event)
archive_down archive = none
archive_down t = some []

abbrev archive_uncounted : Tier → Option ℕ
archive_uncounted archive = none
archive_uncounted t = some 0

archive_in_filter : contains archive (tiers_for_filter notes_since []) ≡ true
unfolding tiers_for_filter archive_relay.Reads.tiers_of_kinds archive_relay.Reads.add_tier
    classify_with_override classify archive_relay.Prelude.lookup contains
archive_in_filter = refl

feed_answer :
    collect_feed notes_since [] 2 (some (note_a ∷ note_b ∷ note_a ∷ [])) (some (profile_a ∷ []))
    ≡ some (note_a ∷ note_b ∷ [])
unfolding collect_feed split_feed_kinds split_kinds unique_ids sort_desc newest_first sort_by
    insert_sorted contains insert bytes_eq classify_with_override classify
    archive_relay.Prelude.lookup archive_relay.Prelude.bytes_lt
feed_answer = refl
