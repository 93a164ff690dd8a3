-- ===== src/Reads/Merging.antt =====
-- internal/store/store.go: the merge of the tiers' answers under one limit.
use archive_relay.Prelude.{
  ℕ, ◌≡◌, refl, ap, ◌∙◌, Bool, true, false, ◌&&◌, Option, none, some, List, [], ◌∷◌, Bytes,
  bytes_lt, contains, ◌==◌, Bool-cases, inl, inr, arith,
}
use archive_relay.Nostr.{Filter, Event}
use archive_relay.Classifier.{Tier, Override, same_tier_iff, eq_tier}
use archive_relay.FilterSql.{query_limit}
use archive_relay.Reads.{
  newest_first, both, collect_tiers, sort_and_trim, feed_eligible, tiers_for_filter, collect_events,
  plus_count, count_tiers, count_events,
}

pub bytes_lt-asym : (a b : Bytes) → bytes_lt a b ≡ true → bytes_lt b a ≡ false
unfolding bytes_lt
bytes_lt-asym [] [] h = refl
bytes_lt-asym [] (y ∷ b) h = refl
bytes_lt-asym (x ∷ a) [] h = cc
bytes_lt-asym (x ∷ a) (y ∷ b) h = ground (arith, bytes_lt-asym a b)

pub bytes_lt-between :
    (a b c : Bytes) → bytes_lt a c ≡ true → bytes_lt b c ≡ false → bytes_lt a b ≡ true
unfolding bytes_lt
bytes_lt-between [] [] [] h k = cc
bytes_lt-between [] [] (z ∷ c) h k = cc
bytes_lt-between [] (y ∷ b) c h k = refl
bytes_lt-between (x ∷ a) b [] h k = cc
bytes_lt-between (x ∷ a) [] (z ∷ c) h k = cc
bytes_lt-between (x ∷ a) (y ∷ b) (z ∷ c) h k = ground (arith, bytes_lt-between a b c)

pub newest_first_total : (a b : Event) → newest_first a b ≡ false → newest_first b a ≡ true
unfolding newest_first
newest_first_total a b h = ground (arith, bytes_lt-asym b.id a.id)

pub newest_first_trans :
    (a b c : Event) → newest_first a b ≡ true → newest_first b c ≡ true → newest_first a c ≡ true
unfolding newest_first
newest_first_trans a b c h k = ground (arith, bytes_lt-between c.id b.id a.id)

collect_tiers-none :
    (answer : Tier → Option (List Event)) (count : Tier → Option ℕ) (tiers : List Tier) (t : Tier)
    → contains t tiers ≡ true
    → answer t ≡ none
    → count t ≡ none
    → (collect_tiers answer tiers ≡ none) × (count_tiers count tiers ≡ none)
unfolding collect_tiers count_tiers contains
collect_tiers-none answer count [] t m h k = cc
collect_tiers-none answer count (u ∷ tiers) t m h k = elim (Bool-cases (u == t)) [
  | inl e ↦
      let same = (same_tier_iff u t).0 e in
      (
        ap (λ o. both o (collect_tiers answer tiers)) (ap answer same ∙ h),
        ap (λ o. plus_count o (count_tiers count tiers)) (ap count same ∙ k),
      )
  | inr e ↦
      let ih = collect_tiers-none answer count tiers t (ground arith) h k in
      (
        ap (both (answer u)) ih.0 ∙ both-none (answer u),
        ap (plus_count (count u)) ih.1 ∙ plus-none (count u),
      )
]
  where
    both-none : (o : Option (List Event)) → both o none ≡ none
    both-none none = refl
    both-none (some rows) = refl

    plus-none : (o : Option ℕ) → plus_count o none ≡ none
    plus-none none = refl
    plus-none (some n) = refl

-- If a tier of the filter answers with an error and the feed is not used, QueryEvents and CountEvents
-- both end with an error, whatever the other tiers answer.
pub collect_events-none :
    (has_feed : Bool) (now : ℕ) (f : Filter) (override : Override)
    (answer : Tier → Option (List Event)) (answer_a answer_b : Option (List Event))
    (count : Tier → Option ℕ) (t : Tier)
    → (has_feed && feed_eligible now f override) ≡ false
    → contains t (tiers_for_filter f override) ≡ true
    → answer t ≡ none
    → count t ≡ none
    → (collect_events has_feed now f override answer answer_a answer_b ≡ none)
      × (count_events count f override ≡ none)
unfolding collect_events count_events
collect_events-none has_feed now f override answer answer_a answer_b count t no_feed m h k =
    let e = collect_tiers-none answer count (tiers_for_filter f override) t m h k in
    (rw no_feed (ap (sort_and_trim (query_limit f)) e.0), e.1)
