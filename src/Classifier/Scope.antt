-- ===== src/Classifier/Scope.antt =====
-- internal/store/classifier.go: the three switches over kinds beside one another.
use archive_relay.Prelude.{ℕ, true, not, ◌≡◌, arith, contains, none, some, lookup, eq_nat}
use archive_relay.Classifier.{
  Tier, permanent, is_drop, in_scope_kinds, classify, tier_for_kind, Override,
  classify_with_override, is_replaceable_kind,
}

-- A kind is classified into a stored tier exactly if it is on the list of kinds that the crawler
-- subscribes to.
pub classify-in_scope_kinds : (k : ℕ) → not (is_drop (classify k)) ≡ contains k in_scope_kinds
unfolding classify contains
classify-in_scope_kinds k = ground arith

-- Every replaceable kind is stored in the permanent tier.
pub classify-replaceable : (k : ℕ) → is_replaceable_kind k ≡ true → classify k ≡ permanent
unfolding classify is_replaceable_kind
classify-replaceable k h = ground arith

-- An override decides for the kinds that it names, and only for those.
pub classify_with_override_lem :
    (k : ℕ) (o : Override)
    → ((t : Tier) → lookup k o ≡ some t → classify_with_override k o ≡ t)
      × (lookup k o ≡ none → classify_with_override k o ≡ tier_for_kind k)
unfolding classify_with_override tier_for_kind
classify_with_override_lem k o = (λ t h. ground arith, λ h. ground arith)
