-- ===== src/Reads/Routing.antt =====
-- internal/store/store.go: the tiers that a filter is looked up in beside the tier of an event.
use archive_relay.Prelude.{
  is_nil, ℕ, ◌≡◌, refl, ap, ◌∙◌, true, false, ◌||◌, List, [], ◌∷◌, ◌++◌, nat_eq_iff, eq_nat,
  contains, if-cases, ◌==◌, Bool-cases, inl, inr, arith,
}
use archive_relay.Nostr.{Filter, Event}
use archive_relay.Classifier.{
  Tier, permanent, archive, social, drop, same_tier_iff, eq_tier, is_drop, active_tiers, Override,
  classify_with_override, tier_for_event,
}
use archive_relay.FilterSql.Matches.{matches}
use archive_relay.Reads.{add_tier, tiers_of_kinds, tiers_for_filter}

contains-append :
    (t : Tier) (xs ys : List Tier) → contains t (xs ++ ys) ≡ (contains t xs || contains t ys)
unfolding contains
contains-append t [] ys = refl
contains-append t (x ∷ xs) ys = ground (arith, contains-append t xs ys)

contains-add_tier :
    (t u : Tier) (out : List Tier)
    → is_drop t ≡ false
    → contains t (add_tier u out) ≡ (u == t || contains t out)
unfolding add_tier
contains-add_tier t u out kept =
    if-cases (λ l. contains t l ≡ (u == t || contains t out)) (is_drop u)
      (λ gone. ground (arith, same_tier_iff u t))
      (λ _.
        if-cases (λ l. contains t l ≡ (u == t || contains t out)) (contains u out)
          (λ old. ground (arith, same_tier_iff u t)) (λ _. contains-append t out (u ∷ []) ∙ one))
  where
    one : (contains t out || contains t (u ∷ [])) ≡ (u == t || contains t out)
    one = unfold contains in ground arith

contains-tiers_of_kinds :
    (override : Override) (t : Tier) (kinds : List ℕ) (out : List Tier)
    → is_drop t ≡ false
    → contains t out ≡ true
    → contains t (tiers_of_kinds override kinds out) ≡ true
unfolding tiers_of_kinds
contains-tiers_of_kinds override t [] out kept h = h
contains-tiers_of_kinds override t (k ∷ kinds) out kept h =
    contains-tiers_of_kinds override t kinds (add_tier (classify_with_override k override) out) kept
      (ground (arith, contains-add_tier t (classify_with_override k override) out))

contains-tiers_of_kinds_self :
    (override : Override) (kind : ℕ) (kinds : List ℕ) (out : List Tier)
    → is_drop (classify_with_override kind override) ≡ false
    → contains kind kinds ≡ true
    → contains (classify_with_override kind override) (tiers_of_kinds override kinds out) ≡ true
unfolding tiers_of_kinds contains
contains-tiers_of_kinds_self override kind [] out kept h = cc
contains-tiers_of_kinds_self override kind (k ∷ kinds) out kept h =
    let t = classify_with_override kind override in
    let u = classify_with_override k override in
    elim (Bool-cases (k == kind)) [
      | inl same ↦
          let e : k ≡ kind = (nat_eq_iff k kind).0 same in
          let u_t : u ≡ t = ap (λ n. classify_with_override n override) e in
          contains-tiers_of_kinds override t kinds (add_tier u out) kept (
            contains-add_tier t u out kept
            ∙ ap (λ b. b || contains t out) ((same_tier_iff u t).1 u_t))
      | inr other ↦
          contains-tiers_of_kinds_self override kind kinds (add_tier u out) kept (ground arith)
    ]

active : (t : Tier) → is_drop t ≡ false → contains t active_tiers ≡ true
unfolding contains
active permanent h = refl
active archive h = refl
active social h = refl
active drop h = cc

-- Reads look where writes go: if an event matches a filter and its kind is stored, the tier that it
-- is stored in is among the tiers that the filter is looked up in, under the same override.
pub tiers_for_filter-matches :
    (f : Filter) (evt : Event) (override : Override)
    → matches f evt ≡ true
    → is_drop (tier_for_event evt override) ≡ false
    → contains (tier_for_event evt override) (tiers_for_filter f override) ≡ true
unfolding tiers_for_filter tier_for_event
tiers_for_filter-matches f evt override m kept =
    let t = classify_with_override evt.kind override in
    if-cases (λ l. contains t l ≡ true) (is_nil f.kinds) (λ _. active t kept)
      (λ some_kind.
        contains-tiers_of_kinds_self override evt.kind f.kinds [] kept (wanted m some_kind))
  where
    wanted : matches f evt ≡ true → is_nil f.kinds ≡ false → contains evt.kind f.kinds ≡ true
    wanted h e = unfold matches in ground arith
