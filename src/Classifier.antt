-- ===== src/Classifier.antt =====
-- internal/store/classifier.go: which tier of tables a kind is stored in.
pub mod Scope
mod Tests
use archive_relay.Prelude.{
  ℕ, Bool, true, false, ◌||◌, ◌≡◌, ◌↔◌, Option, none, some, List, [], ◌∷◌, arith, nat_eq,
  if◌then◌else◌, lookup, eq_nat, KeyType,
}
use archive_relay.Nostr.{Event}

pub data Tier : Type 0 where
  permanent archive social drop : Tier

pub Tier-discrete : Discrete Tier
Tier-discrete = hlevel

abbrev pub same_tier : Tier → Tier → Bool
same_tier permanent permanent = true
same_tier archive archive = true
same_tier social social = true
same_tier drop drop = true
same_tier _ _ = false

pub same_tier_iff : (a b : Tier) → (same_tier a b ≡ true) ↔ (a ≡ b)
same_tier_iff permanent b = ground arith
same_tier_iff archive b = ground arith
same_tier_iff social b = ground arith
same_tier_iff drop b = ground arith

instance abbrev pub eq_tier : KeyType Tier
eq_tier = record { same = same_tier; same_iff = same_tier_iff }

abbrev pub is_drop : Tier → Bool
is_drop drop = true
is_drop _ = false

abbrev pub active_tiers : List Tier
active_tiers = permanent ∷ archive ∷ social ∷ []

abbrev pub in_scope_kinds : List ℕ
in_scope_kinds = 0 ∷ 1 ∷ 3 ∷ 6 ∷ 7 ∷ 16 ∷ 9735 ∷ 10002 ∷ []

unfoldable pub classify : ℕ → Tier
classify kind =
    if nat_eq kind 0 || nat_eq kind 3 || nat_eq kind 9735 || nat_eq kind 10002
    then permanent
    else if nat_eq kind 1
    then archive
    else if nat_eq kind 6 || nat_eq kind 7 || nat_eq kind 16
    then social
    else drop

unfoldable pub tier_for_kind : ℕ → Tier
unfolding classify
tier_for_kind kind = classify kind

-- The configured map from kinds to tiers.
abbrev pub Override : Type 0
Override = List (ℕ × Tier)

unfoldable pub classify_with_override : ℕ → Override → Tier
classify_with_override kind override = elim (lookup kind override) [
  | some t ↦ t
  | none ↦ classify kind
]

unfoldable pub tier_for_event : Event → Override → Tier
unfolding classify_with_override
tier_for_event evt override = classify_with_override evt.kind override

unfoldable pub is_replaceable_kind : ℕ → Bool
is_replaceable_kind kind = nat_eq kind 0 || nat_eq kind 3 || nat_eq kind 10002
