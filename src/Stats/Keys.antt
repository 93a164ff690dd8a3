-- ===== src/Stats/Keys.antt =====
-- Pairs of keys are keys.
use archive_relay.Prelude.{◌≡◌, ◌↔◌, Bool, true, ◌&&◌, KeyType, ap, arith}

module _ {A B : Type 0} ⦃ka : KeyType A⦄ ⦃kb : KeyType B⦄ where
  unfoldable pub same_pair : A × B → A × B → Bool
  same_pair p q = ka.same p.0 q.0 && kb.same p.1 q.1

  pub same_pair_iff : (p q : A × B) → (same_pair p q ≡ true) ↔ (p ≡ q)
  unfolding same_pair
  same_pair_iff p q = (
    λ h. ground (arith, ka.same_iff p.0 q.0, kb.same_iff p.1 q.1),
    λ e. ground (
      arith,
      ka.same_iff p.0 q.0,
      kb.same_iff p.1 q.1,
      ap (λ (x : A × B). x.0) e,
      ap (λ (x : A × B). x.1) e,
    ),
  )

  instance abbrev pub eq_pair : KeyType (A × B)
  eq_pair = record { same = same_pair; same_iff = same_pair_iff }
