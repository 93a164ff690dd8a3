-- ===== src/Prelude/Order.antt =====
-- The order of texts as a relation, beside the comparison of Prelude/Strings.
use Prim.Native.Nat.{ℕ, ◌<◌}
use mathlib.Core.Path.{◌≡◌, refl}
use mathlib.Core.Logic.{◌⊎◌, inl, inr}
use mathlib.Core.Bool.{true, false}
use mathlib.Core.List.{[], ◌∷◌}
use native.Mathlib.Omega.{arith}
use archive_relay.Prelude.Tests.{ltb, nat_eq, nat_eq_iff, Bool-cases}
use archive_relay.Prelude.Strings.{Bytes, bytes_lt}

-- The first text stands before the second in a dictionary.
pub data Before : Bytes → Bytes → Type 0 where
  shorter : {y : ℕ} {ys : Bytes} → Before [] (y ∷ ys)
  lower : {x y : ℕ} {xs ys : Bytes} → x < y → Before (x ∷ xs) (y ∷ ys)
  same : {x y : ℕ} {xs ys : Bytes} → x ≡ y → Before xs ys → Before (x ∷ xs) (y ∷ ys)

pub bytes_lt-Before : (a b : Bytes) → bytes_lt a b ≡ true → Before a b
unfolding bytes_lt
bytes_lt-Before [] [] h = absurd (cc h)
bytes_lt-Before [] (y ∷ b) h = shorter
bytes_lt-Before (x ∷ a) [] h = absurd (cc h)
bytes_lt-Before (x ∷ a) (y ∷ b) h = elim (Bool-cases (ltb x y)) [
  | inl l ↦ lower (ground (arith, l))
  | inr g ↦ same (ground (arith, g, h)) (bytes_lt-Before a b (ground (arith, g, h)))
]

pub bytes_lt-total : (a b : Bytes) → bytes_lt a b ≡ false → (a ≡ b) ⊎ Before b a
unfolding bytes_lt
bytes_lt-total [] [] h = inl refl
bytes_lt-total [] (y ∷ b) h = absurd (cc h)
bytes_lt-total (x ∷ a) [] h = inr shorter
bytes_lt-total (x ∷ a) (y ∷ b) h = elim (Bool-cases (nat_eq x y)) [
  | inl e ↦
      let e' : x ≡ y = (nat_eq_iff x y).0 e in
      elim (bytes_lt-total a b (ground (arith, h, e))) [
        | inl t ↦ inl (cc (e', t))
        | inr t ↦ inr (same (ground (arith, e')) t)
      ]
  | inr n ↦ inr (lower (ground (arith, h, n)))
]
