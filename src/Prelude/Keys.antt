-- ===== src/Prelude/Keys.antt =====
-- Go's `map[K]struct{}` and `map[K]V`, as lists searched by a Boolean equality on the keys.
use Prim.Native.Nat.{ℕ, ◌+◌, ◌≤◌}
use mathlib.Core.Path.{◌≡◌, refl}
use mathlib.Core.Logic.{◌↔◌, inl, inr}
use mathlib.Core.Bool.{Bool, true, false, not, ◌&&◌, ◌||◌}
use mathlib.Core.Option.{Option, none, some}
use mathlib.Core.List.{List, [], ◌∷◌}
use native.Mathlib.Omega.{arith}
use archive_relay.Prelude.Tests.{nat_eq, nat_eq_iff, if◌then◌else◌, Bool-cases}
use archive_relay.Prelude.Lists.{length}

-- A type of keys: one whose equality Go's `==` decides.
pub record KeyType {κ} (K : Type κ) : Type κ where
  pub same : K → K → Bool
  pub same_iff : (k j : K) → (same k j ≡ true) ↔ (k ≡ j)

instance abbrev pub eq_nat : KeyType ℕ
eq_nat = record { same = nat_eq; same_iff = nat_eq_iff }

module _ {κ} {K : Type κ} ⦃kt : KeyType K⦄ where
  infix 50 ◌==◌
  abbrev pub ◌==◌ : K → K → Bool
  k == j = kt.same k j

  pub ==_iff : (k j : K) → ((k == j) ≡ true) ↔ (k ≡ j)
  ==_iff k j = kt.same_iff k j

  pub ==_self : (k : K) → (k == k) ≡ true
  ==_self k = (kt.same_iff k k).1 refl

-- A set of keys without repetitions: `_, ok := m[k]`, `m[k] = struct{}{}`, `delete(m, k)`.
module _ {ℓ} {A : Type ℓ} ⦃kt : KeyType A⦄ where
  unfoldable pub contains : A → List A → Bool
  contains a [] = false
  contains a (k ∷ m) = k == a || contains a m

  unfoldable pub insert : A → List A → List A
  insert a m = if contains a m then m else a ∷ m

  unfoldable pub delete : A → List A → List A
  delete a [] = []
  delete a (x ∷ xs) = let rest = delete a xs in if x == a then rest else x ∷ rest

  pub contains-nil : (a : A) → contains a [] ≡ false
  unfolding contains
  contains-nil a = refl

  pub contains-insert :
      (a b : A) (xs : List A) → contains b (insert a xs) ≡ (a == b || contains b xs)
  unfolding insert contains
  contains-insert a b xs = elim (Bool-cases (contains a xs)) [
    | inl old ↦ ground (arith, kt.same_iff a b, old)
    | inr new ↦ rw new
  ]

  pub contains-delete :
      (a b : A) (xs : List A) → contains b (delete a xs) ≡ (not (a == b) && contains b xs)
  unfolding delete contains
  contains-delete a b [] = ground arith
  contains-delete a b (x ∷ xs) =
      ground (arith, contains-delete a b xs, kt.same_iff x a, kt.same_iff x b, kt.same_iff a b)

  pub length-insert : (a : A) (xs : List A) → length (insert a xs) ≤ length xs + 1
  unfolding insert
  length-insert a xs = ground arith

  pub length-delete : (a : A) (xs : List A) → length (delete a xs) ≤ length xs
  unfolding delete
  length-delete a [] = omega arith
  length-delete a (x ∷ xs) = ground (arith, length-delete a xs)

  pub delete_absent : (a : A) (xs : List A) → contains a xs ≡ false → delete a xs ≡ xs
  unfolding delete contains
  delete_absent a [] h = refl
  delete_absent a (x ∷ xs) h = ground (arith, delete_absent a xs)

-- A map from keys to values.
module _ {ℓ κ} {A : Type ℓ} {V : Type κ} ⦃kt : KeyType A⦄ where
  unfoldable pub lookup : A → List (A × V) → Option V
  lookup k [] = none
  lookup k ((j, v) ∷ m) = if j == k then some v else lookup k m

  unfoldable pub erase : A → List (A × V) → List (A × V)
  erase k [] = []
  erase k ((j, v) ∷ m) = let rest = erase k m in if j == k then rest else (j, v) ∷ rest

  unfoldable pub put : A → V → List (A × V) → List (A × V)
  unfolding erase
  put k v m = (k, v) ∷ erase k m

  pub lookup-erase :
      (k j : A) (m : List (A × V)) → lookup j (erase k m) ≡ (if k == j then none else lookup j m)
  unfolding lookup erase
  lookup-erase k j [] = ground arith
  lookup-erase k j ((i, v) ∷ m) =
      ground (arith, lookup-erase k j m, kt.same_iff i k, kt.same_iff i j, kt.same_iff k j)

  pub lookup-put :
      (k j : A) (v : V) (m : List (A × V))
      → lookup j (put k v m) ≡ (if k == j then some v else lookup j m)
  unfolding lookup put
  lookup-put k j v m = ground (arith, lookup-erase k j m)
