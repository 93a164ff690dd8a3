-- ===== src/Prelude/Sort.antt =====
-- Insertion sort by a Boolean order: what `sort.Slice` and `ORDER BY` promise, in one of the orders
-- that they allow for ties.
use mathlib.Core.Path.{◌≡◌}
use mathlib.Core.Logic.{inl, inr}
use mathlib.Core.Bool.{Bool, true, false}
use mathlib.Core.List.{List, [], ◌∷◌, Perm}
use mathlib.Core.List.Perm
use archive_relay.Prelude.Tests.{if◌then◌else◌, Bool-cases}
use archive_relay.Prelude.Lists.{All}

module _ {ℓ} {A : Type ℓ} (le : A → A → Bool) where
  unfoldable pub insert_sorted : A → List A → List A
  insert_sorted a [] = a ∷ []
  insert_sorted a (x ∷ xs) = if le a x then a ∷ x ∷ xs else x ∷ insert_sorted a xs

  unfoldable pub sort_by : List A → List A
  sort_by [] = []
  sort_by (x ∷ xs) = insert_sorted x (sort_by xs)

  -- Each element is before all that follow it.
  abbrev pub IsSorted : List A → Type 0
  IsSorted [] = Unit
  IsSorted (x ∷ xs) = All (λ y. le x y ≡ true) xs × IsSorted xs

  insert_sorted-perm : (a : A) (xs : List A) → Perm (insert_sorted a xs) (a ∷ xs)
  unfolding insert_sorted
  insert_sorted-perm a [] = Perm.refl (a ∷ [])
  insert_sorted-perm a (x ∷ xs) = elim (Bool-cases (le a x)) [
    | inl h ↦ rw h (Perm.refl (a ∷ x ∷ xs))
    | inr h ↦ rw h (Perm.trans (Perm.cons x (insert_sorted-perm a xs)) (Perm.swap a x xs))
  ]

  pub sort_by-perm : (xs : List A) → Perm (sort_by xs) xs
  unfolding sort_by
  sort_by-perm [] = Perm.refl []
  sort_by-perm (x ∷ xs) =
      Perm.trans (insert_sorted-perm x (sort_by xs)) (Perm.cons x (sort_by-perm xs))

module _ {ℓ} {A : Type ℓ} (le : A → A → Bool) (total : (a b : A) → le a b ≡ false → le b a ≡ true)
    (trans : (a b c : A) → le a b ≡ true → le b c ≡ true → le a c ≡ true) where
  All-trans :
      (a x : A) (xs : List A)
      → le a x ≡ true
      → All (λ y. le x y ≡ true) xs
      → All (λ y. le a y ≡ true) xs
  All-trans a x [] h hs = tt
  All-trans a x (y ∷ ys) h hs = (trans a x y h hs.0, All-trans a x ys h hs.1)

  All-insert_sorted :
      (x a : A) (xs : List A)
      → le x a ≡ true
      → All (λ y. le x y ≡ true) xs
      → All (λ y. le x y ≡ true) (insert_sorted le a xs)
  unfolding insert_sorted
  All-insert_sorted x a [] h hs = (h, tt)
  All-insert_sorted x a (y ∷ ys) h hs = elim (Bool-cases (le a y)) [
    | inl e ↦ rw e (h, hs)
    | inr e ↦ rw e (hs.0, All-insert_sorted x a ys h hs.1)
  ]

  insert_sorted-IsSorted :
      (a : A) (xs : List A) → IsSorted le xs → IsSorted le (insert_sorted le a xs)
  unfolding insert_sorted
  insert_sorted-IsSorted a [] s = (tt, tt)
  insert_sorted-IsSorted a (x ∷ xs) s = elim (Bool-cases (le a x)) [
    | inl e ↦ rw e ((e, All-trans a x xs e s.0), s)
    | inr e ↦ rw e (All-insert_sorted x a xs (total a x e) s.0, insert_sorted-IsSorted a xs s.1)
  ]

  pub sort_by-IsSorted : (xs : List A) → IsSorted le (sort_by le xs)
  unfolding sort_by
  sort_by-IsSorted [] = tt
  sort_by-IsSorted (x ∷ xs) = insert_sorted-IsSorted x (sort_by le xs) (sort_by-IsSorted xs)
