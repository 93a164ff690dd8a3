-- ===== src/Prelude/Merge.antt =====
-- The first elements of a sorted list, when the lists that it is made of are cut short.
use Prim.Native.Nat.{ℕ, zero, suc}
use mathlib.Core.Path.{◌≡◌, refl, sym, ap, ◌∙◌}
use mathlib.Core.Logic.{◌⊎◌, inl, inr}
use mathlib.Core.Bool.{Bool, true, false}
use mathlib.Core.List.{List, [], ◌∷◌, ◌++◌, map}
use archive_relay.Prelude.Tests.{if◌then◌else◌, Bool-cases}
use archive_relay.Prelude.Lists.{All, All-take, take}
use archive_relay.Prelude.Sort.{insert_sorted, sort_by, IsSorted}

abbrev pub concat {ℓ} : {A : Type ℓ} → List (List A) → List A
concat [] = []
concat (l ∷ ls) = l ++ concat ls

module _ {ℓ} {A : Type ℓ} (le : A → A → Bool) where
  -- The smaller head first, that of the first list on a tie.
  merge_into : A → (List A → List A) → List A → List A
  merge_into a rest [] = a ∷ rest []
  merge_into a rest (e ∷ es) =
      let later = merge_into a rest es in if le a e then a ∷ rest (e ∷ es) else e ∷ later

  merge : List A → List A → List A
  merge [] es = es
  merge (a ∷ as') es = merge_into a (merge as') es

  take-take : (n : ℕ) (xs : List A) → take n (take n xs) ≡ take n xs
  take-take zero xs = refl
  take-take (suc n) [] = refl
  take-take (suc n) (x ∷ xs) = ap (λ l. x ∷ l) (take-take n xs)

  take-take-suc : (n : ℕ) (xs : List A) → take n (take (suc n) xs) ≡ take n xs
  take-take-suc zero xs = refl
  take-take-suc (suc n) [] = refl
  take-take-suc (suc n) (x ∷ xs) = ap (λ l. x ∷ l) (take-take-suc n xs)

  merge-nil : (xs : List A) → merge xs [] ≡ xs
  unfolding merge merge_into
  merge-nil [] = refl
  merge-nil (x ∷ xs) = ap (λ l. x ∷ l) (merge-nil xs)

  take-merge-take : (n : ℕ) (xs es : List A) → take n (merge (take n xs) es) ≡ take n (merge xs es)
  unfolding merge merge_into
  take-merge-take zero xs es = refl
  take-merge-take (suc n) [] es = refl
  take-merge-take (suc n) (x ∷ xs) [] =
      ap (λ l. x ∷ l)
        (ap (take n) (merge-nil (take n xs)) ∙ take-take n xs ∙ sym (ap (take n) (merge-nil xs)))
  take-merge-take (suc n) (x ∷ xs) (e ∷ es) = elim (Bool-cases (le x e)) [
    | inl h ↦ rw h (ap (λ l. x ∷ l) (take-merge-take n xs (e ∷ es)))
    | inr h ↦ rw h (
        ap (λ l. e ∷ l)
          (sym (take-merge-take n (x ∷ take n xs) es)
            ∙ ap (λ l. take n (merge l es)) (take-take-suc n (x ∷ xs))
            ∙ take-merge-take n (x ∷ xs) es))
  ]

  take-merge-take_right :
      (n : ℕ) (xs es : List A) → take n (merge xs (take n es)) ≡ take n (merge xs es)
  unfolding merge merge_into
  take-merge-take_right zero xs es = refl
  take-merge-take_right (suc n) [] es = take-take (suc n) es
  take-merge-take_right (suc n) (x ∷ xs) [] = refl
  take-merge-take_right (suc n) (x ∷ xs) (e ∷ es) = elim (Bool-cases (le x e)) [
    | inl h ↦ rw h (
        ap (λ l. x ∷ l)
          (sym (take-merge-take_right n xs (e ∷ take n es))
            ∙ ap (λ l. take n (merge xs l)) (take-take-suc n (e ∷ es))
            ∙ take-merge-take_right n xs (e ∷ es)))
    | inr h ↦ rw h (ap (λ l. e ∷ l) (take-merge-take_right n (x ∷ xs) es))
  ]

module _ {ℓ} {A : Type ℓ} (le : A → A → Bool) (total : (a b : A) → le a b ≡ false → le b a ≡ true)
    (trans : (a b c : A) → le a b ≡ true → le b c ≡ true → le a c ≡ true) where
  insert_sorted-merge :
      (a : A) (xs es : List A)
      → All (λ x. le a x ≡ true) xs
      → insert_sorted le a (merge le xs es) ≡ merge le (a ∷ xs) es
  unfolding merge merge_into insert_sorted
  insert_sorted-merge a [] [] h = refl
  insert_sorted-merge a [] (e ∷ es) h = elim (Bool-cases (le a e)) [
    | inl before ↦ rw before refl
    | inr after ↦ rw after (ap (λ l. e ∷ l) (insert_sorted-merge a [] es tt))
  ]
  insert_sorted-merge a (x ∷ xs) [] h = rw h.0 refl
  insert_sorted-merge a (x ∷ xs) (e ∷ es) h = elim (Bool-cases (le a e)) [
    | inl before ↦ rw before (first (Bool-cases (le x e)) before)
    | inr after ↦
        rw after (second (Bool-cases (le x e)) after (insert_sorted-merge a (x ∷ xs) es h))
  ]
    where
      first :
          (le x e ≡ true) ⊎ (le x e ≡ false)
          → le a e ≡ true
          → insert_sorted le a (merge le (x ∷ xs) (e ∷ es)) ≡ a ∷ merge le (x ∷ xs) (e ∷ es)
      first (inl t) before = rw (t, h.0) refl
      first (inr t) before = rw (t, before) refl

      second :
          (le x e ≡ true) ⊎ (le x e ≡ false)
          → le a e ≡ false
          → insert_sorted le a (merge le (x ∷ xs) es) ≡ merge le (a ∷ x ∷ xs) es
          → insert_sorted le a (merge le (x ∷ xs) (e ∷ es)) ≡ e ∷ merge le (a ∷ x ∷ xs) es
      second (inl t) after ih = absurd (cc (trans a x e h.0 t))
      second (inr t) after ih = rw (t, after) (ap (λ l. e ∷ l) ih)

  sort_by-append :
      (xs ys : List A) → IsSorted le xs → sort_by le (xs ++ ys) ≡ merge le xs (sort_by le ys)
  unfolding sort_by
  sort_by-append [] ys s = unfold merge in refl
  sort_by-append (x ∷ xs) ys s =
      ap (insert_sorted le x) (sort_by-append xs ys s.1)
      ∙ insert_sorted-merge x xs (sort_by le ys) s.0

  pub IsSorted-take : (n : ℕ) (xs : List A) → IsSorted le xs → IsSorted le (take n xs)
  IsSorted-take zero xs s = tt
  IsSorted-take (suc n) [] s = tt
  IsSorted-take (suc n) (x ∷ xs) s = (All-take _ n xs s.0, IsSorted-take n xs s.1)

  -- To know the first `n` of a union it is enough to know the first `n` of each part.
  pub take-sort_by-concat :
      (n : ℕ) (ls : List (List A))
      → All (IsSorted le) ls
      → take n (sort_by le (concat (map (take n) ls))) ≡ take n (sort_by le (concat ls))
  take-sort_by-concat n [] s = refl
  take-sort_by-concat n (l ∷ ls) s =
      let cut = concat (map (take n) ls) in
      ap (take n) (sort_by-append (take n l) cut (IsSorted-take n l s.0))
      ∙ take-merge-take le n l (sort_by le cut)
      ∙ sym (take-merge-take_right le n l (sort_by le cut))
      ∙ ap (λ es. take n (merge le l es)) (take-sort_by-concat n ls s.1)
      ∙ take-merge-take_right le n l (sort_by le (concat ls))
      ∙ ap (take n) (sym (sort_by-append l (concat ls) s.0))
