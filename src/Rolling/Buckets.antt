-- ===== src/Rolling/Buckets.antt =====
-- internal/stats/stats.go: what a refresh leaves in each bucket.
use archive_relay.Prelude.{
  ℕ, ◌+◌, ◌≡◌, refl, sym, ap, ◌∙◌, Bool, true, false, ◌&&◌, List, [], ◌∷◌, ◌++◌, map, Bytes,
  eq_bytes, insert, contains, contains-insert, length, All, KeyType, ◌==◌, ==_iff, if◌then◌else◌,
  if-cases, Bool-cases, inl, inr, arith,
}
use archive_relay.Rolling.{keys_of, ids_of, grouped, total, prune, refresh_window}

module _ {K : Type 0} ⦃kt : KeyType K⦄ where
  total-append : (k : K) (xs ys : List (K × ℕ)) → total k (xs ++ ys) ≡ total k xs + total k ys
  unfolding total
  total-append k [] ys = omega arith
  total-append k ((j, n) ∷ xs) ys = omega (arith, total-append k xs ys)

  total-prune :
      (window : K → Bool) (k : K) (rows : List (K × ℕ))
      → total k (prune window rows) ≡ (if window k then 0 else total k rows)
  unfolding total prune
  total-prune window k [] = ground arith
  total-prune window k ((j, n) ∷ rows) = elim (Bool-cases (j == k)) [
    | inl same ↦
        let e : window j ≡ window k = ap window ((==_iff j k).0 same) in
        if-cases
          (λ (l : List (K × ℕ)). total k l ≡ (if window k then 0 else total k ((j, n) ∷ rows)))
          (window j) (λ h. ground (arith, total-prune window k rows))
          (λ h. ground (arith, total-prune window k rows))
    | inr other ↦
        if-cases
          (λ (l : List (K × ℕ)). total k l ≡ (if window k then 0 else total k ((j, n) ∷ rows)))
          (window j) (λ h. ground (arith, total-prune window k rows))
          (λ h. ground (arith, total-prune window k rows))
  ]

  total-map :
      (f : K → ℕ) (k : K) (pairs : List (K × Bytes))
      → total k (map (λ j. (j, f j)) (keys_of pairs))
        ≡ (if contains k (keys_of pairs) then f k else 0)
  unfolding total keys_of contains insert
  total-map f k [] = refl
  total-map f k ((j, id) ∷ pairs) =
      if-cases (λ (l : List K). total k (map (λ j. (j, f j)) l) ≡ (if contains k l then f k else 0))
        (contains j (keys_of pairs)) (λ _. total-map f k pairs)
        (λ new. elim (Bool-cases (j == k)) [
          | inl same ↦
              let e : j ≡ k = (==_iff j k).0 same in
              ground (arith, total-map f k pairs, ap f e, ap (λ x. contains x (keys_of pairs)) e)
          | inr other ↦ ground (arith, total-map f k pairs)
        ])

  ids_of-none :
      (k : K) (pairs : List (K × Bytes)) → contains k (keys_of pairs) ≡ false → ids_of k pairs ≡ []
  unfolding ids_of keys_of contains
  ids_of-none k [] h = refl
  ids_of-none k ((j, id) ∷ pairs) h =
      ground (arith, ids_of-none k pairs, contains-insert j k (keys_of pairs))

  pub total-grouped :
      (k : K) (pairs : List (K × Bytes)) → total k (grouped pairs) ≡ length (ids_of k pairs)
  unfolding grouped
  total-grouped k pairs =
      total-map (λ j. length (ids_of j pairs)) k pairs
      ∙ if-cases (λ n. n ≡ length (ids_of k pairs)) (contains k (keys_of pairs)) (λ _. refl)
          (λ h. sym (ap length (ids_of-none k pairs h)))

  ids_of-outside :
      (window : K → Bool) (k : K) (pairs : List (K × Bytes))
      → All (λ p. window p.0 ≡ true) pairs
      → window k ≡ false
      → ids_of k pairs ≡ []
  unfolding ids_of
  ids_of-outside window k [] a h = refl
  ids_of-outside window k ((j, id) ∷ pairs) a h = elim (Bool-cases (j == k)) [
    | inl same ↦ absurd (cc (ap window ((==_iff j k).0 same), a.0))
    | inr other ↦ rw other (ids_of-outside window k pairs a.1 h)
  ]

  -- A refresh whose delete fails changes nothing. Otherwise each bucket outside the window keeps its
  -- value, and each one inside has the number of the different ids that fall into it, or 0 if the
  -- insert fails.
  pub total-refresh_window :
      (deletes inserts : Bool) (window : K → Bool) (pairs : List (K × Bytes)) (rows : List (K × ℕ))
      (k : K)
      → All (λ p. window p.0 ≡ true) pairs
      → total k (refresh_window deletes inserts window pairs rows).1 ≡ (
          if deletes && window k
          then (if inserts then length (ids_of k pairs) else 0)
          else total k rows)
  unfolding refresh_window
  total-refresh_window false inserts window pairs rows k a = refl
  total-refresh_window true false window pairs rows k a = total-prune window k rows
  total-refresh_window true true window pairs rows k a =
      total-append k (prune window rows) (grouped pairs) ∙ elim (Bool-cases (window k)) [
        | inl h ↦ ground (arith, total-prune window k rows, total-grouped k pairs)
        | inr h ↦ ground (
          arith,
          total-prune window k rows,
          total-grouped k pairs,
          ap length (ids_of-outside window k pairs a h),
        )
      ]
