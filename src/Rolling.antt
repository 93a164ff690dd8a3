-- ===== src/Rolling.antt =====
-- internal/stats/stats.go: what its refreshes have in common. A refresh deletes the buckets of a window
-- and inserts them again, each with the number of different ids that fall into it. A table is the list
-- of its rows; a query adds the rows of a bucket up, as the engine does when it merges parts.
pub mod Buckets
use archive_relay.Prelude.{
  ℕ, ◌+◌, Bool, true, false, not, List, [], ◌∷◌, ◌++◌, map, Bytes, eq_bytes, insert, length,
  KeyType, ◌==◌, if◌then◌else◌,
}

module _ {K : Type 0} ⦃kt : KeyType K⦄ where
  -- GROUP BY, over pairs of a bucket and an id.
  unfoldable pub keys_of : List (K × Bytes) → List K
  keys_of [] = []
  keys_of ((k, id) ∷ pairs) = insert k (keys_of pairs)

  -- The different ids of a bucket.
  unfoldable pub ids_of : K → List (K × Bytes) → List Bytes
  ids_of k [] = []
  ids_of k ((j, id) ∷ pairs) = let rest = ids_of k pairs in if j == k then insert id rest else rest

  -- count(DISTINCT id)
  unfoldable pub grouped : List (K × Bytes) → List (K × ℕ)
  grouped pairs = map (λ k. (k, length (ids_of k pairs))) (keys_of pairs)

  unfoldable pub total : K → List (K × ℕ) → ℕ
  total k [] = 0
  total k ((j, n) ∷ rows) = (if j == k then n else 0) + total k rows

  unfoldable pub prune : (K → Bool) → List (K × ℕ) → List (K × ℕ)
  prune window [] = []
  prune window ((k, n) ∷ rows) =
      let rest = prune window rows in if window k then rest else (k, n) ∷ rest

  -- `deletes` and `inserts` are whether the two statements succeed.
  unfoldable pub refresh_window :
      Bool → Bool → (K → Bool) → List (K × Bytes) → List (K × ℕ) → Bool × List (K × ℕ)
  refresh_window deletes inserts window pairs rows =
      if deletes
      then (if inserts
          then (true, prune window rows ++ grouped pairs)
          else (false, prune window rows))
      else (false, rows)
