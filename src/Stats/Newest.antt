-- ===== src/Stats/Newest.antt =====
-- internal/stats/stats.go: the contact lists that RefreshFollowers takes with LIMIT 1 BY pubkey.
use archive_relay.Prelude.{
  ◌≡◌, Bool, true, false, not, ◌||◌, List, [], ◌∷◌, Bytes, eq_bytes, contains, insert, All,
  IsSorted, insert_sorted, sort_by, sort_by-IsSorted, contains-insert, ◌==◌, if◌then◌else◌,
  if-cases, Bool-cases, inl, inr, arith,
}
use archive_relay.Rows.{Row}
use archive_relay.Reads.Merging.{bytes_lt-asym, bytes_lt-between}
use archive_relay.Stats.{newer, first_by_pubkey}

newer_total : (a b : Row) → newer a b ≡ false → newer b a ≡ true
newer_total a b h = ground (arith, bytes_lt-asym b.id a.id)

newer_trans : (a b c : Row) → newer a b ≡ true → newer b c ≡ true → newer a c ≡ true
newer_trans a b c h k = ground (arith, bytes_lt-between c.id b.id a.id)

-- A row stands before each row of its author.
abbrev pub outdoes : Row → Row → Bool
outdoes x y = not (y.pubkey == x.pubkey) || newer x y

All-insert_sorted :
    (P : Row → Type 0) (a : Row) (xs : List Row) → All P (insert_sorted newer a xs) → P a × All P xs
unfolding insert_sorted
All-insert_sorted P a [] h = h
All-insert_sorted P a (x ∷ xs) h = by_test (newer a x) (λ g. All-insert_sorted P a xs g) h
  where
    by_test :
        (b : Bool)
        → (All P (insert_sorted newer a xs) → P a × All P xs)
        → All P (if b then a ∷ x ∷ xs else x ∷ insert_sorted newer a xs)
        → P a × All P (x ∷ xs)
    by_test true ih h' = h'
    by_test false ih h' = let (pa, ps) = ih h'.1 in (pa, (h'.0, ps))

pub All-sort_by : (P : Row → Type 0) (xs : List Row) → All P (sort_by newer xs) → All P xs
unfolding sort_by
All-sort_by P [] h = tt
All-sort_by P (x ∷ xs) h =
    let (p, ps) = All-insert_sorted P x (sort_by newer xs) h in (p, All-sort_by P xs ps)

pub All-map : (P Q : Row → Type 0) (xs : List Row) → ((x : Row) → P x → Q x) → All P xs → All Q xs
All-map P Q [] f h = tt
All-map P Q (x ∷ xs) f h = (f x h.0, All-map P Q xs f h.1)

-- A row stands before all of the rows of its author, and its author was not seen before.
abbrev Chosen : List Bytes → List Row → Row → Type 0
Chosen seen xs z = (contains z.pubkey seen ≡ false) × All (λ y. outdoes z y ≡ true) xs

Chosen-cons :
    (seen : List Bytes) (x : Row) (xs : List Row) (z : Row)
    → Chosen (insert x.pubkey seen) xs z
    → Chosen seen (x ∷ xs) z
Chosen-cons seen x xs z (new, over) =
    let c = contains-insert x.pubkey z.pubkey seen in
    (ground (arith, new, c), (ground (arith, new, c), over))

outdoes_self : (x : Row) → outdoes x x ≡ true
outdoes_self x = elim (Bool-cases (newer x x)) [
  | inl h ↦ ground (arith, h)
  | inr h ↦ ground (arith, h, newer_total x x h)
]

first_by_pubkey-Chosen :
    (seen : List Bytes) (xs : List Row)
    → IsSorted newer xs
    → All (Chosen seen xs) (first_by_pubkey seen xs)
unfolding first_by_pubkey
first_by_pubkey-Chosen seen [] s = tt
first_by_pubkey-Chosen seen (x ∷ xs) s =
    let rest = first_by_pubkey (insert x.pubkey seen) xs in
    let ih : All (Chosen seen (x ∷ xs)) rest =
      All-map (Chosen (insert x.pubkey seen) xs) (Chosen seen (x ∷ xs)) rest
        (λ z h. Chosen-cons seen x xs z h) (first_by_pubkey-Chosen (insert x.pubkey seen) xs s.1) in
    if-cases (All (Chosen seen (x ∷ xs))) (contains x.pubkey seen) (λ _. ih)
      (λ new. (
        (
          new,
          (
            outdoes_self x,
            All-map (λ y. newer x y ≡ true) (λ y. outdoes x y ≡ true) xs (λ y h. ground (arith, h))
                s.0,
          ),
        ),
        ih,
      ))

-- Each row that LIMIT 1 BY pubkey takes is the newest of its author.
pub first_by_pubkey-outdoes :
    (xs : List Row)
    → All (λ x. All (λ y. outdoes x y ≡ true) xs) (first_by_pubkey [] (sort_by newer xs))
first_by_pubkey-outdoes xs =
    All-map (Chosen [] (sort_by newer xs)) (λ x. All (λ y. outdoes x y ≡ true) xs)
      (first_by_pubkey [] (sort_by newer xs)) (λ x c. All-sort_by (λ y. outdoes x y ≡ true) xs c.1)
      (first_by_pubkey-Chosen [] (sort_by newer xs)
        (sort_by-IsSorted newer newer_total newer_trans xs))
