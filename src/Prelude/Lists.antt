-- ===== src/Prelude/Lists.antt =====
-- Lists measured by native numbers, under the library's names.
use Prim.Native.Nat.{ℕ, zero, suc, ◌+◌, ◌-◌, ◌≤◌, min}
use mathlib.Core.Path.{◌≡◌, refl, sym, ap, subst, ◌∙◌}
use mathlib.Core.List.{List, [], ◌∷◌, ◌++◌, map, Memᴰ}
use mathlib.Core.Logic.{◌⊎◌, inl, inr}
use mathlib.Core.Bool.{Bool, true, false}
use native.Mathlib.Omega.{arith}

module _ {ℓ} {A : Type ℓ} where
  abbrev pub length : List A → ℕ
  length [] = 0
  length (x ∷ xs) = suc (length xs)

  abbrev pub take : ℕ → List A → List A
  take zero xs = []
  take (suc n) [] = []
  take (suc n) (x ∷ xs) = x ∷ take n xs

  abbrev pub drop : ℕ → List A → List A
  drop zero xs = xs
  drop (suc n) [] = []
  drop (suc n) (x ∷ xs) = drop n xs

  abbrev pub is_nil : List A → Bool
  is_nil [] = true
  is_nil (x ∷ xs) = false

  abbrev pub replicate : ℕ → A → List A
  replicate zero a = []
  replicate (suc n) a = a ∷ replicate n a

  pub length-append : (xs ys : List A) → length (xs ++ ys) ≡ length xs + length ys
  length-append [] ys = omega arith
  length-append (x ∷ xs) ys = omega (arith, length-append xs ys)

  pub take-append-drop : (n : ℕ) (xs : List A) → take n xs ++ drop n xs ≡ xs
  take-append-drop zero xs = refl
  take-append-drop (suc n) [] = refl
  take-append-drop (suc n) (x ∷ xs) = ap (λ t. x ∷ t) (take-append-drop n xs)

  pub length-take : (n : ℕ) (xs : List A) → length (take n xs) ≡ min n (length xs)
  length-take zero xs = omega arith
  length-take (suc n) [] = omega arith
  length-take (suc n) (x ∷ xs) = omega (arith, length-take n xs)

  pub length-drop : (n : ℕ) (xs : List A) → length (drop n xs) ≡ length xs - n
  length-drop zero xs = omega arith
  length-drop (suc n) [] = omega arith
  length-drop (suc n) (x ∷ xs) = omega (arith, length-drop n xs)

  pub take_all : (n : ℕ) (xs : List A) → length xs ≤ n → take n xs ≡ xs
  take_all zero [] h = refl
  take_all zero (x ∷ xs) h = elim h [ ]
  take_all (suc n) [] h = refl
  take_all (suc n) (x ∷ xs) h = ap (λ t. x ∷ t) (take_all n xs (omega arith))

  pub drop_all : (n : ℕ) (xs : List A) → length xs ≤ n → drop n xs ≡ []
  drop_all zero [] h = refl
  drop_all zero (x ∷ xs) h = elim h [ ]
  drop_all (suc n) [] h = refl
  drop_all (suc n) (x ∷ xs) h = drop_all n xs (omega arith)

  -- To rewrite how many elements are dropped.
  pub drop_eq : {m n : ℕ} (xs : List A) → m ≡ n → drop m xs ≡ drop n xs
  drop_eq xs e = ap (λ k. drop k xs) e

  pub drop-nil : (n : ℕ) → drop n [] ≡ []
  drop-nil zero = refl
  drop-nil (suc n) = refl

  pub drop-drop : (m n : ℕ) (xs : List A) → drop n (drop m xs) ≡ drop (m + n) xs
  drop-drop zero n xs = drop_eq {m = n} {n = 0 + n} xs (omega arith)
  drop-drop (suc m) n [] = drop-nil n ∙ sym (drop-nil (suc m + n))
  drop-drop (suc m) n (x ∷ xs) =
      drop-drop m n xs ∙ drop_eq {m = suc (m + n)} {n = suc m + n} (x ∷ xs) (omega arith)

  -- A prefix of `xs` is a prefix of `xs ++ ys`.
  pub take-append_le : (n : ℕ) (xs ys : List A) → n ≤ length xs → take n (xs ++ ys) ≡ take n xs
  take-append_le zero xs ys h = refl
  take-append_le (suc n) [] ys h = elim h [ ]
  take-append_le (suc n) (x ∷ xs) ys h = ap (λ t. x ∷ t) (take-append_le n xs ys (omega arith))

module _ {ℓ κ} {A : Type ℓ} {B : Type κ} where
  pub length-map : (xs : List A) (f : A → B) → length (map f xs) ≡ length xs
  length-map [] f = refl
  length-map (x ∷ xs) f = ap suc (length-map xs f)

-- Every element of a list satisfies `P`.
abbrev pub All {κ ℓ} : {A : Type ℓ} → (A → Type κ) → List A → Type κ
All P [] = Unit
All P (head ∷ rest) = P head × All P rest

module _ {ℓ κ} {A : Type ℓ} (P : A → Type κ) where
  pub All-append : (l m : List A) → All P l → All P m → All P (l ++ m)
  All-append [] m hl hm = hm
  All-append (head ∷ rest) m hl hm = (hl.0, All-append rest m hl.1 hm)

  pub All-take : (n : ℕ) (xs : List A) → All P xs → All P (take n xs)
  All-take zero xs h = tt
  All-take (suc n) [] h = tt
  All-take (suc n) (x ∷ xs) h = (h.0, All-take n xs h.1)

  pub All-drop : (n : ℕ) (xs : List A) → All P xs → All P (drop n xs)
  All-drop zero xs h = h
  All-drop (suc n) [] h = tt
  All-drop (suc n) (x ∷ xs) h = All-drop n xs h.1

  pub All-lookup : {a : A} (xs : List A) → All P xs → Memᴰ a xs → P a
  All-lookup [] h m = elim m [ ]
  All-lookup (x ∷ xs) h (Memᴰ.head e) = subst P (sym e) h.0
  All-lookup (x ∷ xs) h (Memᴰ.tail m) = All-lookup xs h.1 m

pub map-same {ℓ} : {A : Type ℓ} (xs : List A) → map (λ x. x) xs ≡ xs
map-same [] = refl
map-same (x ∷ xs) = ap (λ l. x ∷ l) (map-same xs)

module _ {ℓ} {A : Type ℓ} where
  pub Memᴰ-append_left : {x : A} (xs ys : List A) → Memᴰ x xs → Memᴰ x (xs ++ ys)
  Memᴰ-append_left [] ys m = elim m [ ]
  Memᴰ-append_left (y ∷ xs) ys (Memᴰ.head e) = Memᴰ.head e
  Memᴰ-append_left (y ∷ xs) ys (Memᴰ.tail m) = Memᴰ.tail (Memᴰ-append_left xs ys m)

  pub Memᴰ-append_last : (x : A) (xs : List A) → Memᴰ x (xs ++ x ∷ [])
  Memᴰ-append_last x [] = Memᴰ.head refl
  Memᴰ-append_last x (y ∷ xs) = Memᴰ.tail (Memᴰ-append_last x xs)

  pub Memᴰ-append_right : {x : A} (xs ys : List A) → Memᴰ x ys → Memᴰ x (xs ++ ys)
  Memᴰ-append_right [] ys m = m
  Memᴰ-append_right (y ∷ xs) ys m = Memᴰ.tail (Memᴰ-append_right xs ys m)

  pub Memᴰ-append : {x : A} (xs ys : List A) → Memᴰ x (xs ++ ys) → Memᴰ x xs ⊎ Memᴰ x ys
  Memᴰ-append [] ys m = inr m
  Memᴰ-append (y ∷ xs) ys (Memᴰ.head e) = inl (Memᴰ.head e)
  Memᴰ-append {x} (y ∷ xs) ys (Memᴰ.tail m) = left (Memᴰ-append xs ys m)
    where
      left : Memᴰ x xs ⊎ Memᴰ x ys → Memᴰ x (y ∷ xs) ⊎ Memᴰ x ys
      left (inl m') = inl (Memᴰ.tail m')
      left (inr m') = inr m'

  pub Memᴰ-take : {x : A} (n : ℕ) (xs : List A) → Memᴰ x (take n xs) → Memᴰ x xs
  Memᴰ-take zero xs m = elim m [ ]
  Memᴰ-take (suc n) [] m = elim m [ ]
  Memᴰ-take (suc n) (y ∷ xs) (Memᴰ.head e) = Memᴰ.head e
  Memᴰ-take (suc n) (y ∷ xs) (Memᴰ.tail m) = Memᴰ.tail (Memᴰ-take n xs m)

  pub take-length : (xs : List A) → take (length xs) xs ≡ xs
  take-length [] = refl
  take-length (x ∷ xs) = ap (λ l. x ∷ l) (take-length xs)
