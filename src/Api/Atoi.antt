-- ===== src/Api/Atoi.antt =====
-- strconv.Atoi of Go's standard library, as internal/api/api.go calls it: a sign or none, then decimal
-- digits, within 64 bits.
use archive_relay.Prelude.{
  ℕ, zero, suc, ◌+◌, ◌-◌, ◌*◌, ◌/◌, ◌%◌, ◌^◌, ◌<◌, ◌≡◌, refl, ap, ◌∙◌, Bool, true, false, ◌&&◌,
  Option, none, some, [], ◌∷◌, ◌++◌, Bytes, nat_eq, ltb, leb, if◌then◌else◌, if-cases, is_nil,
  arith,
}

pub data ℤ : Type 0 where
  pos : ℕ → ℤ
  negsuc : ℕ → ℤ

abbrev pub is_digit : ℕ → Bool
is_digit c = leb b'0' c && leb c b'9'

unfoldable pub digits : ℕ → Bytes → Option ℕ
digits acc [] = some acc
digits acc (c ∷ s) =
    let rest = digits (acc * 10 + (c - b'0')) s in if is_digit c then rest else none

abbrev pub in_range : Bool → Option ℕ → Option ℤ
in_range negative none = none
in_range false (some n) = if ltb n (2 ^ 63) then some (pos n) else none
in_range true (some n) =
    if nat_eq n 0 then some (pos 0) else if leb n (2 ^ 63) then some (negsuc (n - 1)) else none

abbrev pub unsigned : Bytes → Option ℕ
unsigned [] = none
unsigned (c ∷ s) = digits 0 (c ∷ s)

unfoldable pub atoi : Bytes → Option ℤ
atoi [] = none
atoi (c ∷ s) =
    if nat_eq c b'-'
    then in_range true (unsigned s)
    else if nat_eq c b'+'
    then in_range false (unsigned s)
    else in_range false (unsigned (c ∷ s))

-- strconv.Itoa of a number that is not negative, on enough fuel for its digits.
unfoldable pub itoa : ℕ → ℕ → Bytes
itoa zero n = []
itoa (suc fuel) n =
    let rest = itoa fuel (n / 10) ++ (b'0' + n % 10) ∷ [] in
    if ltb n 10 then (b'0' + n) ∷ [] else rest

digits-append :
    (acc n d : ℕ) (s : Bytes)
    → digits acc s ≡ some n
    → d < 10
    → digits acc (s ++ (b'0' + d) ∷ []) ≡ some (n * 10 + d)
unfolding digits
digits-append acc n d [] h l = ground arith
digits-append acc n d (c ∷ s) h l = ground (arith, digits-append (acc * 10 + (c - b'0')) n d s)

digits-itoa : (fuel n : ℕ) → n < fuel → digits 0 (itoa fuel n) ≡ some n
unfolding itoa
digits-itoa zero n h = elim h [ ]
digits-itoa (suc fuel) n h =
    if-cases (λ s. digits 0 s ≡ some n) (ltb n 10) (λ small. unfold digits in ground arith)
      (λ large.
        let shorter : n / 10 < fuel = ground arith in
        digits-append 0 (n / 10) (n % 10) (itoa fuel (n / 10)) (digits-itoa fuel (n / 10) shorter)
          (omega arith)
        ∙ ap (λ k. some k) (omega arith))

is_nil-append : (s : Bytes) (c : ℕ) → is_nil (s ++ c ∷ []) ≡ false
is_nil-append [] c = refl
is_nil-append (x ∷ s) c = refl

is_nil-itoa : (fuel n : ℕ) → is_nil (itoa (suc fuel) n) ≡ false
unfolding itoa
is_nil-itoa fuel n =
    if-cases (λ (s : Bytes). is_nil s ≡ false) (ltb n 10) (λ _. refl)
      (λ _. is_nil-append (itoa fuel (n / 10)) (b'0' + n % 10))

atoi-digits :
    (s : Bytes) (n : ℕ)
    → digits 0 s ≡ some n
    → is_nil s ≡ false
    → n < 2 ^ 63
    → atoi s ≡ some (pos n)
unfolding atoi digits
atoi-digits [] n d e l = cc
atoi-digits (c ∷ s) n d e l =
    if-cases (λ (o : Option ℤ). o ≡ some (pos n)) (nat_eq c b'-') (λ h. ground arith)
      (λ h.
        if-cases (λ (o : Option ℤ). o ≡ some (pos n)) (nat_eq c b'+') (λ k. ground arith)
          (λ k. ap (in_range false) d ∙ small))
  where
    small : in_range false (some n) ≡ some (pos n)
    small = ground arith

-- The text of a number below 2^63 is read back as that number.
pub atoi-itoa : (n : ℕ) → n < 2 ^ 63 → atoi (itoa (suc n) n) ≡ some (pos n)
atoi-itoa n l =
    atoi-digits (itoa (suc n) n) n (digits-itoa (suc n) n (omega arith)) (is_nil-itoa n n) l
