-- ===== src/Dedup/Hex.antt =====
-- `parseEventID` of internal/crawler/dedup.go: the 32 bytes behind an id of 64 hexadecimal digits.
use mathlib.Core.Option.{some-injective}
use archive_relay.Prelude.{
  ℕ, suc, ◌+◌, ◌-◌, ◌*◌, ◌/◌, ◌%◌, ◌<◌, ◌≡◌, refl, sym, ap, ◌&&◌, Option, none, some, List, [], ◌∷◌,
  Bytes, length, ltb, leb, nat_eq, if◌then◌else◌, arith, All,
}

abbrev pub Key : Type 0
Key = List ℕ

-- encoding/hex accepts digits of either case.
unfoldable pub from_hex_digit : ℕ → Option ℕ
from_hex_digit c =
    if leb b'0' c && leb c b'9'
    then some (c - 48)
    else if leb b'a' c && leb c b'f'
    then some (c - 87)
    else if leb b'A' c && leb c b'F'
    then some (c - 55)
    else none

-- One decoded byte, in front of the rest.
unfoldable pub join_byte : Option ℕ → Option ℕ → Option Key → Option Key
join_byte (some hi) (some lo) (some rest) = some ((hi * 16 + lo) ∷ rest)
join_byte (some hi) (some lo) none = none
join_byte (some hi) none rest = none
join_byte none lo rest = none

unfoldable pub hex_decode : Bytes → Option Key
hex_decode [] = some []
hex_decode (a ∷ []) = none
hex_decode (a ∷ b ∷ rest) = join_byte (from_hex_digit a) (from_hex_digit b) (hex_decode rest)

unfoldable pub parse_event_id : Bytes → Option Key
parse_event_id id = if nat_eq (length id) 64 then hex_decode id else none

-- hex.EncodeToString, in which the ids of the relay's own events are written
unfoldable pub to_hex_digit : ℕ → ℕ
to_hex_digit n = if ltb n 10 then n + 48 else n + 87

unfoldable pub hex_encode : Key → Bytes
unfolding to_hex_digit
hex_encode [] = []
hex_encode (b ∷ bs) = to_hex_digit (b / 16) ∷ to_hex_digit (b % 16) ∷ hex_encode bs

from_hex_digit-to_hex_digit : (n : ℕ) → n < 16 → from_hex_digit (to_hex_digit n) ≡ some n
unfolding from_hex_digit to_hex_digit
from_hex_digit-to_hex_digit n h = ground arith

hex_decode-hex_encode : (k : Key) → All (λ b. b < 256) k → hex_decode (hex_encode k) ≡ some k
unfolding hex_decode hex_encode join_byte
hex_decode-hex_encode [] h = refl
hex_decode-hex_encode (b ∷ bs) h = ground (
  arith,
  from_hex_digit-to_hex_digit (b / 16),
  from_hex_digit-to_hex_digit (b % 16),
  hex_decode-hex_encode bs h.1,
)

length-hex_encode : (k : Key) → length (hex_encode k) ≡ 2 * length k
unfolding hex_encode
length-hex_encode [] = refl
length-hex_encode (b ∷ bs) = omega (arith, length-hex_encode bs)

-- Every key of 32 bytes is the key of the id that spells it in hexadecimal.
pub parse_event_id-hex_encode :
    (k : Key) → length k ≡ 32 → All (λ b. b < 256) k → parse_event_id (hex_encode k) ≡ some k
unfolding parse_event_id
parse_event_id-hex_encode k len small =
    ground (arith, length-hex_encode k, hex_decode-hex_encode k small)

length-join_byte :
    (hi lo : Option ℕ) (r : Option Key) (k : Key)
    → join_byte hi lo r ≡ some k
    → (rest : Key) × (r ≡ some rest) × (length k ≡ suc (length rest))
unfolding join_byte
length-join_byte (some hi) (some lo) (some rest) k h =
    (rest, refl, ap length (sym (some-injective _ _ h)))
length-join_byte (some hi) (some lo) none k h = cc
length-join_byte (some hi) none r k h = cc
length-join_byte none lo r k h = cc

length-hex_decode : (id : Bytes) (k : Key) → hex_decode id ≡ some k → 2 * length k ≡ length id
unfolding hex_decode
length-hex_decode [] k h = rw (← some-injective [] k h) refl
length-hex_decode (a ∷ []) k h = cc
length-hex_decode (a ∷ b ∷ rest) k h =
    let (ks, e, len) =
      length-join_byte (from_hex_digit a) (from_hex_digit b) (hex_decode rest) k h in
    omega (arith, len, length-hex_decode rest ks e)

-- An accepted id has 64 bytes and its key has 32.
pub length-parse_event_id :
    (id : Bytes) (k : Key) → parse_event_id id ≡ some k → (length id ≡ 64) × (length k ≡ 32)
unfolding parse_event_id
length-parse_event_id id k h = ground (arith, length-hex_decode id k)
