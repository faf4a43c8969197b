-- ===== src/Hex/Digits.antt =====
-- One hexadecimal digit, and `u8::from_str_radix(_, 16)` on two characters.
use milk_carton.Base.{
  ℕ, ◌+◌, ◌-◌, ◌*◌, ◌/◌, ◌%◌, ◌<◌, ◌≡◌, Bool, true, ◌&&◌, ◌||◌, Option, none, some, arith, leb, ltb,
  if◌then◌else◌, nat_eq,
}

unfoldable pub is_lowercase_hex : ℕ → Bool
is_lowercase_hex c = leb b'0' c && leb c b'9' || leb b'a' c && leb c b'f'

digit_value : ℕ → Option ℕ
digit_value c =
    if leb b'0' c && leb c b'9'
    then some (c - 48)
    else if leb b'a' c && leb c b'f'
    then some (c - 87)
    else if leb b'A' c && leb c b'F'
    then some (c - 55)
    else none

two_digits : Option ℕ → Option ℕ → Option ℕ
two_digits (some high) (some low) = some (high * 16 + low)
two_digits _ _ = none

-- The standard library takes one leading `+` from a number of more than one character.
unfoldable pub from_str_radix_16 : ℕ → ℕ → Option ℕ
unfolding digit_value two_digits
from_str_radix_16 a b =
    if nat_eq a b'+' then digit_value b else two_digits (digit_value a) (digit_value b)

-- The table `HEX`.
unfoldable pub hex_digit : ℕ → ℕ
hex_digit n = if ltb n 10 then n + 48 else n + 87

pub is_lowercase_hex-hex_digit : (n : ℕ) → n < 16 → is_lowercase_hex (hex_digit n) ≡ true
unfolding is_lowercase_hex hex_digit
is_lowercase_hex-hex_digit n h = ground arith

pub from_str_radix_16-hex_digit :
    (byte : ℕ)
    → byte < 256
    → from_str_radix_16 (hex_digit (byte / 16)) (hex_digit (byte % 16)) ≡ some byte
unfolding from_str_radix_16 hex_digit
from_str_radix_16-hex_digit byte h = ground arith

-- Two lowercase digits are read as a byte, and are the digits of that byte.
pub lowercase_pair :
    (a b : ℕ)
    → is_lowercase_hex a ≡ true
    → is_lowercase_hex b ≡ true
    → (byte : ℕ) × (from_str_radix_16 a b ≡ some byte)
      × (byte < 256)
      × (hex_digit (byte / 16) ≡ a)
      × (hex_digit (byte % 16) ≡ b)
unfolding is_lowercase_hex from_str_radix_16 hex_digit
lowercase_pair a b ha hb =
    (value a * 16 + value b, ground arith, ground arith, ground arith, ground arith)
  where
    value : ℕ → ℕ
    value c = if leb c b'9' then c - 48 else c - 87

pub is_lowercase_hex-is_ascii : (c : ℕ) → is_lowercase_hex c ≡ true → ltb c 128 ≡ true
unfolding is_lowercase_hex
is_lowercase_hex-is_ascii c h = ground arith
