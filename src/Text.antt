-- ===== src/Text.antt =====
-- The validators of texts in route.rs, and `is_json_content_type` of route.rs.
pub mod Utf8
use milk_carton.Base.{
  ℕ, ◌-◌, String, Bool, true, false, ◌&&◌, ◌||◌, not, Option, none, some, List, [], ◌∷◌, Bytes,
  codes, length, take, drop, all, any, leb, ltb, nat_eq, if◌then◌else◌, ◌==◌, ℕ-Eq, List-Eq, Result,
  ok, err, bail_if, context, ◌>>=◌, ◌>>◌,
}
use milk_carton.Hex.{decode_lowercase_hex_32}
use Utf8.{from_utf8, trim, split_first, eq_ignore_ascii_case}

abbrev pub max_model_bytes : ℕ
max_model_bytes = 256

abbrev pub max_image_reference_bytes : ℕ
max_image_reference_bytes = 2048

is_ascii_digit : ℕ → Bool
is_ascii_digit c = leb b'0' c && leb c b'9'

is_ascii_lowercase : ℕ → Bool
is_ascii_lowercase c = leb b'a' c && leb c b'z'

pub is_ascii_alphanumeric : ℕ → Bool
unfolding is_ascii_digit is_ascii_lowercase
is_ascii_alphanumeric c = is_ascii_digit c || is_ascii_lowercase c || leb b'A' c && leb c b'Z'

-- `char::is_ascii_control`, `is_ascii_graphic` and `is_ascii_whitespace`.
pub is_ascii_control : ℕ → Bool
is_ascii_control c = ltb c 32 || nat_eq c 127

is_ascii_graphic : ℕ → Bool
is_ascii_graphic c = leb 33 c && leb c 126

is_ascii_whitespace : ℕ → Bool
is_ascii_whitespace c = nat_eq c 9 || nat_eq c 10 || nat_eq c 12 || nat_eq c 13 || nat_eq c 32

first_is : (ℕ → Bool) → Bytes → Bool
first_is p [] = false
first_is p (c ∷ rest) = p c

-- `(1..=maximum).contains(&value.len())`
abbrev length_within : ℕ → Bytes → Bool
length_within maximum value = leb 1 (length value) && leb (length value) maximum

unfoldable pub valid_model_alias : Bytes → Bool
unfolding first_is is_ascii_alphanumeric
valid_model_alias value =
    length_within max_model_bytes value
    && first_is is_ascii_alphanumeric value
    && all
        (λ c.
          is_ascii_alphanumeric c
          || nat_eq c b'-'
          || nat_eq c b'.'
          || nat_eq c b'/'
          || nat_eq c b':'
          || nat_eq c b'_')
        value

unfoldable pub valid_bounded_ascii : Bytes → ℕ → Bool
unfolding is_ascii_graphic
valid_bounded_ascii value maximum = length_within maximum value && all is_ascii_graphic value

unfoldable pub valid_harness_identifier : Bytes → Bool
unfolding first_is is_ascii_lowercase is_ascii_digit
valid_harness_identifier value =
    length_within 128 value
    && first_is (λ c. is_ascii_lowercase c || is_ascii_digit c) value
    && all
        (λ c.
          is_ascii_lowercase c
          || is_ascii_digit c
          || nat_eq c b'.'
          || nat_eq c b'_'
          || nat_eq c b'-')
        value

-- Of route.rs: the header is bytes, and must be UTF-8.
unfoldable pub is_json_content_type : Option Bytes → Bool
unfolding from_utf8 trim split_first eq_ignore_ascii_case
is_json_content_type none = false
is_json_content_type (some value) = elim (from_utf8 value) [
  | none ↦ false
  | some text ↦ eq_ignore_ascii_case (trim (split_first b';' text)) (codes "application/json")
]
