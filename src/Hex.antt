-- ===== src/Hex.antt =====
-- Hexadecimal digests: `decode_lowercase_hex_32` and `hex_digest` of route.rs, and
-- `decode_sha256`, `decode_lowercase_sha256` and `bytes_hex` of main.rs. A message that the code
-- formats from a name is modelled by the name.
pub mod Digits
pub mod RoundTrip
use milk_carton.Base.{
  ℕ, ◌/◌, ◌%◌, ◌<◌, ◌≡◌, All, String, Bool, true, ◌&&◌, ◌||◌, not, Option, none, some, List, [],
  ◌∷◌, ◌++◌, Bytes, length, all, leb, ltb, if◌then◌else◌, Result, ok, err, bail_if, ◌>>=◌, ◌>>◌,
  nat_eq,
}
use Digits.{is_lowercase_hex, from_str_radix_16, hex_digit}

-- One turn of the loop over the pairs of `value`: a pair that cannot be read is the error.
unfoldable pub push_byte : String → Option ℕ → Result Bytes → Result Bytes
push_byte message none decoded = err message
push_byte message (some byte) (ok decoded) = ok (byte ∷ decoded)
push_byte message (some byte) (err e) = err e

unfoldable pub decode_pairs : String → Bytes → Result Bytes
decode_pairs message (a ∷ b ∷ rest) =
    push_byte message (from_str_radix_16 a b) (decode_pairs message rest)
decode_pairs message _ = ok []

unfoldable pub decode_lowercase_hex_32 : Bytes → String → Result Bytes
decode_lowercase_hex_32 value name = do
  bail_if (not (nat_eq (length value) 64) || not (all is_lowercase_hex value)) name
  decode_pairs name value

unfoldable pub hex_digest : Bytes → Bytes
hex_digest [] = []
hex_digest (byte ∷ digest) = hex_digit (byte / 16) ∷ hex_digit (byte % 16) ∷ hex_digest digest

unfoldable pub decode_sha256 : Bytes → Result Bytes
decode_sha256 value = do
  bail_if (not (nat_eq (length value) 64) || not (all (λ c. ltb c 128) value))
      "SHA-256 must contain 64 hexadecimal characters"
  decode_pairs "SHA-256 contains non-hexadecimal characters" value

unfoldable pub decode_lowercase_sha256 : Bytes → Result Bytes
decode_lowercase_sha256 value = do
  bail_if (not (nat_eq (length value) 64) || not (all is_lowercase_hex value))
      "sha256 must be exactly 64 lowercase hexadecimal characters"
  decode_sha256 value

-- What a `[u8; 32]` is: 32 numbers below 256.
pub record IsDigest (digest : Bytes) : Type 0 where
  pub size : length digest ≡ 32
  pub bytes : All (λ byte. byte < 256) digest
