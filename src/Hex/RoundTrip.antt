-- ===== src/Hex/RoundTrip.antt =====
-- What the decoders and `hex_digest` have to do with each other.
use milk_carton.Base.{
  ℕ, ◌*◌, ◌/◌, ◌%◌, ◌<◌, ◌≡◌, refl, ◌↔◌, String, true, [], ◌∷◌, Bytes, length, all, All, Option,
  none, some, subst, Result, ok, err, arith, suc, ltb,
}
use milk_carton.Hex.Digits.{
  is_lowercase_hex, from_str_radix_16, hex_digit, is_lowercase_hex-hex_digit,
  from_str_radix_16-hex_digit, lowercase_pair, is_lowercase_hex-is_ascii,
}
use milk_carton.Hex.{
  push_byte, decode_pairs, decode_lowercase_hex_32, hex_digest, decode_sha256,
  decode_lowercase_sha256, IsDigest,
}

abbrev IsByte : ℕ → Type 0
IsByte byte = byte < 256

pub length-hex_digest : (digest : Bytes) → length (hex_digest digest) ≡ 2 * length digest
unfolding hex_digest
length-hex_digest [] = refl
length-hex_digest (x ∷ xs) = omega (arith, length-hex_digest xs)

all-hex_digest :
    (digest : Bytes) → All IsByte digest → all is_lowercase_hex (hex_digest digest) ≡ true
unfolding hex_digest
all-hex_digest [] h = refl
all-hex_digest (x ∷ xs) h = ground (
  arith,
  is_lowercase_hex-hex_digit (x / 16),
  is_lowercase_hex-hex_digit (x % 16),
  all-hex_digest xs h.1,
)

decode_pairs-hex_digest :
    (message : String) (digest : Bytes)
    → All IsByte digest
    → decode_pairs message (hex_digest digest) ≡ ok digest
unfolding hex_digest decode_pairs push_byte
decode_pairs-hex_digest message [] h = refl
decode_pairs-hex_digest message (x ∷ xs) h =
    ground (arith, from_str_radix_16-hex_digit x h.0, decode_pairs-hex_digest message xs h.1)

-- An even number of lowercase digits is decoded, whatever the message.
decode_pairs-lowercase :
    (message : String) (n : ℕ) (value : Bytes)
    → length value ≡ 2 * n
    → all is_lowercase_hex value ≡ true
    → (digest : Bytes) × (decode_pairs message value ≡ ok digest)
      × (All IsByte digest)
      × (hex_digest digest ≡ value)
      × (length digest ≡ n)
unfolding decode_pairs hex_digest push_byte
decode_pairs-lowercase message ℕ.zero [] h l = ([], refl, tt, refl, refl)
decode_pairs-lowercase message ℕ.zero (x ∷ xs) h l = absurd (omega arith)
decode_pairs-lowercase message (suc n) [] h l = absurd (omega arith)
decode_pairs-lowercase message (suc n) (a ∷ []) h l = absurd (omega arith)
decode_pairs-lowercase message (suc n) (a ∷ b ∷ rest) h l =
    joined (lowercase_pair a b (ground arith) (ground arith))
      (decode_pairs-lowercase message n rest (omega arith) (ground arith))
  where
    joined :
        (byte : ℕ) × (from_str_radix_16 a b ≡ some byte)
          × (byte < 256)
          × (hex_digit (byte / 16) ≡ a)
          × (hex_digit (byte % 16) ≡ b)
        → (digest : Bytes) × (decode_pairs message rest ≡ ok digest)
          × (All IsByte digest)
          × (hex_digest digest ≡ rest)
          × (length digest ≡ n)
        → (digest : Bytes) × (decode_pairs message (a ∷ b ∷ rest) ≡ ok digest)
          × (All IsByte digest)
          × (hex_digest digest ≡ a ∷ b ∷ rest)
          × (length digest ≡ suc n)
    joined (byte, read, small, high, low) (digest, decoded, bytes, same, size) =
        (byte ∷ digest, ground arith, (small, bytes), ground arith, omega arith)

-- The encoding of a digest of 32 bytes is decoded to that digest.
pub decode-hex_digest :
    (digest : Bytes) (name : String)
    → IsDigest digest
    → decode_lowercase_hex_32 (hex_digest digest) name ≡ ok digest
unfolding decode_lowercase_hex_32
decode-hex_digest digest name h = ground (
  arith,
  length-hex_digest digest,
  all-hex_digest digest h.bytes,
  decode_pairs-hex_digest name digest h.bytes,
)

abbrev pub IsLowercaseHex : Bytes → Type 0
IsLowercaseHex value = (length value ≡ 64) × (all is_lowercase_hex value ≡ true)

-- Every text of 64 lowercase digits is decoded by each of the decoders, to the same digest.
pub decode-lowercase :
    (value : Bytes) (name : String)
    → IsLowercaseHex value
    → (digest : Bytes) × (IsDigest digest)
      × (hex_digest digest ≡ value)
      × (decode_lowercase_hex_32 value name ≡ ok digest)
unfolding decode_lowercase_hex_32
decode-lowercase value name (size, digits) =
    decoded (decode_pairs-lowercase name 32 value (omega arith) digits)
  where
    decoded :
        (digest : Bytes) × (decode_pairs name value ≡ ok digest)
          × (All IsByte digest)
          × (hex_digest digest ≡ value)
          × (length digest ≡ 32)
        → (digest : Bytes) × (IsDigest digest)
          × (hex_digest digest ≡ value)
          × (decode_lowercase_hex_32 value name ≡ ok digest)
    decoded (digest, e, bytes, same, count) =
        (digest, record { size = count; bytes = bytes }, same, ground arith)

pub decoded-IsLowercaseHex :
    (value digest : Bytes) (name : String)
    → decode_lowercase_hex_32 value name ≡ ok digest
    → IsLowercaseHex value
unfolding decode_lowercase_hex_32
decoded-IsLowercaseHex value digest name h = ground arith

-- What the decoder accepts is a digest, and its encoding is the text that was read.
pub hex_digest-decode :
    (value digest : Bytes) (name : String)
    → decode_lowercase_hex_32 value name ≡ ok digest
    → IsDigest digest × (hex_digest digest ≡ value)
hex_digest-decode value digest name h =
    same (decode-lowercase value name (decoded-IsLowercaseHex value digest name h))
  where
    same :
        (other : Bytes) × (IsDigest other)
          × (hex_digest other ≡ value)
          × (decode_lowercase_hex_32 value name ≡ ok other)
        → IsDigest digest × (hex_digest digest ≡ value)
    same (other, d, e, r) = let p : other ≡ digest = cc in (subst IsDigest p d, cc)

sha256-IsLowercaseHex :
    (value digest : Bytes) → decode_lowercase_sha256 value ≡ ok digest → IsLowercaseHex value
unfolding decode_lowercase_sha256
sha256-IsLowercaseHex value digest h = ground arith

all-is_ascii :
    (value : Bytes) → all is_lowercase_hex value ≡ true → all (λ c. ltb c 128) value ≡ true
all-is_ascii [] h = refl
all-is_ascii (x ∷ xs) h = ground (arith, all-is_ascii xs, is_lowercase_hex-is_ascii x)

push_byte-message :
    (m n : String) (byte : Option ℕ) (r s : Result Bytes) {digest : Bytes}
    → ((d : Bytes) → r ≡ ok d → s ≡ ok d)
    → push_byte m byte r ≡ ok digest
    → push_byte n byte s ≡ ok digest
unfolding push_byte
push_byte-message m n none r s k h = cc
push_byte-message m n (some x) (ok d) s k h = rw (k d refl) h
push_byte-message m n (some x) (err e) s k h = cc

-- Only the error of `decode_pairs` depends on the message.
decode_pairs-message :
    (m n : String) (value : Bytes) {digest : Bytes}
    → decode_pairs m value ≡ ok digest
    → decode_pairs n value ≡ ok digest
unfolding decode_pairs
decode_pairs-message m n [] h = h
decode_pairs-message m n (a ∷ []) h = h
decode_pairs-message m n (a ∷ b ∷ rest) h =
    push_byte-message m n (from_str_radix_16 a b) (decode_pairs m rest) (decode_pairs n rest)
      (λ d e. decode_pairs-message m n rest e) h

decode_both :
    (value : Bytes) (name : String)
    → IsLowercaseHex value
    → (digest : Bytes) × (decode_lowercase_sha256 value ≡ ok digest)
      × (decode_lowercase_hex_32 value name ≡ ok digest)
unfolding decode_lowercase_sha256 decode_lowercase_hex_32 decode_sha256
decode_both value name (size, digits) =
    decoded (decode_pairs-lowercase name 32 value (omega arith) digits)
  where
    decoded :
        (digest : Bytes) × (decode_pairs name value ≡ ok digest)
          × (All IsByte digest)
          × (hex_digest digest ≡ value)
          × (length digest ≡ 32)
        → (digest : Bytes) × (decode_lowercase_sha256 value ≡ ok digest)
          × (decode_lowercase_hex_32 value name ≡ ok digest)
    decoded (digest, e, bytes, same, count) =
        let ascii = all-is_ascii value digits in
        let again =
          decode_pairs-message name "SHA-256 contains non-hexadecimal characters" value e in
        (digest, ground arith, ground arith)

-- The two lowercase decoders, of route.rs and of main.rs, accept the same texts and read the same
-- digest from each.
pub decode_lowercase_sha256-eq-hex_32 :
    (value digest : Bytes) (name : String)
    → (decode_lowercase_sha256 value ≡ ok digest) ↔ (decode_lowercase_hex_32 value name ≡ ok digest)
decode_lowercase_sha256-eq-hex_32 value digest name = (forth, back)
  where
    both :
        IsLowercaseHex value
        → (other : Bytes) × (decode_lowercase_sha256 value ≡ ok other)
          × (decode_lowercase_hex_32 value name ≡ ok other)
    both h = decode_both value name h

    forth :
        decode_lowercase_sha256 value ≡ ok digest → decode_lowercase_hex_32 value name ≡ ok digest
    forth e = let (other, p, q) = both (sha256-IsLowercaseHex value digest e) in cc

    back :
        decode_lowercase_hex_32 value name ≡ ok digest → decode_lowercase_sha256 value ≡ ok digest
    back e = let (other, p, q) = both (decoded-IsLowercaseHex value digest name e) in cc
