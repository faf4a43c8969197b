-- ===== src/Tests/Digests.antt =====
-- Tests and witnesses of Hex and Sampling.
use milk_carton.Base.{◌≡◌, ◌↔◌, refl, ok, arith}
use milk_carton.Hex.{
  decode_lowercase_hex_32, hex_digest, decode_lowercase_sha256, IsDigest, push_byte, decode_pairs,
}
use milk_carton.Hex.Digits.{is_lowercase_hex, from_str_radix_16}
use milk_carton.Hex.RoundTrip.{
  decode-hex_digest, hex_digest-decode, decode_lowercase_sha256-eq-hex_32,
}
use milk_carton.Sampling.{selected, capture_selected, u64_from_be_bytes}
use milk_carton.Sampling.Laws.{capture_selected-eq-selected}
use milk_carton.Tests.Setup.{sevens, sevens-IsDigest, digest_text}

decode-hex_digest_example : decode_lowercase_hex_32 (hex_digest sevens) "digest" ≡ ok sevens
decode-hex_digest_example = decode-hex_digest sevens "digest" sevens-IsDigest

decoded : decode_lowercase_hex_32 digest_text "digest" ≡ ok sevens
unfolding decode_lowercase_hex_32 decode_pairs push_byte is_lowercase_hex from_str_radix_16
decoded = refl

hex_digest-decode_example : IsDigest sevens × (hex_digest sevens ≡ digest_text)
hex_digest-decode_example = hex_digest-decode digest_text sevens "digest" decoded

decode_lowercase_sha256-eq-hex_32_example :
    (decode_lowercase_sha256 digest_text ≡ ok sevens)
    ↔ (decode_lowercase_hex_32 digest_text "digest" ≡ ok sevens)
decode_lowercase_sha256-eq-hex_32_example =
    decode_lowercase_sha256-eq-hex_32 digest_text sevens "digest"

capture_selected-eq-selected_example :
    capture_selected sevens 300 ≡ selected (u64_from_be_bytes sevens) 300
capture_selected-eq-selected_example =
    capture_selected-eq-selected sevens 300 sevens-IsDigest (omega arith)
