-- ===== src/Sampling.antt =====
-- Sampling: `sticky_sample` and `selected` of route.rs, and `capture_selected` and
-- `capture_sample_selected` of main.rs.
pub mod Laws
use milk_carton.Base.{
  ℕ, ◌+◌, ◌*◌, ◌/◌, ◌%◌, ◌^◌, Bool, true, false, List, [], ◌∷◌, ◌++◌, Bytes, take, leb, ltb, nat_eq,
  if◌then◌else◌,
}
use milk_carton.Crypto.{Crypto}

be_from : ℕ → Bytes → ℕ
be_from acc [] = acc
be_from acc (byte ∷ bytes) = be_from (acc * 256 + byte) bytes

-- `u64::from_be_bytes(bytes[..8])`
unfoldable pub u64_from_be_bytes : Bytes → ℕ
unfolding be_from
u64_from_be_bytes bytes = be_from 0 (take 8 bytes)

unfoldable pub sticky_sample : Crypto → Bytes → Bytes → Bytes → ℕ
sticky_sample crypto key cohort_sha256 routing_cohort =
    u64_from_be_bytes (crypto.hmac_sha256 key (cohort_sha256 ++ routing_cohort))

-- The product is a `u128`.
unfoldable pub selected : ℕ → ℕ → Bool
selected sample basis_points = ltb sample (basis_points * 2 ^ 64 % 2 ^ 128 / 10000)

unfoldable pub capture_sample_selected : ℕ → ℕ → Bool
capture_sample_selected sample basis_points =
    if nat_eq basis_points 0
    then false
    else if leb 10000 basis_points
    then true
    else ltb sample (basis_points * 2 ^ 64 % 2 ^ 128 / 10000)

unfoldable pub capture_selected : Bytes → ℕ → Bool
capture_selected digest basis_points =
    capture_sample_selected (u64_from_be_bytes digest) basis_points
