-- ===== src/Sampling/Laws.antt =====
-- The two samplers select the same sessions, and a larger share keeps the sessions of a smaller one.
use milk_carton.Base.{
  ℕ, suc, ◌+◌, ◌*◌, ◌^◌, ◌≤◌, ◌<◌, ◌≡◌, Bool, true, [], ◌∷◌, Bytes, take, length, All, arith, ap,
  sym, length-take,
}
use native.Mathlib.Nat.{pow-suc}
use milk_carton.Hex.{IsDigest}
use milk_carton.Sampling.{
  be_from, u64_from_be_bytes, selected, capture_sample_selected, capture_selected,
}

-- A `u16` of basis points never overflows the product, and the session samplers of the route and of
-- the capture agree on every `u64` sample.
pub selected-eq-capture_sample_selected :
    (sample basis_points : ℕ)
    → sample < 2 ^ 64
    → basis_points < 2 ^ 16
    → selected sample basis_points ≡ capture_sample_selected sample basis_points
unfolding selected capture_sample_selected
selected-eq-capture_sample_selected sample basis_points s b = ground arith

-- A sample that is selected at some share is selected at every larger share.
pub selected_mono :
    (sample low high : ℕ)
    → low ≤ high
    → high < 2 ^ 16
    → selected sample low ≡ true
    → selected sample high ≡ true
unfolding selected
selected_mono sample low high l h e = ground arith

-- All samples are selected at 10000 basis points, none at 0.
pub selected_ends :
    (sample : ℕ)
    → sample < 2 ^ 64
    → (selected sample 10000 ≡ true) × (selected sample 0 ≡ Bool.false)
unfolding selected
selected_ends sample s = (ground arith, ground arith)

be_from-lt :
    (acc bound : ℕ) (bytes : Bytes)
    → All (λ byte. byte < 256) bytes
    → acc < bound
    → be_from acc bytes < bound * 256 ^ length bytes
unfolding be_from
be_from-lt acc bound [] h a = omega arith
be_from-lt acc bound (x ∷ xs) h a =
    let rest = be_from-lt (acc * 256 + x) (bound * 256) xs h.1 (omega (arith, h.0)) in
    omega
      (arith, rest, pow-suc 256 (length xs), ap (λ (n : ℕ). bound * n) (pow-suc 256 (length xs)))

abbrev IsByte : ℕ → Type 0
IsByte byte = byte < 256

All-take : (n : ℕ) (bytes : Bytes) → All IsByte bytes → All IsByte (take n bytes)
All-take ℕ.zero bytes h = tt
All-take (suc n) [] h = tt
All-take (suc n) (x ∷ xs) h = (h.0, All-take n xs h.1)

-- The sample of a digest is a `u64`.
pub u64_from_be_bytes-lt : (digest : Bytes) → IsDigest digest → u64_from_be_bytes digest < 2 ^ 64
unfolding u64_from_be_bytes
u64_from_be_bytes-lt digest h =
    let size : length (take 8 digest) ≡ 8 = omega (arith, length-take 8 digest, h.size) in
    rw size at (be_from-lt 0 1 (take 8 digest) (All-take 8 digest h.bytes) (omega arith))

-- On every digest and every `u16` share the capture sampler of main.rs decides as the route sampler
-- of route.rs does, although it is written with two early returns.
pub capture_selected-eq-selected :
    (digest : Bytes) (basis_points : ℕ)
    → IsDigest digest
    → basis_points < 2 ^ 16
    → capture_selected digest basis_points ≡ selected (u64_from_be_bytes digest) basis_points
unfolding capture_selected
capture_selected-eq-selected digest basis_points h b =
    sym (selected-eq-capture_sample_selected _ basis_points (u64_from_be_bytes-lt digest h) b)
