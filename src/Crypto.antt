-- ===== src/Crypto.antt =====
-- The cryptographic operations that the code calls from the crates ring and sha2. They are an
-- argument of what uses them; the code relies on the size of a digest, which both crates document.
use milk_carton.Base.{Bool, Bytes}
use milk_carton.Hex.{IsDigest}

pub record Crypto : Type 0 where
  pub sha256 : Bytes → Bytes
  -- the key, then the message
  pub hmac_sha256 : Bytes → Bytes → Bytes
  -- the public key, the message and the signature
  pub verify_ed25519 : Bytes → Bytes → Bytes → Bool
  pub sha256-IsDigest : (message : Bytes) → IsDigest (sha256 message)
  pub hmac_sha256-IsDigest : (key message : Bytes) → IsDigest (hmac_sha256 key message)
