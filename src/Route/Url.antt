-- ===== src/Route/Url.antt =====
-- `validate_candidate_api_base_url`. The parser of the crate url is an argument; an address of the
-- standard library is its number.
use milk_carton.Base.{
  ℕ, ◌+◌, ◌*◌, ◌/◌, ◌^◌, Bool, true, false, ◌&&◌, ◌||◌, not, Option, none, some, Bytes, codes,
  length, drop, leb, ltb, nat_eq, ◌==◌, ℕ-Eq, List-Eq, Result, ok, bail_if, context, ◌>>=◌, ◌>>◌,
  ◌-◌,
}

pub data Host : Type 0 where
  domain : Bytes → Host
  ipv4 : ℕ → Host
  ipv6 : ℕ → Host

pub record Url : Type 0 where
  pub as_str : Bytes
  pub scheme : Bytes
  pub username : Bytes
  pub password : Option Bytes
  pub host : Option Host
  pub path : Bytes
  pub query : Option Bytes
  pub fragment : Option Bytes

abbrev pub is_none {ℓ} : {A : Type ℓ} → Option A → Bool
is_none none = true
is_none (some a) = false

abbrev pub is_some {ℓ} : {A : Type ℓ} → Option A → Bool
is_some o = not (is_none o)

unfoldable pub ipv4_is_loopback : ℕ → Bool
ipv4_is_loopback address = nat_eq (address / 2 ^ 24) 127

unfoldable pub ipv4_is_private : ℕ → Bool
ipv4_is_private address =
    nat_eq (address / 2 ^ 24) 10
    || nat_eq (address / 2 ^ 20) (172 * 16 + 1)
    || nat_eq (address / 2 ^ 16) (192 * 256 + 168)

unfoldable pub authorized_literal : Bool → Option Host → Bool
unfolding ipv4_is_loopback ipv4_is_private
authorized_literal allow_private (some (ipv4 address)) =
    ipv4_is_loopback address || allow_private && ipv4_is_private address
authorized_literal allow_private (some (ipv6 address)) = nat_eq address 1
authorized_literal allow_private _ = false

unfoldable pub ends_with : Bytes → Bytes → Bool
ends_with value suffix =
    leb (length suffix) (length value) && drop (length value - length suffix) value == suffix

abbrev pub max_endpoint_bytes : ℕ
max_endpoint_bytes = 2048

local_http : Bool → Bytes → Url → Bool
local_http allow_private value endpoint =
    endpoint.scheme == codes "http"
    && endpoint.as_str == value
    && endpoint.path == codes "/v1/"
    && authorized_literal allow_private endpoint.host

standard_endpoint : Bytes → Url → Bool
standard_endpoint value endpoint =
    endpoint.scheme == codes "https"
    && endpoint.as_str == value
    && ends_with endpoint.path (codes "/v1/")

unfoldable pub validate_candidate_api_base_url : (Bytes → Option Url) → Bytes → Bool → Result Url
unfolding local_http standard_endpoint
validate_candidate_api_base_url parse value allow_private_candidate_http = do
  bail_if (nat_eq (length value) 0 || ltb max_endpoint_bytes (length value))
      "candidate API base URL must contain 1..=2048 bytes"
  endpoint ← context (parse value) "candidate API base URL is not a valid URL"
  bail_if
      (not (standard_endpoint value endpoint)
          && not (local_http allow_private_candidate_http value endpoint)
        || is_none endpoint.host
        || not (nat_eq (length endpoint.username) 0)
        || is_some endpoint.password
        || is_some endpoint.query
        || is_some endpoint.fragment)
      "candidate API base URL must be credential-free HTTPS ending in /v1/, or authorized literal-IP HTTP at the exact root path"
  ok endpoint
