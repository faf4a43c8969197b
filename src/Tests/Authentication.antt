-- ===== src/Tests/Authentication.antt =====
-- Tests and witnesses of Auth.
use milk_carton.Base.{
  ◌≡◌, ◌↔◌, refl, true, none, some, List, [], ◌∷◌, Bytes, codes, length, ok, list_eq,
}
use mathlib.Core.Option
use milk_carton.Hex.{decode_lowercase_sha256, decode_sha256, decode_pairs, push_byte}
use milk_carton.Hex.Digits.{is_lowercase_hex, from_str_radix_16}
use milk_carton.Auth.{
  TrafficKeyConfig, TrafficKey, AuthLibs, configured_traffic_keys, configure, configure_key, member,
  reason_invalid, authenticate_traffic_key, authenticate_raw, bearer, strip_prefix, split_once,
  traffic_key_id, id_of_parts, secret_valid, secret_byte, last_match, matches,
}
use milk_carton.Auth.Keys.{Distinct, configured_traffic_keys-Distinct}
use milk_carton.Auth.Authenticated.{Authenticates, authenticate_traffic_key_iff}
use milk_carton.Tests.Setup.{crypto, sevens, digest_text}

abbrev libs : AuthLibs
libs = record { crypto = crypto; to_str = λ value. some value; parse_uuid = λ text. some 8 }

abbrev values : List TrafficKeyConfig
values =
    record {
      key_id = 8;
      api_key_sha256 = digest_text;
      scope_id = 5;
      capture_allowed = true;
      revocation = none;
    }
    ∷ []

abbrev key : TrafficKey
key = record {
  key_id = 8;
  api_key_sha256 = sevens;
  scope_id = 5;
  capture_allowed = true;
  revoked_at = none;
}

abbrev header : Bytes
header = codes "Bearer milk_live_8_0123456789abcdef"

configured : configured_traffic_keys values ≡ ok (key ∷ [])
unfolding configured_traffic_keys configure configure_key member reason_invalid
    decode_lowercase_sha256 decode_sha256 decode_pairs push_byte is_lowercase_hex from_str_radix_16
configured = refl

authenticated : authenticate_traffic_key libs (header ∷ []) (key ∷ []) ≡ some key
unfolding authenticate_traffic_key authenticate_raw bearer strip_prefix split_once traffic_key_id
    id_of_parts secret_valid secret_byte last_match matches list_eq Option.bind
authenticated = refl

configured_traffic_keys-Distinct_example : (Distinct [] [] (key ∷ [])) × (length (key ∷ []) ≡ 1)
configured_traffic_keys-Distinct_example =
    configured_traffic_keys-Distinct values (key ∷ []) configured

authenticate_traffic_key_iff_example :
    (authenticate_traffic_key libs (header ∷ []) (key ∷ []) ≡ some key)
    ↔ (Authenticates libs header [] (key ∷ []) key)
authenticate_traffic_key_iff_example =
    authenticate_traffic_key_iff libs values (key ∷ []) header [] key configured
