-- ===== src/Auth.antt =====
-- The traffic keys of main.rs: `configured_traffic_keys`, `traffic_key_id` and
-- `authenticate_traffic_key`. The headers are the values of Authorization in their order.
pub mod Keys
pub mod Authenticated
use milk_carton.Base.{
  ℕ, Bool, true, false, ◌&&◌, ◌||◌, not, Option, none, some, List, [], ◌∷◌, Bytes, codes, length,
  all, leb, ltb, nat_eq, if◌then◌else◌, ◌==◌, ℕ-Eq, List-Eq, Eq, Result, ok, err, bail_if, ◌>>=◌,
  ◌>>◌,
}
use mathlib.Core.Option
use milk_carton.Hex.{decode_lowercase_sha256}
use milk_carton.Crypto.{Crypto}
use milk_carton.Route.Types.{Uuid, DateTime}
use milk_carton.Route.Url.{is_none, is_some}

pub record TrafficKeyRevocationConfig : Type 0 where
  pub revoked_at : DateTime
  pub reason : Option Bytes

pub record TrafficKeyConfig : Type 0 where
  pub key_id : Uuid
  pub api_key_sha256 : Bytes
  pub scope_id : Uuid
  pub capture_allowed : Bool
  pub revocation : Option TrafficKeyRevocationConfig

pub record TrafficKey : Type 0 where
  pub key_id : Uuid
  pub api_key_sha256 : Bytes
  pub scope_id : Uuid
  pub capture_allowed : Bool
  pub revoked_at : Option DateTime

-- `HeaderValue::to_str` of the crate http and `Uuid::parse_str` of the crate uuid.
pub record AuthLibs : Type 0 where
  pub crypto : Crypto
  pub to_str : Bytes → Option Bytes
  pub parse_uuid : Bytes → Option Uuid

abbrev pub max_traffic_keys : ℕ
max_traffic_keys = 64

unfoldable pub member {ℓ} : {A : Type ℓ} ⦃e : Eq A⦄ → List A → A → Bool
member [] a = false
member (x ∷ xs) a = x == a || member xs a

unfoldable pub reason_invalid : Option TrafficKeyRevocationConfig → Bool
reason_invalid none = false
reason_invalid (some revocation) = elim revocation.reason [
  | none ↦ false
  | some reason ↦ nat_eq (length reason) 0 || ltb 256 (length reason)
]

abbrev pub configured_key : TrafficKeyConfig → Bytes → TrafficKey
configured_key value sha256 = record {
  key_id = value.key_id;
  api_key_sha256 = sha256;
  scope_id = value.scope_id;
  capture_allowed = value.capture_allowed;
  revoked_at = Option.map (λ (r : TrafficKeyRevocationConfig). r.revoked_at) value.revocation;
}

-- The checks of one entry, against the identifiers and digests before it.
unfoldable pub configure_key : List Uuid → List Bytes → TrafficKeyConfig → Result TrafficKey
configure_key key_ids hashes value = do
  bail_if (nat_eq value.key_id 0 || nat_eq value.scope_id 0)
      "traffic key IDs and scope IDs must be non-nil UUIDs"
  bail_if (member key_ids value.key_id) "traffic_keys contains a duplicate key_id"
  sha256 ← decode_lowercase_sha256 value.api_key_sha256
  bail_if (member hashes sha256) "traffic_keys contains a duplicate API-key SHA-256"
  bail_if (reason_invalid value.revocation)
      "traffic key revocation reason must contain 1..=256 bytes"
  ok (configured_key value sha256)

-- The loop over the entries.
unfoldable pub configure : List Uuid → List Bytes → List TrafficKeyConfig → Result (List TrafficKey)
configure key_ids hashes [] = ok []
configure key_ids hashes (value ∷ values) = do
  key ← configure_key key_ids hashes value
  rest ← configure (key.key_id ∷ key_ids) (key.api_key_sha256 ∷ hashes) values
  ok (key ∷ rest)

unfoldable pub configured_traffic_keys : List TrafficKeyConfig → Result (List TrafficKey)
configured_traffic_keys values = do
  bail_if (nat_eq (length values) 0 || ltb max_traffic_keys (length values))
      "traffic_keys must contain 1..=64 entries"
  configure [] [] values

-- `str::strip_prefix`
unfoldable pub strip_prefix : Bytes → Bytes → Option Bytes
strip_prefix [] text = some text
strip_prefix (c ∷ prefix) [] = none
strip_prefix (c ∷ prefix) (d ∷ text) =
    let rest = strip_prefix prefix text in if nat_eq c d then rest else none

-- `str::split_once`
unfoldable pub split_once : ℕ → Bytes → Option (Bytes × Bytes)
split_once separator [] = none
split_once separator (c ∷ text) =
    let rest = split_once separator text in
    if nat_eq c separator
    then some ([], text)
    else Option.map (λ (p : Bytes × Bytes). (c ∷ p.0, p.1)) rest

unfoldable pub secret_byte : ℕ → Bool
secret_byte c =
    leb 48 c && leb c 57
    || leb 65 c && leb c 90
    || leb 97 c && leb c 122
    || nat_eq c 45
    || nat_eq c 95
    || nat_eq c 46
    || nat_eq c 126

unfoldable pub secret_valid : Bytes → Bool
secret_valid secret = leb 16 (length secret) && leb (length secret) 256 && all secret_byte secret

module _ (libs : AuthLibs) where
  open libs use {crypto, to_str, parse_uuid}

  unfoldable pub id_of_parts : Bytes × Bytes → Option Uuid
  id_of_parts (key_id, secret) =
      Option.bind (parse_uuid key_id)
        (λ id. if not (nat_eq id 0) && secret_valid secret then some id else none)

  unfoldable pub traffic_key_id : Bytes → Option Uuid
  traffic_key_id raw =
      Option.bind (strip_prefix (codes "milk_live_") raw)
        (λ value. Option.bind (split_once 95 value) id_of_parts)

  unfoldable pub matches : Uuid → Bytes → TrafficKey → Bool
  matches key_id actual key =
      is_none key.revoked_at && nat_eq key.key_id key_id && key.api_key_sha256 == actual

  -- The loop over the configured keys.
  unfoldable pub last_match : Uuid → Bytes → Option TrafficKey → List TrafficKey → Option TrafficKey
  last_match key_id actual authenticated [] = authenticated
  last_match key_id actual authenticated (key ∷ keys) =
      last_match key_id actual (if matches key_id actual key then some key else authenticated) keys

  -- The bearer token of the first header.
  unfoldable pub bearer : Bytes → Option Bytes
  bearer value = Option.bind (to_str value) (strip_prefix (codes "Bearer "))

  unfoldable pub authenticate_raw : List Bytes → List TrafficKey → Bytes → Option TrafficKey
  authenticate_raw others configured raw = Option.bind (traffic_key_id raw) (λ key_id.
      if not (nat_eq (length others) 0)
      then none
      else last_match key_id (crypto.sha256 raw) none configured)

  unfoldable pub authenticate_traffic_key : List Bytes → List TrafficKey → Option TrafficKey
  authenticate_traffic_key [] configured = none
  authenticate_traffic_key (value ∷ others) configured =
      Option.bind (bearer value) (authenticate_raw others configured)
