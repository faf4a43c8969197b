-- ===== src/Auth/Authenticated.antt =====
-- The requests that are authenticated.
use milk_carton.Route.Url.{is_none}
use milk_carton.Base.{
  ℕ, ◌&&◌, ◌==◌, ==_iff, ◌≡◌, ◌≢◌, ◌↔◌, refl, sym, ap, ◌∙◌, true, not, Option, none, some, List, [],
  ◌∷◌, Bytes, length, nat_eq, nat_eq_iff, if◌then◌else◌, ℕ-Eq, List-Eq, ok, eq-of-some, arith,
}
use mathlib.Core.Option
use milk_carton.Route.Types.{Uuid}
use milk_carton.Auth.{
  TrafficKeyConfig, TrafficKey, AuthLibs, configured_traffic_keys, matches, last_match,
  traffic_key_id, bearer, authenticate_raw, authenticate_traffic_key,
}
use milk_carton.Auth.Keys.{Distinct, In, last_match_iff, configured_traffic_keys-Distinct}

none-ne-some {ℓ} : {A : Type ℓ} {a : A} → none ≢ some a
none-ne-some h = cc

cons-ne-nil : {x : Bytes} {xs : List Bytes} → x ∷ xs ≢ []
cons-ne-nil h = cc

none-of-is_none : (o : Option ℕ) → is_none o ≡ true → o ≡ none
none-of-is_none none h = refl
none-of-is_none (some n) h = cc

matches_iff :
    (libs : AuthLibs) (key_id : Uuid) (actual : Bytes) (key : TrafficKey)
    → (matches libs key_id actual key ≡ true)
      ↔ ((key.revoked_at ≡ none) × (key.key_id ≡ key_id) × (key.api_key_sha256 ≡ actual))
unfolding matches
matches_iff libs key_id actual key = (forth, back)
  where
    forth :
        is_none key.revoked_at && nat_eq key.key_id key_id && key.api_key_sha256 == actual ≡ true
        → (key.revoked_at ≡ none) × (key.key_id ≡ key_id) × (key.api_key_sha256 ≡ actual)
    forth h = (
      none-of-is_none key.revoked_at (ground (arith, h)),
      ground (arith, h),
      (==_iff key.api_key_sha256 actual).0 (ground (arith, h)),
    )

    back :
        (key.revoked_at ≡ none) × (key.key_id ≡ key_id) × (key.api_key_sha256 ≡ actual)
        → is_none key.revoked_at && nat_eq key.key_id key_id && key.api_key_sha256 == actual ≡ true
    back (open_key, same_id, same_digest) =
        rw
          (
            open_key,
            (nat_eq_iff key.key_id key_id).1 same_id,
            (==_iff key.api_key_sha256 actual).1 same_digest,
          )
          refl

-- The conditions under which a request is authenticated as a key: one Authorization header, a bearer
-- token of the form of a key, and a configured key of that identifier and of the token's digest that
-- is not revoked.
pub record Authenticates (libs : AuthLibs) (value : Bytes) (others : List Bytes)
    (keys : List TrafficKey) (key : TrafficKey) : Type 0 where
  pub raw : Bytes
  pub key_id : Uuid
  pub is_bearer : bearer libs value ≡ some raw
  pub names : traffic_key_id libs raw ≡ some key_id
  pub single : others ≡ []
  pub configured : In key keys
  pub not_revoked : key.revoked_at ≡ none
  pub same_id : key.key_id ≡ key_id
  pub same_digest : key.api_key_sha256 ≡ libs.crypto.sha256 raw

authenticate-cases :
    (libs : AuthLibs) (value : Bytes) (others : List Bytes) (keys : List TrafficKey)
    (key : TrafficKey) (token : Option Bytes)
    → bearer libs value ≡ token
    → Distinct [] [] keys
    → (Option.bind token (authenticate_raw libs others keys) ≡ some key)
      ↔ (Authenticates libs value others keys key)
unfolding authenticate_raw Option.bind
authenticate-cases libs value others keys key none is_token distinct =
    (λ h. absurd (none-ne-some h), λ a. absurd (none-ne-some (sym is_token ∙ a.is_bearer)))
authenticate-cases libs value others keys key (some raw) is_token distinct =
    by_id (traffic_key_id libs raw) refl others refl
  where
    by_id :
        (id : Option Uuid)
        → traffic_key_id libs raw ≡ id
        → (rest : List Bytes) → others ≡ rest
        → (Option.bind id (λ key_id.
              if not (nat_eq (length rest) 0)
              then none
              else last_match libs key_id (libs.crypto.sha256 raw) none keys)
            ≡ some key)
          ↔ (Authenticates libs value others keys key)
    by_id none is_id rest same = (
      λ h. absurd (none-ne-some h),
      λ a. absurd (
          none-ne-some (
            sym is_id
            ∙ ap (traffic_key_id libs) (eq-of-some (sym is_token ∙ a.is_bearer))
            ∙ a.names)),
    )
    by_id (some id) is_id (x ∷ xs) same =
        (λ h. absurd (ground (arith, h)), λ a. absurd (cons-ne-nil (sym same ∙ a.single)))
    by_id (some id) is_id [] same =
        let (forth, back) =
          last_match_iff libs id (libs.crypto.sha256 raw) [] [] keys key distinct in
        let facts = (matches_iff libs id (libs.crypto.sha256 raw) key).0 in
        (
          λ h. record {
            raw = raw;
            key_id = id;
            is_bearer = is_token;
            names = is_id;
            single = same;
            configured = (forth h).0;
            not_revoked = (facts (forth h).1).0;
            same_id = (facts (forth h).1).1;
            same_digest = (facts (forth h).1).2;
          },
          λ a.
              let same_raw : a.raw ≡ raw = eq-of-some (sym a.is_bearer ∙ is_token) in
              let same_id : a.key_id ≡ id =
                eq-of-some (sym a.names ∙ ap (traffic_key_id libs) same_raw ∙ is_id) in
              back (
                a.configured,
                (matches_iff libs id (libs.crypto.sha256 raw) key).1 (
                  a.not_revoked,
                  a.same_id ∙ same_id,
                  a.same_digest ∙ ap libs.crypto.sha256 same_raw,
                ),
              ),
        )

-- With keys that were configured, a request is authenticated as a key exactly when it has a single
-- Authorization header, whose bearer token names the identifier of that key and has its digest, and
-- the key is configured and not revoked.
pub authenticate_traffic_key_iff :
    (libs : AuthLibs) (values : List TrafficKeyConfig) (keys : List TrafficKey) (value : Bytes)
    (others : List Bytes) (key : TrafficKey)
    → configured_traffic_keys values ≡ ok keys
    → (authenticate_traffic_key libs (value ∷ others) keys ≡ some key)
      ↔ (Authenticates libs value others keys key)
unfolding authenticate_traffic_key
authenticate_traffic_key_iff libs values keys value others key h =
    authenticate-cases libs value others keys key (bearer libs value) refl
      (configured_traffic_keys-Distinct values keys h).0
