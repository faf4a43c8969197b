-- ===== src/Headers/Names.antt =====
-- Which header names the filters of main.rs are meant to let through, apart from how they test it: the
-- names that are allowed, those that a hop keeps, and those that a `Connection` header nominates.
use milk_carton.Base.{
  ◌≡◌, ◌≢◌, ◌⊎◌, inl, inr, refl, sym, ap, ◌∙◌, Bool, true, false, ◌||◌, some, List, [], ◌∷◌, ◌++◌,
  Bytes, codes, length, take, ◌==◌, ℕ-Eq, List-Eq, ==_iff, Some,
}
use milk_carton.Text.Utf8.{from_utf8, trim}
use milk_carton.Partition.{split_parts}
use milk_carton.Headers.{
  HeaderMap, starts_with, lower, allowed_upstream_request_header,
  allowed_downstream_response_header,
}

abbrev pub In : Bytes → List Bytes → Type 0
In name names = Some (λ known. known ≡ name) names

-- The header is one of the map's.
abbrev pub HasHeader : Bytes × Bytes → HeaderMap → Type 0
HasHeader header headers = Some (λ h. h ≡ header) headers

abbrev pub Begins : Bytes → Bytes → Type 0
Begins name prefix = (rest : Bytes) × (name ≡ prefix ++ rest)

abbrev upstream_names : List Bytes
upstream_names =
    codes "accept"
    ∷ codes "content-encoding"
    ∷ codes "content-type"
    ∷ codes "openai-beta"
    ∷ codes "user-agent"
    ∷ codes "x-client-request-id"
    ∷ []

abbrev downstream_names : List Bytes
downstream_names =
    codes "cache-control"
    ∷ codes "content-encoding"
    ∷ codes "content-length"
    ∷ codes "content-type"
    ∷ codes "etag"
    ∷ codes "retry-after"
    ∷ codes "vary"
    ∷ codes "www-authenticate"
    ∷ codes "x-request-id"
    ∷ codes "x-should-retry"
    ∷ []

abbrev pub IsAllowedUpstream : Bytes → Type 0
IsAllowedUpstream name = In name upstream_names ⊎ Begins name (codes "x-stainless-")

abbrev pub IsAllowedDownstream : Bytes → Type 0
IsAllowedDownstream name =
    In name downstream_names
    ⊎ Begins name (codes "openai-")
    ⊎ Begins name (codes "x-openai-")
    ⊎ Begins name (codes "x-ratelimit-")

-- The names that RFC 9110 and its predecessors keep to one hop.
abbrev pub hop_names : List Bytes
hop_names =
    codes "connection"
    ∷ codes "keep-alive"
    ∷ codes "proxy-authenticate"
    ∷ codes "proxy-authorization"
    ∷ codes "proxy-connection"
    ∷ codes "te"
    ∷ codes "trailer"
    ∷ codes "transfer-encoding"
    ∷ codes "upgrade"
    ∷ []

-- A `Connection` header, read as text and split at its commas, has the name as one of its tokens.
abbrev pub IsNominated : HeaderMap → Bytes → Type 0
IsNominated headers name =
    (value : Bytes) × (text : Bytes) × (token : Bytes) × HasHeader (codes "connection", value)
      headers
    × (from_utf8 value ≡ some text)
    × In token (split_parts b',' text)
    × (trim token ≢ [])
    × (lower (trim token) ≡ name)

begins : (name prefix : Bytes) → take (length prefix) name ≡ prefix → Begins name prefix
begins name [] h = (name, refl)
begins [] (p ∷ prefix) h = cc
begins (c ∷ name) (p ∷ prefix) h =
    let head : c ≡ p = cc in
    let tail : take (length prefix) name ≡ prefix = cc in
    let (rest, e) = begins name prefix tail in (rest, λ i. head i ∷ e i)

take-begins : (prefix rest : Bytes) → take (length prefix) (prefix ++ rest) ≡ prefix
take-begins [] rest = refl
take-begins (p ∷ prefix) rest = ap (λ t. p ∷ t) (take-begins prefix rest)

starts_with-Begins : (name prefix : Bytes) → starts_with name prefix ≡ true → Begins name prefix
unfolding starts_with
starts_with-Begins name prefix h =
    begins name prefix ((==_iff (take (length prefix) name) prefix).0 h)

Begins-starts_with : (name prefix : Bytes) → Begins name prefix → starts_with name prefix ≡ true
unfolding starts_with
Begins-starts_with name prefix (rest, e) =
    (==_iff (take (length prefix) name) prefix).1
      (ap (λ t. take (length prefix) t) e ∙ take-begins prefix rest)

or-cases : (a b : Bool) → (a || b) ≡ true → (a ≡ true) ⊎ (b ≡ true)
or-cases true b h = inl refl
or-cases false b h = inr h

-- The tests on the names one after the other, after an earlier one.
abbrev one_of : Bool → List Bytes → Bytes → Bool
one_of earlier [] name = earlier
one_of earlier (x ∷ names) name = one_of (earlier || name == x) names name

one_of-In :
    (earlier : Bool) (names : List Bytes) (name : Bytes)
    → one_of earlier names name ≡ true
    → (earlier ≡ true) ⊎ In name names
one_of-In earlier [] name h = inl h
one_of-In earlier (x ∷ names) name h = elim (one_of-In (earlier || name == x) names name h) [
  | inr there ↦ inr (inr there)
  | inl now ↦ elim (or-cases earlier _ now) [
    | inl e ↦ inl e
    | inr same ↦ inr (inl (sym ((==_iff name x).0 same)))
  ]
]

abbrev tested : List Bytes → Bytes → Bool
tested [] name = false
tested (x ∷ names) name = one_of (name == x) names name

tested-In : (names : List Bytes) (name : Bytes) → tested names name ≡ true → In name names
tested-In [] name h = cc
tested-In (x ∷ names) name h = elim (one_of-In (name == x) names name h) [
  | inl same ↦ inl (sym ((==_iff name x).0 same))
  | inr there ↦ inr there
]

pub allowed_upstream_request_header-IsAllowed :
    (name : Bytes) → allowed_upstream_request_header name ≡ true → IsAllowedUpstream name
unfolding allowed_upstream_request_header
allowed_upstream_request_header-IsAllowed name h =
    elim (or-cases (tested upstream_names name) (starts_with name (codes "x-stainless-")) h) [
      | inl e ↦ inl (tested-In upstream_names name e)
      | inr begins ↦ inr (starts_with-Begins name (codes "x-stainless-") begins)
    ]

pub allowed_downstream_response_header-IsAllowed :
    (name : Bytes) → allowed_downstream_response_header name ≡ true → IsAllowedDownstream name
unfolding allowed_downstream_response_header
allowed_downstream_response_header-IsAllowed name h =
    let by_name = tested downstream_names name in
    let openai = starts_with name (codes "openai-") in
    let x_openai = starts_with name (codes "x-openai-") in
    elim (or-cases (by_name || openai || x_openai) (starts_with name (codes "x-ratelimit-")) h) [
      | inr e ↦ inr (inr (inr (starts_with-Begins name (codes "x-ratelimit-") e)))
      | inl h ↦ elim (or-cases (by_name || openai) x_openai h) [
        | inr e ↦ inr (inr (inl (starts_with-Begins name (codes "x-openai-") e)))
        | inl h ↦ elim (or-cases by_name openai h) [
          | inr e ↦ inr (inl (starts_with-Begins name (codes "openai-") e))
          | inl e ↦ inl (tested-In downstream_names name e)
        ]
      ]
    ]

pub not-Begins : (name prefix : Bytes) → starts_with name prefix ≡ false → Begins name prefix → ⊥
not-Begins name prefix h begins = let e = Begins-starts_with name prefix begins in cc
