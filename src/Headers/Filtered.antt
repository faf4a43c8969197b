-- ===== src/Headers/Filtered.antt =====
-- What the header filters never let through.
use milk_carton.Base.{
  ◌≡◌, ◌≢◌, ◌⊎◌, inl, inr, refl, sym, ◌∙◌, subst, Bool, false, not, List, [], ◌∷◌, Bytes, codes,
  ◌==◌, ℕ-Eq, List-Eq, ==_iff, Result, ok, err, >>=-eq-ok, if-eq-ok, ok-injective, Bool-cases,
  if-either, if-true, if-false, arith,
}
use milk_carton.Route.Types.{RouteTarget, candidate, baseline}
use milk_carton.Headers.Names.{
  In, HasHeader, Begins, IsAllowedUpstream, IsAllowedDownstream, IsNominated, hop_names,
  allowed_upstream_request_header-IsAllowed, allowed_downstream_response_header-IsAllowed,
  not-Begins,
}
use milk_carton.Headers.Nominated.{stripped_headers-absent, stripped_reqwest_headers-absent}
use milk_carton.Headers.{
  HeaderMap, starts_with, lower, stripped_headers, stripped_reqwest_headers, skip_upstream,
  skip_downstream, with_header, insert_header, forward_headers, upstream_request_headers,
  downstream_response_headers,
}

differs : (name known : Bytes) → (name == known) ≡ false → name ≢ known
differs name known h e = let hit = (==_iff name known).1 e in cc

-- A name that may go up to a target, with the headers of the request.
pub record IsUpstream (target : RouteTarget) (headers : HeaderMap) (name : Bytes) : Type 0 where
  pub allowed : IsAllowedUpstream name
  pub not_nominated : IsNominated headers name → ⊥
  pub not_hop : In name hop_names → ⊥
  pub not_host : name ≢ codes "host"
  pub not_length : name ≢ codes "content-length"
  pub not_own : Begins name (codes "x-milk-") → ⊥
  pub not_authorization : name ≢ codes "authorization"
  pub not_organization : name ≢ codes "openai-organization"
  pub not_project : name ≢ codes "openai-project"
  pub not_beta : target ≡ candidate → name ≢ codes "openai-beta"

-- A name that may come down from a target, with the headers of the response.
pub record IsDownstream (target : RouteTarget) (headers : HeaderMap) (name : Bytes) : Type 0 where
  pub allowed : IsAllowedDownstream name
  pub not_nominated : IsNominated headers name → ⊥
  pub not_hop : In name hop_names → ⊥
  pub not_own : Begins name (codes "x-milk-") → ⊥
  pub not_openai : target ≡ candidate → Begins name (codes "openai-") → ⊥
  pub not_x_openai : target ≡ candidate → Begins name (codes "x-openai-") → ⊥

beta :
    (target : RouteTarget) (stripped : List Bytes) (name : Bytes)
    → skip_upstream target stripped name ≡ false
    → target ≡ candidate
    → (name == codes "openai-beta") ≡ false
unfolding skip_upstream
beta candidate stripped name h e = ground arith
beta baseline stripped name h e = absurd cc

skip_upstream-IsUpstream :
    (target : RouteTarget) (headers : HeaderMap) (name : Bytes)
    → skip_upstream target (stripped_headers headers) name ≡ false
    → IsUpstream target headers name
unfolding skip_upstream
skip_upstream-IsUpstream target headers name h =
    let (not_nominated, not_hop, not_host, not_length) =
      stripped_headers-absent headers name (ground arith) in
    record {
      allowed = allowed_upstream_request_header-IsAllowed name (ground arith);
      not_nominated = not_nominated;
      not_hop = not_hop;
      not_host = not_host;
      not_length = not_length;
      not_own = not-Begins name (codes "x-milk-") (ground arith);
      not_authorization = differs name (codes "authorization") (ground arith);
      not_organization = differs name (codes "openai-organization") (ground arith);
      not_project = differs name (codes "openai-project") (ground arith);
      not_beta =
          λ e. differs name (codes "openai-beta") (beta target (stripped_headers headers) name h e);
    }

openai :
    (target : RouteTarget) (stripped : List Bytes) (name : Bytes)
    → skip_downstream target stripped name ≡ false
    → target ≡ candidate
    → starts_with name (codes "openai-") ≡ false
unfolding skip_downstream
openai candidate stripped name h e = ground arith
openai baseline stripped name h e = absurd cc

x_openai :
    (target : RouteTarget) (stripped : List Bytes) (name : Bytes)
    → skip_downstream target stripped name ≡ false
    → target ≡ candidate
    → starts_with name (codes "x-openai-") ≡ false
unfolding skip_downstream
x_openai candidate stripped name h e = ground arith
x_openai baseline stripped name h e = absurd cc

skip_downstream-IsDownstream :
    (target : RouteTarget) (headers : HeaderMap) (name : Bytes)
    → skip_downstream target (stripped_reqwest_headers headers) name ≡ false
    → IsDownstream target headers name
unfolding skip_downstream
skip_downstream-IsDownstream target headers name h =
    let (not_nominated, not_hop) = stripped_reqwest_headers-absent headers name (ground arith) in
    record {
      allowed = allowed_downstream_response_header-IsAllowed name (ground arith);
      not_nominated = not_nominated;
      not_hop = not_hop;
      not_own = not-Begins name (codes "x-milk-") (ground arith);
      not_openai = λ e.
          not-Begins name (codes "openai-")
            (openai target (stripped_reqwest_headers headers) name h e);
      not_x_openai = λ e.
          not-Begins name (codes "x-openai-")
            (x_openai target (stripped_reqwest_headers headers) name h e);
    }

insert_header-HasHeader :
    (name value : Bytes) (headers : HeaderMap) (header : Bytes × Bytes)
    → HasHeader header (insert_header name value headers)
    → (header ≡ (name, value)) ⊎ HasHeader header headers
unfolding insert_header
insert_header-HasHeader name value [] header (inl e) = inl (sym e)
insert_header-HasHeader name value [] header (inr none_left) = elim none_left [ ]
insert_header-HasHeader name value ((n, v) ∷ rest) header found = elim (Bool-cases (n == name)) [
  | inl same ↦
      elim (insert_header-HasHeader name value rest header
        (subst (HasHeader header) (if-true _ _ _ same) found)) [
          | inl e ↦ inl e
          | inr later ↦ inr (inr later)
        ]
  | inr other ↦ elim (subst (HasHeader header) (if-false _ _ _ other) found) [
    | inl e ↦ inr (inl e)
    | inr later ↦ elim (insert_header-HasHeader name value rest header later) [
      | inl e ↦ inl e
      | inr there ↦ inr (inr there)
    ]
  ]
]

insert_header_own :
    (name value : Bytes) (headers : HeaderMap)
    → HasHeader (name, value) (insert_header name value headers)
unfolding insert_header
insert_header_own name value [] = inl refl
insert_header_own name value ((n, v) ∷ rest) =
    if-either (HasHeader (name, value)) (n == name) _ _ (λ same. insert_header_own name value rest)
      (λ other. inr (insert_header_own name value rest))

with_header-eq-ok :
    (header : Bytes × Bytes) (rest : Result HeaderMap) {forwarded : HeaderMap}
    → with_header header rest ≡ ok forwarded
    → (later : HeaderMap) × (rest ≡ ok later) × (header ∷ later ≡ forwarded)
with_header-eq-ok header (err e) h = cc
with_header-eq-ok header (ok later) h = (later, refl, ok-injective h)

module _ (valid_name valid_value : Bytes → Bool) where
  forward_headers-HasHeader :
      (skip : Bytes → Bool) (headers forwarded : HeaderMap)
      → forward_headers valid_name valid_value skip headers ≡ ok forwarded
      → (header : Bytes × Bytes) → HasHeader header forwarded
      → HasHeader header headers × (skip (lower header.0) ≡ false)
  unfolding forward_headers
  forward_headers-HasHeader skip [] forwarded h header found =
      absurd (subst (HasHeader header) (sym (ok-injective h)) found)
  forward_headers-HasHeader skip ((name, value) ∷ rest) forwarded h header found =
      elim (Bool-cases (skip (lower name))) [
        | inl skipped ↦
            let (there, kept) =
              forward_headers-HasHeader skip rest forwarded (sym (if-true _ _ _ skipped) ∙ h) header
                found in
            (inr there, kept)
        | inr kept ↦
            let (_, h1) =
              if-eq-ok (not (valid_name name)) "invalid HTTP header name" _
                (sym (if-false _ _ _ kept) ∙ h) in
            let (_, h2) = if-eq-ok (not (valid_value value)) "failed to parse header value" _ h1 in
            let (later, got, e) = with_header-eq-ok (name, value) _ h2 in
            elim (subst (HasHeader header) (sym e) found) [
              | inl same ↦ (inl same, subst (λ k. skip (lower k.0) ≡ false) same kept)
              | inr in_later ↦
                  let (there, others) =
                    forward_headers-HasHeader skip rest later got header in_later in
                  (inr there, others)
            ]
      ]

  -- Every header that `upstream_request_headers` makes of the headers of a request is `accept-encoding:
  -- identity`, or one of the request's, under one of the six names and the prefix that are allowed. Its
  -- name is no token of a `Connection` header of the request, none that is kept to a hop, not `host` or
  -- `content-length`, no name of this gateway, no credential, organization or project of the client,
  -- and, for the candidate, not `openai-beta`. `accept-encoding: identity` is
  -- always there. (The credential of the provider is added later.)
  pub upstream_request_headers-IsUpstream :
      (headers forwarded : HeaderMap) (target : RouteTarget)
      → upstream_request_headers valid_name valid_value headers target ≡ ok forwarded
      → (header : Bytes × Bytes) → HasHeader header forwarded
      → ((header ≡ (codes "accept-encoding", codes "identity"))
          ⊎ (HasHeader header headers × IsUpstream target headers (lower header.0)))
        × HasHeader (codes "accept-encoding", codes "identity") forwarded
  unfolding upstream_request_headers
  upstream_request_headers-IsUpstream headers forwarded target h header found =
      let skip : Bytes → Bool = skip_upstream target (stripped_headers headers) in
      let (kept, got, e) = >>=-eq-ok (forward_headers valid_name valid_value skip headers) _ h in
      (
        elim (insert_header-HasHeader (codes "accept-encoding") (codes "identity") kept header
            (subst (HasHeader header) (sym (ok-injective e)) found)) [
              | inl own ↦ inl own
              | inr old ↦
                  let (there, passes) =
                    forward_headers-HasHeader skip headers kept got header old in
                  inr (there, skip_upstream-IsUpstream target headers (lower header.0) passes)
            ],
        subst (HasHeader (codes "accept-encoding", codes "identity")) (ok-injective e)
            (insert_header_own (codes "accept-encoding") (codes "identity") kept),
      )

  -- Every header that `downstream_response_headers` takes over from a response is one of the response's,
  -- under one of the ten names and the three prefixes that are allowed. Its name is no token of a
  -- `Connection` header of the response, none that is kept to a hop, no name of this gateway, and, from
  -- the candidate, none that begins with `openai-` or `x-openai-`. (The gateway adds its own later.)
  pub downstream_response_headers-IsDownstream :
      (headers forwarded : HeaderMap) (target : RouteTarget)
      → downstream_response_headers valid_name valid_value headers target ≡ ok forwarded
      → (header : Bytes × Bytes) → HasHeader header forwarded
      → HasHeader header headers × IsDownstream target headers (lower header.0)
  unfolding downstream_response_headers
  downstream_response_headers-IsDownstream headers forwarded target h header found =
      let skip : Bytes → Bool = skip_downstream target (stripped_reqwest_headers headers) in
      let (there, passes) = forward_headers-HasHeader skip headers forwarded h header found in
      (there, skip_downstream-IsDownstream target headers (lower header.0) passes)
