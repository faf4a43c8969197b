-- ===== src/Headers.antt =====
-- The header filters of main.rs: `upstream_request_headers`, `downstream_response_headers` and the
-- headers that a hop may not pass on. A header map is a list of names and values; `valid_name` and
-- `valid_value` say what the crate that sends the headers accepts.
pub mod Filtered
pub mod Names
pub mod Nominated
use milk_carton.Base.{
  ℕ, suc, Bool, true, false, ◌&&◌, ◌||◌, not, Option, none, some, List, [], ◌∷◌, ◌++◌, Bytes, codes,
  map, any, leb, nat_eq, length, take, if◌then◌else◌, ◌==◌, ℕ-Eq, List-Eq, Result, ok, err, bail_if,
  ◌>>=◌, ◌>>◌,
}
use milk_carton.Text.Utf8.{from_utf8, trim, to_ascii_lowercase}
use milk_carton.Route.Types.{RouteTarget, candidate, baseline}
use milk_carton.Partition.{split_parts}

abbrev pub HeaderMap : Type 0
HeaderMap = List (Bytes × Bytes)

abbrev pub session_id_header : Bytes
session_id_header = codes "x-milk-session-id"

unfoldable pub starts_with : Bytes → Bytes → Bool
starts_with text prefix = take (length prefix) text == prefix

-- `HashSet::contains`
unfoldable pub has : List Bytes → Bytes → Bool
has names name = any (λ known. known == name) names

abbrev pub lower : Bytes → Bytes
lower text = map to_ascii_lowercase text

unfoldable pub hop_by_hop_headers : List Bytes
hop_by_hop_headers =
    codes "connection"
    ∷ codes "keep-alive"
    ∷ codes "proxy-authenticate"
    ∷ codes "proxy-authorization"
    ∷ codes "proxy-connection"
    ∷ codes "te"
    ∷ codes "trailer"
    ∷ codes "transfer-encoding"
    ∷ codes "upgrade"
    ∷ []

abbrev pub is_empty : Bytes → Bool
is_empty [] = true
is_empty (c ∷ text) = false

-- The names that the tokens of a `Connection` value add.
unfoldable pub token_names : List Bytes → List Bytes
token_names [] = []
token_names (token ∷ rest) =
    let names = token_names rest in
    if not (is_empty (trim token)) then lower (trim token) ∷ names else names

abbrev tokens_of : Option Bytes → List Bytes
tokens_of none = []
tokens_of (some text) = token_names (split_parts b',' text)

unfoldable pub extend_connection_tokens : Bytes → List Bytes
extend_connection_tokens value = tokens_of (from_utf8 value)

-- The tokens of all `Connection` headers.
unfoldable pub connection_names : HeaderMap → List Bytes
connection_names [] = []
connection_names ((name, value) ∷ rest) =
    let names = connection_names rest in
    if name == codes "connection" then extend_connection_tokens value ++ names else names

unfoldable pub stripped_headers : HeaderMap → List Bytes
stripped_headers headers =
    connection_names headers ++ (codes "content-length" ∷ codes "host" ∷ hop_by_hop_headers)

unfoldable pub stripped_reqwest_headers : HeaderMap → List Bytes
stripped_reqwest_headers headers = connection_names headers ++ hop_by_hop_headers

unfoldable pub allowed_upstream_request_header : Bytes → Bool
allowed_upstream_request_header name =
    name == codes "accept"
    || name == codes "content-encoding"
    || name == codes "content-type"
    || name == codes "openai-beta"
    || name == codes "user-agent"
    || name == codes "x-client-request-id"
    || starts_with name (codes "x-stainless-")

unfoldable pub allowed_downstream_response_header : Bytes → Bool
allowed_downstream_response_header name =
    name == codes "cache-control"
    || name == codes "content-encoding"
    || name == codes "content-length"
    || name == codes "content-type"
    || name == codes "etag"
    || name == codes "retry-after"
    || name == codes "vary"
    || name == codes "www-authenticate"
    || name == codes "x-request-id"
    || name == codes "x-should-retry"
    || starts_with name (codes "openai-")
    || starts_with name (codes "x-openai-")
    || starts_with name (codes "x-ratelimit-")

abbrev pub for_candidate : RouteTarget → Bool
for_candidate candidate = true
for_candidate baseline = false

-- The request header is not sent to the target.
unfoldable pub skip_upstream : RouteTarget → List Bytes → Bytes → Bool
skip_upstream target stripped name =
    has stripped name
    || starts_with name (codes "x-milk-")
    || name == session_id_header
    || name == codes "authorization"
    || name == codes "openai-organization"
    || name == codes "openai-project"
    || for_candidate target && name == codes "openai-beta"
    || not (allowed_upstream_request_header name)

-- The response header of the target is not sent to the client.
unfoldable pub skip_downstream : RouteTarget → List Bytes → Bytes → Bool
skip_downstream target stripped name =
    has stripped name
    || starts_with name (codes "x-milk-")
    || for_candidate target
      && (starts_with name (codes "openai-") || starts_with name (codes "x-openai-"))
    || not (allowed_downstream_response_header name)

abbrev with_header : Bytes × Bytes → Result HeaderMap → Result HeaderMap
with_header header (err error) = err error
with_header header (ok forwarded) = ok (header ∷ forwarded)

-- `insert` replaces the values that the name has.
unfoldable pub insert_header : Bytes → Bytes → HeaderMap → HeaderMap
insert_header name value [] = (name, value) ∷ []
insert_header name value ((n, v) ∷ rest) =
    let later = insert_header name value rest in if n == name then later else (n, v) ∷ later

module _ (valid_name valid_value : Bytes → Bool) where
  -- The loop over the headers; the first that is not valid ends it.
  unfoldable pub forward_headers : (Bytes → Bool) → HeaderMap → Result HeaderMap
  forward_headers skip [] = ok []
  forward_headers skip ((name, value) ∷ rest) =
      let forwarded = forward_headers skip rest in
      if skip (lower name)
      then forwarded
      else if not (valid_name name)
      then err "invalid HTTP header name"
      else if not (valid_value value)
      then err "failed to parse header value"
      else with_header (name, value) forwarded

  unfoldable pub upstream_request_headers : HeaderMap → RouteTarget → Result HeaderMap
  upstream_request_headers headers target = do
    forwarded ← forward_headers (skip_upstream target (stripped_headers headers)) headers
    ok (insert_header (codes "accept-encoding") (codes "identity") forwarded)

  unfoldable pub downstream_response_headers : HeaderMap → RouteTarget → Result HeaderMap
  downstream_response_headers headers target =
      forward_headers (skip_downstream target (stripped_reqwest_headers headers)) headers
