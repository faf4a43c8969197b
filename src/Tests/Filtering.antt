-- ===== src/Tests/Filtering.antt =====
-- A request with a credential and a header that its `Connection` nominates, and a response.
use milk_carton.Base.{list_eq, ◌≡◌, ◌⊎◌, inl, refl, Bool, true, [], ◌∷◌, Bytes, codes, ok}
use milk_carton.Route.Types.{candidate}
use milk_carton.Partition.{split_parts}
use milk_carton.Text.Utf8.{from_utf8, trim, to_ascii_lowercase}
use milk_carton.Headers.{
  forward_headers, has, starts_with, connection_names, extend_connection_tokens, token_names,
  hop_by_hop_headers, skip_upstream, skip_downstream, allowed_upstream_request_header,
  allowed_downstream_response_header, insert_header, HeaderMap, lower, stripped_headers,
  stripped_reqwest_headers, upstream_request_headers, downstream_response_headers,
}
use milk_carton.Headers.Names.{HasHeader}
use milk_carton.Headers.Filtered.{
  IsUpstream, IsDownstream, upstream_request_headers-IsUpstream,
  downstream_response_headers-IsDownstream,
}

abbrev accepted : Bytes → Bool
accepted text = true

abbrev request_headers : HeaderMap
request_headers =
    (codes "accept", codes "a/b")
    ∷ (codes "authorization", codes "k")
    ∷ (codes "connection", codes "TE, user-agent")
    ∷ (codes "user-agent", codes "u")
    ∷ []

abbrev accept : Bytes × Bytes
accept = (codes "accept", codes "a/b")

abbrev identity : Bytes × Bytes
identity = (codes "accept-encoding", codes "identity")

abbrev etag : Bytes × Bytes
etag = (codes "etag", codes "e")

abbrev sent : HeaderMap
sent = accept ∷ identity ∷ []

request_headers-sent :
    upstream_request_headers accepted accepted request_headers candidate ≡ ok sent
unfolding forward_headers has starts_with connection_names extend_connection_tokens token_names
    hop_by_hop_headers split_parts skip_upstream allowed_upstream_request_header insert_header
    list_eq stripped_headers upstream_request_headers from_utf8 trim to_ascii_lowercase
request_headers-sent = refl

abbrev response_headers : HeaderMap
response_headers = (codes "etag", codes "e") ∷ (codes "openai-model", codes "m") ∷ []

abbrev returned : HeaderMap
returned = (codes "etag", codes "e") ∷ []

response_headers-returned :
    downstream_response_headers accepted accepted response_headers candidate ≡ ok returned
unfolding forward_headers has starts_with connection_names extend_connection_tokens token_names
    hop_by_hop_headers split_parts skip_downstream allowed_downstream_response_header insert_header
    list_eq stripped_reqwest_headers downstream_response_headers to_ascii_lowercase
response_headers-returned = refl

upstream_request_headers-IsUpstream_example :
    ((accept ≡ identity)
      ⊎ (HasHeader accept request_headers
          × IsUpstream candidate request_headers (lower (codes "accept"))))
    × HasHeader identity sent
upstream_request_headers-IsUpstream_example =
    upstream_request_headers-IsUpstream accepted accepted request_headers sent candidate
      request_headers-sent accept (inl refl)

downstream_response_headers-IsDownstream_example :
    HasHeader etag response_headers × IsDownstream candidate response_headers (lower (codes "etag"))
downstream_response_headers-IsDownstream_example =
    downstream_response_headers-IsDownstream accepted accepted response_headers returned candidate
      response_headers-returned etag (inl refl)
