-- ===== src/Tests/Decisions.antt =====
-- Tests and witnesses of the activation of a route and of `decide`.
use milk_carton.Base.{
  ◌≡◌, ◌≤◌, ◌<◌, ◌+◌, ◌-◌, ◌↔◌, refl, false, none, some, [], ◌++◌, codes, Result, ok, err, list_eq,
  option_eq, arith,
}
use milk_carton.Sampling.{u64_from_be_bytes, sticky_sample, selected}
use milk_carton.Hex.{push_byte, decode_pairs, decode_lowercase_hex_32, hex_digest}
use milk_carton.Hex.Digits.{is_lowercase_hex, from_str_radix_16, hex_digit}
use milk_carton.Text.{
  valid_model_alias, valid_bounded_ascii, valid_harness_identifier, is_json_content_type,
}
use milk_carton.Text.Utf8.{
  from_utf8, trim_start, trim, to_ascii_lowercase, split_first, eq_ignore_ascii_case,
}
use milk_carton.Route.Types.{
  RouteTarget, RouteEndpoint, seconds, capability_eq, effort_eq, profile_eq,
}
use milk_carton.Route.Url.{authorized_literal, ends_with, validate_candidate_api_base_url}
use milk_carton.Route.Validate.{
  operator_route_schema_version, validate_operator_candidate, validate_share,
  validate_operator_manifest, verify_signature,
}
use milk_carton.Route.Manifest.{
  ParsedRouteManifest, outside_window, runtime_identity, assemble, canonical_manifest,
  parse_operator_manifest, parse_manifest, parse_publication,
}
use milk_carton.Route.Manifest.Parsed.{IsParsed}
use milk_carton.Route.Prepare.{
  operator_route_proposal_schema_version, harness_code_version, harness_taxonomy_version,
  decode_all, parse_operator_route_proposal, prepare_candidate, prepare_secret,
  prepare_operator_route_manifest_inner, prepare_operator_route_manifest,
}
use milk_carton.Route.Policy.{
  ActiveRoute, RouteState, active, dormant, RoutePolicy, baseline, validate_common, dormant_reason,
  check_route_secret, activate, from_signed_bytes,
}
use milk_carton.Route.Policy.Activation.{IsActivated, from_signed_bytes-active}
use milk_carton.Route.Decide.{
  RouteRequest, candidate_route, policy_candidate, settle, chars, contains, is_responses,
  stream_flag, parse_candidate_request, input_items, candidate_input_items, check_input,
  check_request, check_state, decide,
}
use milk_carton.Route.Decide.Admits.{Admits}
use milk_carton.Route.Decide.Laws.{
  decide-candidate_iff, decide-with_share, decide_within_validity, with_share, policy_of,
}
use milk_carton.Tests.Codec.{
  read_nat, bind, write_option, read_option, count, write_all, read_n, read_list, capability_number,
  numbered_capability, effort_number, numbered_effort, profile_number, numbered_profile,
}
use milk_carton.Tests.Setup.{libs, url, config, scope, digest_text, sevens}
use milk_carton.Tests.Routes.{made, prepared}

abbrev pub signed : Result RoutePolicy
signed =
    from_signed_bytes libs config scope (some digest_text) (some (codes "k")) 8 (seconds 1_000) 0
      (made prepared).0 (sevens ++ sevens)

abbrev pub policy_or_baseline : Result RoutePolicy → RoutePolicy
unfolding baseline
policy_or_baseline (ok policy) = policy
policy_or_baseline (err e) = baseline

abbrev pub policy : RoutePolicy
policy = policy_or_baseline signed

abbrev empty_route : ActiveRoute
empty_route = record {
  manifest = record {
    candidate = none;
    candidate_basis_points = 0;
    route_secret_sha256 = none;
    not_before = 0;
    not_after = 0;
  };
  endpoint = url;
  cohort_sha256 = [];
  deployment_sha256 = [];
  expires_at = 0;
  hmac_key = [];
  max_in_flight = 0;
}

abbrev route_or_empty : RouteState → ActiveRoute
route_or_empty (active route) = route
route_or_empty (dormant reason) = empty_route

abbrev route : ActiveRoute
route = route_or_empty policy.state

abbrev pub request : RouteRequest
request = record {
  endpoint = RouteEndpoint.chat_completions;
  body = codes "{}";
  content_type = some (codes "application/json; charset=utf-8");
  has_multiple_content_types = false;
  has_content_encoding = false;
  has_openai_beta = false;
  query = [];
  routing_cohort = codes "cohort";
}

abbrev SignedAndActive : Type 0
SignedAndActive =
    (signed ≡ ok policy)
    × (policy.state ≡ active route)
    × ((decide libs policy request 5).target ≡ RouteTarget.candidate)
    × ((decide libs (policy_of [] route) request 5).target ≡ RouteTarget.candidate)
    × (route.manifest.candidate_basis_points ≡ 500)

signed-ok : SignedAndActive
unfolding prepare_operator_route_manifest prepare_operator_route_manifest_inner
    parse_operator_route_proposal decode_all operator_route_proposal_schema_version
    harness_code_version harness_taxonomy_version prepare_candidate prepare_secret parse_publication
    parse_operator_manifest canonical_manifest runtime_identity assemble outside_window
    parse_manifest validate_operator_manifest validate_operator_candidate validate_share
    operator_route_schema_version validate_candidate_api_base_url authorized_literal ends_with
    capability_eq effort_eq profile_eq list_eq option_eq decode_lowercase_hex_32 decode_pairs
    push_byte hex_digest is_lowercase_hex from_str_radix_16 hex_digit valid_model_alias
    valid_bounded_ascii valid_harness_identifier read_nat bind write_option read_option count
    write_all read_n read_list capability_number numbered_capability effort_number numbered_effort
    profile_number numbered_profile baseline from_signed_bytes verify_signature validate_common
    dormant_reason check_route_secret activate decide check_state check_request settle
    candidate_route chars contains is_responses stream_flag parse_candidate_request input_items
    candidate_input_items check_input from_utf8 trim trim_start to_ascii_lowercase split_first
    eq_ignore_ascii_case is_json_content_type sticky_sample selected u64_from_be_bytes
    policy_candidate
signed-ok = (refl, refl, refl, refl, refl)

from_signed_bytes-active_example :
    (parsed : ParsedRouteManifest) × (IsParsed libs config scope (made prepared).0 parsed)
    × (verify_signature libs config (made prepared).0 (sevens ++ sevens) ≡ ok tt)
    × (IsActivated libs config (some digest_text) (some (codes "k")) (seconds 1_000) 0 parsed route)
from_signed_bytes-active_example =
    from_signed_bytes-active libs config scope (some digest_text) (some (codes "k")) 8
      (seconds 1_000) 0 (made prepared).0 (sevens ++ sevens) route signed-ok.0 signed-ok.1

decide-candidate_iff_example :
    ((decide libs policy request 5).target ≡ RouteTarget.candidate)
    ↔ ((route : ActiveRoute) × (policy.state ≡ active route) × (Admits libs route request 5))
decide-candidate_iff_example = decide-candidate_iff libs policy request 5

decide_within_validity_example :
    (parsed : ParsedRouteManifest) × (IsParsed libs config scope (made prepared).0 parsed)
    × (parsed.manifest.not_before ≤ seconds 1_000 + (5 - 0))
    × (seconds 1_000 + (5 - 0) < parsed.manifest.not_after)
    × (0 < parsed.manifest.candidate_basis_points)
decide_within_validity_example =
    decide_within_validity libs config scope (some digest_text) (some (codes "k")) 8 (seconds 1_000)
      0 (made prepared).0 (sevens ++ sevens) policy request 5 signed-ok.0 (omega arith) signed-ok.2

decide-with_share_example :
    (decide libs (policy_of [] (with_share route 600)) request 5).target ≡ RouteTarget.candidate
decide-with_share_example =
    decide-with_share libs [] route request 5 600 (omega (arith, signed-ok.4)) (omega arith)
      signed-ok.3
