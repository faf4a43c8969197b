-- ===== src/Tests/Routes.antt =====
-- Tests and witnesses of Route.
use milk_carton.Base.{
  ◌≡◌, ◌≤◌, refl, false, none, some, [], Bytes, codes, Result, ok, err, list_eq, option_eq, length,
  arith,
}
use milk_carton.Hex.{push_byte, decode_pairs, decode_lowercase_hex_32, hex_digest}
use milk_carton.Hex.Digits.{is_lowercase_hex, from_str_radix_16, hex_digit}
use milk_carton.Text.{valid_model_alias, valid_bounded_ascii, valid_harness_identifier}
use milk_carton.Route.Types.{
  RoutePublication, RouteLivePointer, seconds, capability_eq, effort_eq, profile_eq,
}
use milk_carton.Route.Url.{authorized_literal, ends_with, validate_candidate_api_base_url}
use milk_carton.Route.Validate.{
  operator_route_schema_version, validate_operator_candidate, validate_share,
  validate_operator_manifest,
}
use milk_carton.Route.Manifest.{
  outside_window, runtime_identity, assemble, canonical_manifest, parse_operator_manifest,
  parse_manifest, parse_publication,
}
use milk_carton.Route.Prepare.{
  operator_route_proposal_schema_version, harness_code_version, harness_taxonomy_version,
  decode_all, parse_operator_route_proposal, check_zero, prepare_candidate, prepare_secret,
  prepare_operator_route_manifest_inner, prepare_operator_route_manifest,
  prepare_operator_zero_route_manifest,
}
use milk_carton.Route.Binding.{verify_operator_manifest_proposal_binding}
use milk_carton.Route.Binding.Prepares.{prepare-binds, prepare_zero-binds}
use milk_carton.Route.Pointer.{route_live_schema_version, wire_of, parse_pointer, pointer_to_bytes}
use milk_carton.Route.Pointer.RoundTrip.{IsPointer, parse_pointer-to_bytes, to_bytes-parse_pointer}
use milk_carton.Tests.Codec.{
  read_nat, bind, write_option, read_option, count, write_all, read_n, read_list, capability_number,
  numbered_capability, effort_number, numbered_effort, profile_number, numbered_profile,
}
use milk_carton.Tests.Setup.{
  libs, json, config, scope, proposal_text, digest_text, sevens, sevens-IsDigest,
}

abbrev pub nothing : RoutePublication
nothing = record {
  has_candidate = false;
  revision = [];
  cohort_sha256 = [];
  proposal_sha256 = [];
  candidate_api_key_sha256 = none;
  candidate_basis_points = 0;
  previous_route_revision = none;
  not_after = 0;
}

abbrev pub made : Result (Bytes × RoutePublication) → Bytes × RoutePublication
made (ok both) = both
made (err e) = ([], nothing)

abbrev pub prepared : Result (Bytes × RoutePublication)
prepared =
    prepare_operator_route_manifest libs config scope proposal_text (some digest_text)
      (some (codes "k")) none (seconds 1_000)

prepared-ok :
    (prepared ≡ ok ((made prepared).0, (made prepared).1))
    × ((made prepared).1.candidate_basis_points ≡ 500)
unfolding prepare_operator_route_manifest prepare_operator_route_manifest_inner
    parse_operator_route_proposal decode_all operator_route_proposal_schema_version
    harness_code_version harness_taxonomy_version prepare_candidate prepare_secret parse_publication
    parse_operator_manifest canonical_manifest runtime_identity assemble outside_window
    parse_manifest validate_operator_manifest validate_operator_candidate validate_share
    operator_route_schema_version validate_candidate_api_base_url authorized_literal ends_with
    capability_eq effort_eq profile_eq list_eq option_eq decode_lowercase_hex_32 decode_pairs
    push_byte hex_digest is_lowercase_hex from_str_radix_16 hex_digit valid_model_alias
    valid_bounded_ascii valid_harness_identifier read_nat bind write_option read_option count
    write_all read_n read_list capability_number numbered_capability effort_number numbered_effort
    profile_number numbered_profile
prepared-ok = (refl, refl)

prepare-binds_example :
    verify_operator_manifest_proposal_binding libs config scope (made prepared).0 proposal_text
    ≡ ok tt
prepare-binds_example =
    prepare-binds libs json config scope proposal_text (seconds 1_000) (some digest_text)
      (some (codes "k")) none prepared-ok.0 (omega (arith, prepared-ok.1))

abbrev zero_prepared : Result (Bytes × RoutePublication)
zero_prepared =
    prepare_operator_zero_route_manifest libs config scope proposal_text (made prepared).1
      (seconds 1_100)

zero_prepared-ok : zero_prepared ≡ ok ((made zero_prepared).0, (made zero_prepared).1)
unfolding prepare_operator_zero_route_manifest check_zero prepare_operator_route_manifest
    prepare_operator_route_manifest_inner parse_operator_route_proposal decode_all
    operator_route_proposal_schema_version harness_code_version harness_taxonomy_version
    prepare_candidate prepare_secret parse_publication parse_operator_manifest canonical_manifest
    runtime_identity assemble outside_window parse_manifest validate_operator_manifest
    validate_operator_candidate validate_share operator_route_schema_version
    validate_candidate_api_base_url authorized_literal ends_with capability_eq effort_eq profile_eq
    list_eq option_eq decode_lowercase_hex_32 decode_pairs push_byte hex_digest is_lowercase_hex
    from_str_radix_16 hex_digit valid_model_alias valid_bounded_ascii valid_harness_identifier
    read_nat bind write_option read_option count write_all read_n read_list capability_number
    numbered_capability effort_number numbered_effort profile_number numbered_profile
zero_prepared-ok = refl

prepare_zero-binds_example :
    verify_operator_manifest_proposal_binding libs config scope (made zero_prepared).0 proposal_text
    ≡ ok tt
prepare_zero-binds_example =
    prepare_zero-binds libs json config scope proposal_text (seconds 1_100) (made prepared).1
      zero_prepared-ok

abbrev live : RouteLivePointer
live = record { scope = scope; route_revision = sevens; previous_route_revision = none }

live-IsPointer : IsPointer live
live-IsPointer = record { revision = sevens-IsDigest; previous = tt; distinct = ground arith }

live-short : length (pointer_to_bytes libs live) ≤ 1024
unfolding pointer_to_bytes wire_of route_live_schema_version hex_digest hex_digit read_nat bind
    write_option count write_all
live-short = omega arith

parse_pointer-to_bytes_example : parse_pointer libs scope (pointer_to_bytes libs live) ≡ ok live
parse_pointer-to_bytes_example = parse_pointer-to_bytes libs json live live-IsPointer live-short

to_bytes-parse_pointer_example :
    (pointer_to_bytes libs live ≡ pointer_to_bytes libs live)
    × (IsPointer live)
    × (live.scope ≡ scope)
    × (length (pointer_to_bytes libs live) ≤ 1024)
to_bytes-parse_pointer_example =
    to_bytes-parse_pointer libs scope (pointer_to_bytes libs live) live
      parse_pointer-to_bytes_example
