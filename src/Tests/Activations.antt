-- ===== src/Tests/Activations.antt =====
-- Tests and witnesses of Live.
use milk_carton.Base.{◌≡◌, refl, true, Option, none, Bytes, codes, ok, list_eq, option_eq}
use milk_carton.Hex.{push_byte, decode_pairs, decode_lowercase_hex_32, hex_digest}
use milk_carton.Hex.Digits.{is_lowercase_hex, from_str_radix_16, hex_digit}
use milk_carton.Route.Types.{Uuid, RoutePublication, RouteLivePointer}
use milk_carton.Route.Pointer.{
  route_live_schema_version, new_pointer, wire_of, parse_pointer, pointer_to_bytes,
}
use milk_carton.Store.{UpdateVersion}
use milk_carton.Lease.Race.{still}
use milk_carton.Live.{
  pointer_eq, after_create, route_live_key, read_pointer, load_live_pointer, confirm, put_first,
  put_pointer, put_over, activate_pointer, activate_route,
}
use milk_carton.Live.Activated.{published, Follows, IsLive, activate_route-Follows}
use milk_carton.Tests.Codec.{
  read_nat, bind, write_option, read_option, count, write_all, read_n, read_list,
}
use milk_carton.Tests.Setup.{libs, scope, sevens}
use milk_carton.Tests.Leases.{cell}

abbrev first_publication : RoutePublication
first_publication = record {
  has_candidate = true;
  revision = sevens;
  cohort_sha256 = sevens;
  proposal_sha256 = sevens;
  candidate_api_key_sha256 = none;
  candidate_basis_points = 500;
  previous_route_revision = none;
  not_after = 0;
}

abbrev text_of : Uuid → Bytes
text_of id = codes "5"

activated : (activate_route libs text_of cell still scope first_publication (0, none)).0 ≡ ok tt
unfolding activate_route activate_pointer put_over put_pointer put_first confirm after_create
    load_live_pointer read_pointer route_live_key pointer_eq new_pointer parse_pointer
    pointer_to_bytes wire_of route_live_schema_version decode_lowercase_hex_32 decode_pairs
    push_byte hex_digest is_lowercase_hex from_str_radix_16 hex_digit list_eq option_eq read_nat
    bind write_option read_option count write_all read_n read_list
activated = refl

activate_route-Follows_example :
    (before : Option (RouteLivePointer × UpdateVersion)) × (load_live_pointer libs text_of cell
        still scope
        (0, none)
      ≡ ok before)
    × (Follows libs text_of cell still scope first_publication
        (published scope first_publication)
        before)
    × (IsLive libs text_of cell still scope
        (published scope first_publication)
        (activate_route libs text_of cell still scope first_publication (0, none)).1)
activate_route-Follows_example =
    activate_route-Follows libs text_of cell still scope first_publication (0, none) activated
