-- ===== src/Route/Pointer.antt =====
-- `RouteLivePointer`: `new`, `parse` and `to_bytes`.
pub mod RoundTrip
use milk_carton.Base.{
  ℕ, Bool, not, Option, Bytes, codes, length, ltb, nat_eq, ◌==◌, ℕ-Eq, List-Eq, Option-Eq, some,
  none, Result, ok, err, bail_if, context, transpose, ◌>>=◌, ◌>>◌,
}
use mathlib.Core.Option
use milk_carton.Hex.{decode_lowercase_hex_32, hex_digest}
use milk_carton.Route.Types.{RouteScope, RouteLivePointer, RouteLivePointerWire}
use milk_carton.Route.Libs.{Libs}

unfoldable pub route_live_schema_version : Bytes
route_live_schema_version = codes "milk.route-live.v1"

abbrev pub max_route_live_bytes : ℕ
max_route_live_bytes = 1024

unfoldable pub new_pointer : RouteScope → Bytes → Option Bytes → Result RouteLivePointer
new_pointer scope route_revision previous_route_revision = do
  bail_if (previous_route_revision == some route_revision)
      "live route pointer cannot select its previous revision"
  ok (record {
    scope = scope;
    route_revision = route_revision;
    previous_route_revision = previous_route_revision;
  })

unfoldable pub wire_of : RouteLivePointer → RouteLivePointerWire
wire_of pointer = record {
  schema_version = route_live_schema_version;
  scope = pointer.scope;
  route_revision = hex_digest pointer.route_revision;
  previous_route_revision = Option.map hex_digest pointer.previous_route_revision;
}

module _ (libs : Libs) where
  open libs use {parse_pointer_json, pointer_json}

  unfoldable pub parse_pointer : RouteScope → Bytes → Result RouteLivePointer
  parse_pointer expected_scope bytes = do
    bail_if (ltb max_route_live_bytes (length bytes)) "live route pointer exceeds 1024 bytes"
    wire ← context (parse_pointer_json bytes) "live route pointer is not strict typed JSON"
    bail_if (not (pointer_json wire == bytes)) "live route pointer is not canonical JSON"
    bail_if (not (wire.schema_version == route_live_schema_version))
        "live route pointer has an unsupported schema version"
    bail_if (not (nat_eq wire.scope.scope_id expected_scope.scope_id))
        "live route pointer scope does not match startup configuration"
    route_revision ← decode_lowercase_hex_32 wire.route_revision "live route revision"
    previous_route_revision ← transpose (
        Option.map (λ revision. decode_lowercase_hex_32 revision "previous live route revision")
          wire.previous_route_revision)
    new_pointer wire.scope route_revision previous_route_revision

  unfoldable pub pointer_to_bytes : RouteLivePointer → Bytes
  pointer_to_bytes pointer = pointer_json (wire_of pointer)
