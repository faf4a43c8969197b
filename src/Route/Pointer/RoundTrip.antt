-- ===== src/Route/Pointer/RoundTrip.antt =====
-- The pointer that is written is read back, and only one text is read as a pointer.
use milk_carton.Base.{
  inl, inr, ◌≡◌, ◌≤◌, ◌≢◌, refl, sym, ap, ◌∙◌, false, not, Option, none, some, Bytes, length, ltb,
  nat_eq, ◌==◌, ==_iff, ==_refl, ℕ-Eq, List-Eq, Option-Eq, ok, context, transpose, >>=-eq-ok,
  bail_if-eq-ok, ok-injective, not-false, arith, Bool-cases, nat_eq_iff,
}
use mathlib.Core.Option
use mathlib.Core.Bool.{false≢true}
use milk_carton.Hex.{decode_lowercase_hex_32, hex_digest, IsDigest}
use milk_carton.Hex.RoundTrip.{decode-hex_digest, hex_digest-decode}
use milk_carton.Route.Types.{RouteScope, RouteLivePointer}
use milk_carton.Route.Libs.{Libs, JsonRoundTrip}
use milk_carton.Route.Pointer.{
  route_live_schema_version, max_route_live_bytes, new_pointer, parse_pointer, wire_of,
  pointer_to_bytes,
}

abbrev IsOptionDigest : Option Bytes → Type 0
IsOptionDigest none = Unit {0}
IsOptionDigest (some digest) = IsDigest digest

-- What `RouteLivePointer::new` and the types of the fields give.
pub record IsPointer (pointer : RouteLivePointer) : Type 0 where
  pub revision : IsDigest pointer.route_revision
  pub previous : IsOptionDigest pointer.previous_route_revision
  pub distinct : pointer.previous_route_revision ≢ some pointer.route_revision

decode_previous :
    (previous : Option Bytes)
    → IsOptionDigest previous
    → transpose (
        Option.map
          (λ revision. decode_lowercase_hex_32 revision "previous live route revision")
          (Option.map hex_digest previous))
      ≡ ok previous
decode_previous none h = refl
decode_previous (some digest) h = rw (decode-hex_digest digest "previous live route revision" h)

encode_previous :
    (wire previous : Option Bytes)
    → transpose (
        Option.map
          (λ revision. decode_lowercase_hex_32 revision "previous live route revision")
          wire)
      ≡ ok previous
    → Option.map hex_digest previous ≡ wire
encode_previous none none h = refl
encode_previous none (some p) h = cc
encode_previous (some w) none h = absurd (ground arith)
encode_previous (some w) (some p) h =
    ap some (hex_digest-decode w p "previous live route revision" (ground arith)).1

new_pointer-distinct :
    (scope : RouteScope) (revision : Bytes) (previous : Option Bytes)
    → previous ≢ some revision
    → new_pointer scope revision previous
      ≡ ok (record { scope = scope; route_revision = revision; previous_route_revision = previous })
unfolding new_pointer
new_pointer-distinct scope revision previous h = elim (Bool-cases (previous == some revision)) [
  | inl e ↦ absurd (h ((==_iff previous (some revision)).0 e))
  | inr e ↦ rw e
]

-- A pointer whose text is within the size limit is read back from it, in its own scope.
pub parse_pointer-to_bytes :
    (libs : Libs) (json : JsonRoundTrip libs) (pointer : RouteLivePointer)
    → IsPointer pointer
    → length (pointer_to_bytes libs pointer) ≤ max_route_live_bytes
    → parse_pointer libs pointer.scope (pointer_to_bytes libs pointer) ≡ ok pointer
unfolding parse_pointer pointer_to_bytes
parse_pointer-to_bytes libs json pointer h short =
    let text = libs.pointer_json (wire_of pointer) in
    let size : ltb max_route_live_bytes (length text) ≡ false = ground (arith, short) in
    rw size (
      rw (json.pointer (wire_of pointer)) (
        rw (==_refl text) (
          unfold wire_of in
          rw (==_refl route_live_schema_version) (
            rw ((nat_eq_iff pointer.scope.scope_id pointer.scope.scope_id).1 refl) (
              rw (decode-hex_digest pointer.route_revision "live route revision" h.revision) (
                rw (decode_previous pointer.previous_route_revision h.previous) (
                  new_pointer-distinct pointer.scope pointer.route_revision
                    pointer.previous_route_revision h.distinct)))))))

option_digests :
    (wire previous : Option Bytes)
    → transpose (
        Option.map
          (λ revision. decode_lowercase_hex_32 revision "previous live route revision")
          wire)
      ≡ ok previous
    → IsOptionDigest previous
option_digests none none h = tt
option_digests none (some p) h = absurd (ground arith)
option_digests (some w) none h = tt
option_digests (some w) (some p) h =
    (hex_digest-decode w p "previous live route revision" (ground arith)).0

new_pointer-fields :
    (scope : RouteScope) (revision : Bytes) (previous : Option Bytes) {pointer : RouteLivePointer}
    → new_pointer scope revision previous ≡ ok pointer
    → (pointer
        ≡ record { scope = scope; route_revision = revision; previous_route_revision = previous })
      × (previous ≢ some revision)
unfolding new_pointer
new_pointer-fields scope revision previous h =
    let (distinct, h) = bail_if-eq-ok (previous == some revision) _ _ h in
    (sym (ok-injective h), λ e. false≢true (sym distinct ∙ (==_iff previous (some revision)).1 e))

-- What is read as a pointer is its canonical text and no other, and has the form that `new` gives.
pub to_bytes-parse_pointer :
    (libs : Libs) (scope : RouteScope) (bytes : Bytes) (pointer : RouteLivePointer)
    → parse_pointer libs scope bytes ≡ ok pointer
    → (pointer_to_bytes libs pointer ≡ bytes)
      × (IsPointer pointer)
      × (pointer.scope ≡ scope)
      × (length bytes ≤ max_route_live_bytes)
unfolding parse_pointer pointer_to_bytes wire_of
to_bytes-parse_pointer libs scope bytes pointer h =
    let (short, h) = bail_if-eq-ok (ltb max_route_live_bytes (length bytes)) _ _ h in
    let (wire, _, h) = >>=-eq-ok (context (libs.parse_pointer_json bytes) _) _ h in
    let (canonical, h) = bail_if-eq-ok (not (libs.pointer_json wire == bytes)) _ _ h in
    let (schema, h) =
      bail_if-eq-ok (not (wire.schema_version == route_live_schema_version)) _ _ h in
    let (scoped, h) = bail_if-eq-ok (not (nat_eq wire.scope.scope_id scope.scope_id)) _ _ h in
    let (revision, decoded, h) = >>=-eq-ok (decode_lowercase_hex_32 wire.route_revision _) _ h in
    let (previous, decoded_previous, h) =
      >>=-eq-ok (transpose (Option.map _ wire.previous_route_revision)) _ h in
    let (built, distinct) = new_pointer-fields wire.scope revision previous h in
    let (is_digest, same) = hex_digest-decode wire.route_revision revision _ decoded in
    let same_id = (nat_eq_iff wire.scope.scope_id scope.scope_id).0 (not-false _ scoped) in
    let same_schema =
      (==_iff wire.schema_version route_live_schema_version).0 (not-false _ schema) in
    let same_previous = encode_previous wire.previous_route_revision previous decoded_previous in
    let same_text = (==_iff (libs.pointer_json wire) bytes).0 (not-false _ canonical) in
    (
      rw built (
          ap libs.pointer_json (λ i. record {
            schema_version = sym same_schema i;
            scope = wire.scope;
            route_revision = same i;
            previous_route_revision = same_previous i;
          })
          ∙ same_text),
      rw built (record {
        revision = is_digest;
        previous = option_digests wire.previous_route_revision previous decoded_previous;
        distinct = distinct;
      }),
      rw built (λ i. record { scope_id = same_id i }),
      ground (arith, short),
    )
