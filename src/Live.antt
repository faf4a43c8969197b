-- ===== src/Live.antt =====
-- The live route of records.rs: `load_live_pointer` and `activate_route`. Other writers act on the
-- store before each access, as in Lease.
pub mod Activated
use milk_carton.Base.{
  ℕ, Bool, true, false, ◌&&◌, ◌||◌, not, Option, none, some, List, ◌++◌, Bytes, codes, length, ltb,
  nat_eq, if◌then◌else◌, ◌==◌, ℕ-Eq, List-Eq, Option-Eq, String, Result, ok, err, bail_if, context,
  ◌>>=◌, ◌>>◌,
}
use milk_carton.Route.Types.{Uuid, RouteScope, RouteLivePointer, RoutePublication}
use milk_carton.Route.Libs.{Libs}
use milk_carton.Route.Pointer.{max_route_live_bytes, new_pointer, parse_pointer, pointer_to_bytes}
use milk_carton.Store.{
  UpdateVersion, Object, GetOutcome, found, not_found, get_failed, PutOutcome, done, already_exists,
  precondition, put_failed, ObjectStore,
}

-- The derived `PartialEq`.
unfoldable pub pointer_eq : RouteLivePointer → RouteLivePointer → Bool
pointer_eq a b =
    nat_eq a.scope.scope_id b.scope.scope_id
    && a.route_revision == b.route_revision
    && a.previous_route_revision == b.previous_route_revision

-- `uuid_text` prints an identifier.
unfoldable pub route_live_key : (Uuid → Bytes) → RouteScope → Bytes
route_live_key uuid_text scope =
    codes "milk/v1/scopes/" ++ uuid_text scope.scope_id ++ codes "/routes/current.json"

module _ (libs : Libs) where
  unfoldable pub read_pointer :
      RouteScope → GetOutcome → Result (Option (RouteLivePointer × UpdateVersion))
  read_pointer scope not_found = ok none
  read_pointer scope (get_failed error) = err error
  read_pointer scope (found object) = do
    bail_if (ltb max_route_live_bytes (length object.payload))
        "live route pointer exceeds 1024 bytes"
    pointer ← parse_pointer libs scope object.payload
    ok (some (pointer, object.meta))

-- What a put of the pointer lets the activation go on with.
unfoldable pub after_create : PutOutcome → Result (Unit {0})
after_create done = ok tt
after_create already_exists = ok tt
after_create precondition = err "precondition"
after_create (put_failed error) = err error

unfoldable pub after_update : PutOutcome → Result (Unit {0})
after_update done = ok tt
after_update already_exists = err "already exists"
after_update precondition = err "precondition"
after_update (put_failed error) = err error

-- The signed previous revision must be the one that is live.
unfoldable pub check_previous : RoutePublication → RouteLivePointer → Result (Unit {0})
check_previous publication current = do
  previous ←
      context publication.previous_route_revision
        "live route already exists but publication has no previous revision"
  bail_if (not (current.route_revision == previous))
      "live route revision differs from the signed previous revision"

module _ {S : Type 0} (libs : Libs) (uuid_text : Uuid → Bytes) (store : ObjectStore S)
    (interfere : ℕ → S → S) where
  unfoldable pub load_live_pointer :
      RouteScope → S → Result (Option (RouteLivePointer × UpdateVersion))
  load_live_pointer scope s = read_pointer libs scope (store.get s (route_live_key uuid_text scope))

  -- The load after the put.
  unfoldable pub confirm :
      RouteScope → RouteLivePointer → Result (Unit {0}) × S → Result (Unit {0}) × S
  confirm scope pointer (err error, s) = (err error, s)
  confirm scope pointer (ok _, s) =
      let s' = interfere 2 s in
      (
        (do
          loaded ← load_live_pointer scope s'
          stored ← context loaded "live route pointer is missing after activation"
          bail_if (not (pointer_eq stored.0 pointer))
              "live route pointer differs after activation"),
        s',
      )

  -- The first activation.
  unfoldable pub put_first :
      RouteScope → RouteLivePointer → Option Bytes → S → Result (Unit {0}) × S
  put_first scope pointer (some previous) s =
      (err "first live route activation cannot name a previous revision", s)
  put_first scope pointer none s =
      let put =
        store.create (interfere 1 s) (route_live_key uuid_text scope)
          (pointer_to_bytes libs pointer) in
      confirm scope pointer (after_create put.0, put.1)

  -- The put over the version that was loaded, once the lineage is checked.
  unfoldable pub put_next :
      RouteScope → RouteLivePointer → UpdateVersion → Result (Unit {0}) → S → Result (Unit {0}) × S
  put_next scope pointer meta (err error) s = (err error, s)
  put_next scope pointer meta (ok _) s =
      let put =
        store.update (interfere 1 s) (route_live_key uuid_text scope) meta
          (pointer_to_bytes libs pointer) in
      confirm scope pointer (after_update put.0, put.1)

  unfoldable pub put_pointer :
      RouteScope
      → RoutePublication
      → RouteLivePointer
      → Option (RouteLivePointer × UpdateVersion)
      → S
      → Result (Unit {0}) × S
  put_pointer scope publication pointer none s =
      put_first scope pointer publication.previous_route_revision s
  put_pointer scope publication pointer (some (current, meta)) s =
      if pointer_eq current pointer
      then (ok tt, s)
      else put_next scope pointer meta (check_previous publication current) s

  unfoldable pub put_over :
      RouteScope
      → RoutePublication
      → RouteLivePointer
      → Result (Option (RouteLivePointer × UpdateVersion))
      → S
      → Result (Unit {0}) × S
  put_over scope publication pointer (err error) s = (err error, s)
  put_over scope publication pointer (ok loaded) s = put_pointer scope publication pointer loaded s

  unfoldable pub activate_pointer :
      RouteScope → RoutePublication → Result RouteLivePointer → S → Result (Unit {0}) × S
  activate_pointer scope publication (err error) s = (err error, s)
  activate_pointer scope publication (ok pointer) s =
      let s' = interfere 0 s in put_over scope publication pointer (load_live_pointer scope s') s'

  unfoldable pub activate_route : RouteScope → RoutePublication → S → Result (Unit {0}) × S
  activate_route scope publication s =
      activate_pointer scope publication
        (new_pointer scope publication.revision publication.previous_route_revision) s
