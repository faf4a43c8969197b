-- ===== src/Lease.antt =====
-- The tick lease of records.rs: `new_tick_lease`, `validate_tick_lease`, `load_tick_lease`,
-- `acquired_tick_lease`, `acquire_tick_lease` and `release_tick_lease`. Other writers act on the
-- store wherever the code awaits: `interfere n` is what they do before the n-th access.
pub mod Race
pub mod Held
pub mod Released
use milk_carton.Base.{
  ℕ, ◌+◌, ◌/◌, ◌%◌, ◌^◌, ◌*◌, Bool, true, false, ◌&&◌, ◌||◌, not, Option, none, some, List, ◌++◌,
  Bytes, codes, length, leb, ltb, nat_eq, if◌then◌else◌, ◌==◌, ℕ-Eq, List-Eq, Option-Eq, Eq, ◌≡◌,
  ◌↔◌, ◌≢◌, String, Result, ok, err, bail_if, context, ◌>>=◌, ◌>>◌, arith, ==_iff, nat_eq_iff,
}
use milk_carton.Route.Types.{Uuid, DateTime, seconds, RouteScope}
use milk_carton.Route.Url.{is_none, is_some}
use milk_carton.Store.{
  UpdateVersion, Object, GetOutcome, found, not_found, get_failed, PutOutcome, done, already_exists,
  precondition, put_failed, ObjectStore, conditional_update_version,
}

pub data TickLeaseState : Type 0 where
  active released : TickLeaseState

pub record TickLeaseRecord : Type 0 where
  pub schema_version : Bytes
  pub scope : Uuid
  pub owner_id : Uuid
  pub acquired_at : DateTime
  pub expires_at : DateTime
  pub released_at : Option DateTime
  pub state : TickLeaseState

pub record TickLease : Type 0 where
  pub lease : TickLeaseRecord
  pub version : UpdateVersion

-- serde_json on the record, and what the crate uuid tells of an identifier.
pub record LeaseLibs : Type 0 where
  pub parse_lease_json : Bytes → Option TickLeaseRecord
  pub lease_json : TickLeaseRecord → Bytes
  pub uuid_text : Uuid → Bytes
  pub version_num : Uuid → ℕ
  pub has_timestamp : Uuid → Bool
  pub last_date_time : DateTime

abbrev pub tick_lease_ttl : ℕ
tick_lease_ttl = seconds (10 * 60)

abbrev pub max_tick_lease_bytes : ℕ
max_tick_lease_bytes = 2 * 1024

unfoldable pub lease_schema_version : Bytes
lease_schema_version = codes "milk.tick-lease.v1"

unfoldable pub lease_state_valid : TickLeaseRecord → TickLeaseState → Bool
lease_state_valid lease active = is_none lease.released_at
lease_state_valid lease released = elim lease.released_at [
  | none ↦ false
  | some released_at ↦ leb lease.acquired_at released_at && ltb released_at lease.expires_at
]

unfoldable pub is_active : TickLeaseState → Bool
is_active active = true
is_active released = false

-- The derived `PartialEq`.
unfoldable pub lease_eq : TickLeaseRecord → TickLeaseRecord → Bool
unfolding is_active
lease_eq a b =
    a.schema_version == b.schema_version
    && nat_eq a.scope b.scope
    && nat_eq a.owner_id b.owner_id
    && nat_eq a.acquired_at b.acquired_at
    && nat_eq a.expires_at b.expires_at
    && a.released_at == b.released_at
    && (if is_active a.state then is_active b.state else not (is_active b.state))

module _ (libs : LeaseLibs) where
  open libs use {
    parse_lease_json, lease_json, uuid_text, version_num, has_timestamp, last_date_time,
  }

  unfoldable pub tick_lease_key : Uuid → Bytes
  tick_lease_key scope = codes "milk/v1/scopes/" ++ uuid_text scope ++ codes "/leases/tick.json"

  unfoldable pub validate_tick_lease : Uuid → Bytes → TickLeaseRecord → Bytes → Result (Unit {0})
  validate_tick_lease scope key lease payload = do
    bail_if (ltb last_date_time (lease.acquired_at + tick_lease_ttl))
        "tick lease expiry is out of range"
    bail_if
        (not (lease_json lease == payload)
          || not (lease.schema_version == lease_schema_version)
          || not (nat_eq lease.scope scope)
          || nat_eq scope 0
          || nat_eq lease.owner_id 0
          || not (nat_eq (version_num lease.owner_id) 7)
          || not (has_timestamp lease.owner_id)
          || leb lease.expires_at lease.acquired_at
          || not (nat_eq lease.expires_at (lease.acquired_at + tick_lease_ttl))
          || not (lease_state_valid lease lease.state)
          || not (key == tick_lease_key scope))
        "tick lease identity, interval, or state is invalid"

  unfoldable pub new_tick_lease : Uuid → Uuid → DateTime → Result TickLeaseRecord
  new_tick_lease scope owner_id now = do
    bail_if (ltb last_date_time (now + tick_lease_ttl)) "tick lease expiry is out of range"
    let lease : TickLeaseRecord = record {
      schema_version = lease_schema_version;
      scope = scope;
      owner_id = owner_id;
      acquired_at = now;
      expires_at = now + tick_lease_ttl;
      released_at = none;
      state = active;
    }
    validate_tick_lease scope (tick_lease_key scope) lease (lease_json lease)
    ok lease

  -- The object as a lease, with its metadata.
  unfoldable pub read_lease : Uuid → GetOutcome → Result (Option TickLease)
  read_lease scope not_found = ok none
  read_lease scope (get_failed error) = err error
  read_lease scope (found object) = do
    bail_if (ltb max_tick_lease_bytes (length object.payload))
        "tick lease exceeds its hard byte limit"
    lease ← context (parse_lease_json object.payload) "tick lease is not strict typed JSON"
    validate_tick_lease scope (tick_lease_key scope) lease object.payload
    ok (some (record { lease = lease; version = object.meta }))

module _ {S : Type 0} (libs : LeaseLibs) (store : ObjectStore S) (interfere : ℕ → S → S) where
  open libs use {lease_json}

  unfoldable pub load_tick_lease : Uuid → S → Result (Option TickLease)
  load_tick_lease scope s = read_lease libs scope (store.get s (tick_lease_key libs scope))

  unfoldable pub acquired_tick_lease : TickLeaseRecord → S → Result TickLease
  acquired_tick_lease expected s = do
    loaded ← load_tick_lease expected.scope s
    stored ← context loaded "tick lease disappeared after acquisition"
    bail_if (not (lease_eq stored.lease expected)) "tick lease changed after acquisition"
    version ←
        conditional_update_version stored.version "tick lease has no conditional-update identity"
    ok (record { lease = stored.lease; version = version })

  -- A contender's lease must still be there.
  unfoldable pub contended : TickLeaseRecord → S → Result (Option TickLease) × S
  contended lease s =
      let s' = interfere 2 s in
      (
        (do
          loaded ← load_tick_lease lease.scope s'
          context loaded "contended tick lease disappeared"
          ok none),
        s',
      )

  unfoldable pub won : TickLeaseRecord → S → Result (Option TickLease) × S
  won lease s =
      let s' = interfere 2 s in
      ((do acquired ← acquired_tick_lease lease s'; ok (some acquired)), s')

  unfoldable pub after_create : TickLeaseRecord → PutOutcome × S → Result (Option TickLease) × S
  after_create lease (done, s) = won lease s
  after_create lease (already_exists, s) = contended lease s
  after_create lease (precondition, s) = (err "precondition", s)
  after_create lease (put_failed error, s) = (err error, s)

  unfoldable pub after_update : TickLeaseRecord → PutOutcome × S → Result (Option TickLease) × S
  after_update lease (done, s) = won lease s
  after_update lease (precondition, s) = contended lease s
  after_update lease (already_exists, s) = (err "already exists", s)
  after_update lease (put_failed error, s) = (err error, s)

  unfoldable pub update_lease :
      TickLeaseRecord → Result UpdateVersion → S → Result (Option TickLease) × S
  update_lease lease (err error) s = (err error, s)
  update_lease lease (ok version) s =
      after_update lease
        (store.update (interfere 1 s) (tick_lease_key libs lease.scope) version (lease_json lease))

  -- The put, on what the first load has shown.
  unfoldable pub put_lease :
      DateTime → TickLeaseRecord → Option TickLease → S → Result (Option TickLease) × S
  put_lease now lease none s =
      after_create lease
        (store.create (interfere 1 s) (tick_lease_key libs lease.scope) (lease_json lease))
  put_lease now lease (some current) s =
      if is_active current.lease.state && ltb now current.lease.expires_at
      then (ok none, s)
      else update_lease lease
          (conditional_update_version current.version
            "tick lease has no conditional-update identity")
          s

  unfoldable pub put_loaded :
      DateTime → TickLeaseRecord → Result (Option TickLease) → S → Result (Option TickLease) × S
  put_loaded now lease (err error) s = (err error, s)
  put_loaded now lease (ok loaded) s = put_lease now lease loaded s

  unfoldable pub acquire_new :
      Uuid → DateTime → Result TickLeaseRecord → S → Result (Option TickLease) × S
  acquire_new scope now (err error) s = (err error, s)
  acquire_new scope now (ok lease) s =
      if ltb max_tick_lease_bytes (length (lease_json lease))
      then (err "tick lease exceeds its hard byte limit", s)
      else (let s' = interfere 0 s in put_loaded now lease (load_tick_lease scope s') s')

  -- `writer_id` is the field of the store that names the process.
  unfoldable pub acquire_tick_lease : Uuid → Uuid → DateTime → S → Result (Option TickLease) × S
  acquire_tick_lease writer_id scope now s =
      acquire_new scope now (new_tick_lease libs scope writer_id now) s

  unfoldable pub after_release : PutOutcome × S → Result (Unit {0}) × S
  after_release (done, s) = (ok tt, s)
  after_release (precondition, s) = (err "tick lease ownership changed before release", s)
  after_release (already_exists, s) = (err "already exists", s)
  after_release (put_failed error, s) = (err error, s)

  abbrev pub released_record : TickLeaseRecord → DateTime → TickLeaseRecord
  released_record lease now = record lease { released_at = some now; state = released }

  unfoldable pub release_tick_lease : Uuid → TickLease → DateTime → S → Result (Unit {0}) × S
  release_tick_lease writer_id lease now s =
      if not (nat_eq lease.lease.owner_id writer_id)
        || ltb now lease.lease.acquired_at
        || leb lease.lease.expires_at now
      then (err "tick lease cannot be released outside its owned active interval", s)
      else if ltb max_tick_lease_bytes (length (lease_json (released_record lease.lease now)))
      then (err "tick lease exceeds its hard byte limit", s)
      else after_release (
          store.update (interfere 0 s) (tick_lease_key libs lease.lease.scope) lease.version
            (lease_json (released_record lease.lease now)))
