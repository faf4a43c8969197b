-- ===== src/Partition.antt =====
-- `PartitionedObjectStore` of records.rs: the keys of the three partitions, and the operations that go
-- to the store of a partition when its access allows them. The stores of the partitions are
-- parameters, with their `delete`, `copy` and `copy_if_not_exists`; a listing changes nothing.
pub mod Laws
pub mod Isolated
use milk_carton.Base.{
  ℕ, suc, Bool, true, false, ◌&&◌, ◌||◌, not, Option, none, some, List, [], ◌∷◌, ◌++◌, Bytes, codes,
  length, leb, ltb, nat_eq, if◌then◌else◌, ◌==◌, ℕ-Eq, List-Eq, String, Result, ok, err, bail_if,
  ◌>>=◌, ◌>>◌,
}
use milk_carton.Route.Types.{Uuid}
use milk_carton.Store.{UpdateVersion, GetOutcome, get_failed, PutOutcome, put_failed, ObjectStore}

pub data StorePartition : Type 0 where
  capture control routes : StorePartition

pub data StoreAccess : Type 0 where
  read_only read_write : StoreAccess

abbrev onto_first : ℕ → List Bytes → List Bytes
onto_first b [] = (b ∷ []) ∷ []
onto_first b (part ∷ parts) = (b ∷ part) ∷ parts

-- `text.split(separator)`
unfoldable pub split_parts : ℕ → Bytes → List Bytes
split_parts separator [] = [] ∷ []
split_parts separator (c ∷ rest) =
    let parts = split_parts separator rest in
    if nat_eq c separator then [] ∷ parts else onto_first c parts

abbrev first_is_snapshots : List Bytes → Bool
first_is_snapshots [] = false
first_is_snapshots (part ∷ rest) = part == codes "snapshots"

-- The partition of the parts after the scope.
unfoldable pub partition_of : List Bytes → StorePartition
partition_of [] = control
partition_of (kind ∷ rest) =
    if kind == codes "stats"
      || kind == codes "traffic"
      || kind == codes "outcomes"
      || kind == codes "tombstones"
      || kind == codes "expiry-index"
    then capture
    else if kind == codes "frontier" && first_is_snapshots rest
    then capture
    else if kind == codes "routes"
    then routes
    else control

module _ (parse_uuid : Bytes → Option Uuid) (uuid_text : Uuid → Bytes) where
  -- The text is that of an identifier that is not nil.
  abbrev is_scope_text : Bytes → Option Uuid → Bool
  is_scope_text text none = false
  is_scope_text text (some value) = not (nat_eq value 0) && uuid_text value == text

  unfoldable pub classify_parts : List Bytes → Result StorePartition
  classify_parts (milk ∷ v1 ∷ scopes ∷ scope ∷ kind ∷ rest) =
      if not (milk == codes "milk")
        || not (v1 == codes "v1")
        || not (scopes == codes "scopes")
        || not (is_scope_text scope (parse_uuid scope))
      then err "object key is outside a milk/v1 scope authority"
      else ok (partition_of (kind ∷ rest))
  classify_parts _ = err "object key is outside a milk/v1 scope authority"

  unfoldable pub classify_store_path : Bytes → Result StorePartition
  classify_store_path location = classify_parts (split_parts b'/' location)

-- The state of the three stores.
pub record Parts (S : Type 0) : Type 0 where
  pub capture : S
  pub control : S
  pub routes : S

unfoldable pub part : {S : Type 0} → StorePartition → Parts S → S
part capture s = s.capture
part control s = s.control
part routes s = s.routes

unfoldable pub set_part : {S : Type 0} → StorePartition → S → Parts S → Parts S
set_part capture t s = record s { capture = t }
set_part control t s = record s { control = t }
set_part routes t s = record s { routes = t }

abbrev pub writable : StoreAccess → Bool
writable read_only = false
writable read_write = true

module _ {S : Type 0} (classify : Bytes → Result StorePartition)
    (access : StorePartition → Option StoreAccess) (objects : StorePartition → ObjectStore S) where
  abbrev pub allowed : Bool → StorePartition → Option StoreAccess → Result StorePartition
  allowed write partition none = err "store partition is unavailable"
  allowed write partition (some mode) =
      if write && not (writable mode) then err "store partition is read-only" else ok partition

  unfoldable pub slot : Bytes → Bool → Result StorePartition
  slot location write = do partition ← classify location; allowed write partition (access partition)

  abbrev partition_eq : StorePartition → StorePartition → Bool
  partition_eq capture capture = true
  partition_eq control control = true
  partition_eq routes routes = true
  partition_eq _ _ = false

  unfoldable pub same_writable_slot : Bytes → Bytes → Result StorePartition
  same_writable_slot from to = do
    from_partition ← classify from
    to_partition ← classify to
    bail_if (not (partition_eq from_partition to_partition)) "cross-partition copy is forbidden"
    slot to true

  -- An operation of the store of a slot, on its part of the state.
  abbrev pub in_slot {ℓ} :
      {A : Type ℓ}
      → (String → A)
      → Result StorePartition
      → (ObjectStore S → S → A × S)
      → Parts S
      → A × Parts S
  in_slot failed (err error) operation s = (failed error, s)
  in_slot failed (ok partition) operation s =
      let done = operation (objects partition) (part partition s) in
      (done.0, set_part partition done.1 s)

  abbrev pub get_in : Bytes → Result StorePartition → Parts S → GetOutcome
  get_in location (err error) s = get_failed error
  get_in location (ok partition) s = (objects partition).get (part partition s) location

  unfoldable pub partitioned_get : Parts S → Bytes → GetOutcome
  partitioned_get s location = get_in location (slot location false) s

  -- `put_opts`, in the modes that create and that update.
  unfoldable pub partitioned_create : Parts S → Bytes → Bytes → PutOutcome × Parts S
  partitioned_create s location payload =
      in_slot put_failed (slot location true) (λ store t. store.create t location payload) s

  unfoldable pub partitioned_update : Parts S → Bytes → UpdateVersion → Bytes → PutOutcome × Parts S
  partitioned_update s location version payload =
      in_slot put_failed (slot location true) (λ store t. store.update t location version payload) s

  unfoldable pub partitioned : ObjectStore (Parts S)
  partitioned = record {
    get = partitioned_get;
    create = partitioned_create;
    update = partitioned_update;
  }

  module _ (delete : S → Bytes → Result (Unit {0}) × S)
      (copy copy_if_not_exists : S → Bytes → Bytes → Result (Unit {0}) × S) where
    unfoldable pub partitioned_delete : Parts S → Bytes → Result (Unit {0}) × Parts S
    partitioned_delete s location =
        in_slot err (slot location true) (λ store t. delete t location) s

    unfoldable pub partitioned_copy : Parts S → Bytes → Bytes → Result (Unit {0}) × Parts S
    partitioned_copy s from to =
        in_slot err (same_writable_slot from to) (λ store t. copy t from to) s

    unfoldable pub partitioned_copy_if_not_exists :
        Parts S → Bytes → Bytes → Result (Unit {0}) × Parts S
    partitioned_copy_if_not_exists s from to =
        in_slot err (same_writable_slot from to) (λ store t. copy_if_not_exists t from to) s
