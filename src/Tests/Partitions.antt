-- ===== src/Tests/Partitions.antt =====
-- Three shelves, of which only the first may be written.
use milk_carton.Base.{
  ◌≡◌, ◌≢◌, refl, Option, none, some, List, [], ◌∷◌, Bytes, codes, Result, ok, err, ℕ,
}
use milk_carton.Route.Types.{Uuid}
use milk_carton.Store.{ObjectStore, StoreLaws}
use milk_carton.Partition.{
  StorePartition, capture, control, routes, StoreAccess, read_only, read_write, classify_store_path,
  Parts, part, partitioned,
}
use milk_carton.Partition.Laws.{partitioned-StoreLaws}
use milk_carton.Partition.Isolated.{
  Request, create, delete, apply, apply_all, apply_all-read_only, apply-other_partition,
}
use milk_carton.Tests.Shelf.{Shelf, shelf, shelf-StoreLaws}

abbrev parse_uuid : Bytes → Option Uuid
parse_uuid text = some 5

abbrev uuid_text : Uuid → Bytes
uuid_text value = codes "five"

abbrev classify : Bytes → Result StorePartition
classify = classify_store_path parse_uuid uuid_text

abbrev access : StorePartition → Option StoreAccess
access capture = some read_write
access control = some read_only
access routes = none

abbrev shelves : StorePartition → ObjectStore Shelf
shelves p = shelf

abbrev delete_in : Shelf → Bytes → Result (Unit {0}) × Shelf
delete_in s key = (ok tt, [])

abbrev copy_in : Shelf → Bytes → Bytes → Result (Unit {0}) × Shelf
copy_in s from to = (err "unsupported", s)

abbrev empty : Parts Shelf
empty = record { capture = []; control = []; routes = [] }

abbrev stats_key : Bytes
stats_key = codes "milk/v1/scopes/five/stats/1.json"

abbrev job_key : Bytes
job_key = codes "milk/v1/scopes/five/jobs/1.json"

is_capture : classify stats_key ≡ ok capture
unfolding classify_store_path milk_carton.Partition.classify_parts milk_carton.Partition.split_parts
    milk_carton.Partition.partition_of milk_carton.Base.list_eq
is_capture = refl

is_control : classify job_key ≡ ok control
unfolding classify_store_path milk_carton.Partition.classify_parts milk_carton.Partition.split_parts
    milk_carton.Partition.partition_of milk_carton.Base.list_eq
is_control = refl

abbrev requests : List Request
requests = create stats_key (codes "a") ∷ create job_key (codes "b") ∷ delete job_key ∷ []

partitioned-StoreLaws_example : StoreLaws (partitioned classify access shelves)
partitioned-StoreLaws_example = partitioned-StoreLaws classify access shelves (λ p. shelf-StoreLaws)

apply_all-read_only_example :
    part control (apply_all classify access shelves delete_in copy_in copy_in requests empty)
    ≡ part control empty
apply_all-read_only_example =
    apply_all-read_only classify access shelves delete_in copy_in copy_in requests control empty
      (λ e. cc)

not_control : classify stats_key ≢ ok control
not_control e = let h = is_capture in cc

apply-other_partition_example :
    part control
      (apply classify access shelves delete_in copy_in copy_in (create stats_key (codes "a")) empty)
    ≡ part control empty
apply-other_partition_example =
    apply-other_partition classify access shelves delete_in copy_in copy_in
      (create stats_key (codes "a")) control empty not_control
