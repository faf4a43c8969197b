-- ===== src/Tests/Leases.antt =====
-- A store of one object whose version counts the writes, and the witnesses of Lease.
use milk_carton.Base.{
  ◌≤◌, ◌<◌, ℕ, suc, inl, inr, ◌≡◌, ◌≢◌, refl, sym, ap, ◌∙◌, Bool, true, false, Option, none, some,
  [], ◌∷◌, Bytes, codes, ok, list_eq, option_eq, ◌==◌, ==_iff, ℕ-Eq, List-Eq, Option-Eq, arith,
  if◌then◌else◌, Bool-cases,
}
use milk_carton.Route.Types.{seconds}
use milk_carton.Store.{
  UpdateVersion, GetOutcome, found, not_found, PutOutcome, done, already_exists, precondition,
  ObjectStore, StoreLaws, conditional_update_version,
}
use milk_carton.Lease.{
  TickLeaseRecord, TickLease, LeaseLibs, lease_schema_version, lease_state_valid, is_active,
  lease_eq, tick_lease_key, validate_tick_lease, new_tick_lease, read_lease, load_tick_lease,
  acquired_tick_lease, won, after_create, put_lease, put_loaded, acquire_new, acquire_tick_lease,
  release_tick_lease, after_release,
}
use milk_carton.Lease.Race.{still, put_lease_exclusive}
use milk_carton.Lease.Released.{release_tick_lease-owned}
use milk_carton.Lease.Held.{asked, acquire_tick_lease-holds}

-- The number of writes, and the payload under the one key that is used.
abbrev pub Cell : Type 0
Cell = ℕ × Option Bytes

abbrev pub version_of : ℕ → UpdateVersion
version_of n = record { e_tag = none; version = some (n ∷ []) }

abbrev pub get_cell : Cell → Bytes → GetOutcome
get_cell (n, none) key = not_found
get_cell (n, some payload) key = found (record { payload = payload; meta = version_of n })

abbrev pub create_cell : Cell → Bytes → Bytes → PutOutcome × Cell
create_cell (n, none) key payload = (done, (suc n, some payload))
create_cell (n, some old) key payload = (already_exists, (n, some old))

abbrev pub is_version : UpdateVersion → ℕ → Bool
is_version expected n = elim expected.e_tag [
  | some tag ↦ false
  | none ↦ expected.version == some (n ∷ [])
]

abbrev pub update_cell : Cell → Bytes → UpdateVersion → Bytes → PutOutcome × Cell
update_cell (n, none) key expected payload = (precondition, (n, none))
update_cell (n, some old) key expected payload =
    if is_version expected n then (done, (suc n, some payload)) else (precondition, (n, some old))

abbrev pub cell : ObjectStore Cell
cell = record { get = get_cell; create = create_cell; update = update_cell }

version_of-injective : (m n : ℕ) → version_of m ≡ version_of n → m ≡ n
version_of-injective m n h = grind arith

is_version_sound :
    (expected : UpdateVersion) (n : ℕ) → is_version expected n ≡ true → expected ≡ version_of n
is_version_sound expected n h = by_tag expected.e_tag expected.version h
  where
    by_tag :
        (tag version : Option Bytes)
        → is_version (record { e_tag = tag; version = version }) n ≡ true
        → record { e_tag = tag; version = version } ≡ version_of n
    by_tag (some t) version h = cc
    by_tag none version h =
        ap (λ v. record { e_tag = none; version = v }) ((==_iff version (some (n ∷ []))).0 h)

cell-StoreLaws : StoreLaws cell
cell-StoreLaws = record {
  create_done = created;
  update_done = updated;
  create_refused = create_refused;
  update_refused = update_refused;
}
  where
    created :
        (s : Cell) (key payload : Bytes)
        → (create_cell s key payload).0 ≡ done
        → (get_cell s key ≡ not_found)
          × ((meta : UpdateVersion) × (get_cell (create_cell s key payload).1 key
                ≡ found (record { payload = payload; meta = meta })))
    created (n, none) key payload h = (refl, (version_of (suc n), refl))
    created (n, some old) key payload h = cc

    updated :
        (s : Cell) (key : Bytes) (expected : UpdateVersion) (payload : Bytes)
        → (update_cell s key expected payload).0 ≡ done
        → ((old : Bytes) × (get_cell s key ≡ found (record { payload = old; meta = expected })))
          × ((meta : UpdateVersion) × (meta ≢ expected)
              × (get_cell (update_cell s key expected payload).1 key
                  ≡ found (record { payload = payload; meta = meta })))
    updated (n, none) key expected payload h = cc
    updated (n, some old) key expected payload h = elim (Bool-cases (is_version expected n)) [
      | inl e ↦
          let same = is_version_sound expected n e in
          (
            (old, ap (λ v. found (record { payload = old; meta = v })) (sym same)),
            (
              version_of (suc n),
              λ next. absurd (omega (arith, version_of-injective (suc n) n (next ∙ same))),
              rw e refl,
            ),
          )
      | inr e ↦ absurd (ground (arith, e, h))
    ]

    create_refused :
        (s : Cell) (key payload : Bytes)
        → (create_cell s key payload).0 ≡ already_exists
        → (create_cell s key payload).1 ≡ s
    create_refused (n, none) key payload h = cc
    create_refused (n, some old) key payload h = refl

    update_refused :
        (s : Cell) (key : Bytes) (expected : UpdateVersion) (payload : Bytes)
        → (update_cell s key expected payload).0 ≡ precondition
        → (update_cell s key expected payload).1 ≡ s
    update_refused (n, none) key expected payload h = refl
    update_refused (n, some old) key expected payload h =
        elim (Bool-cases (is_version expected n)) [
          | inl e ↦ absurd (ground (arith, e, h))
          | inr e ↦ rw e refl
        ]

-- A text that does not hold the record, and a parser that always gives the same one.
abbrev lease : TickLeaseRecord
unfolding lease_schema_version
lease = asked 9 5 (seconds 100)

abbrev libs : LeaseLibs
libs = record {
  parse_lease_json = λ bytes. some lease;
  lease_json = λ record_value. codes "{}";
  uuid_text = λ id. codes "5";
  version_num = λ id. 7;
  has_timestamp = λ id. true;
  last_date_time = seconds 10_000_000;
}

abbrev held_lease : TickLease
held_lease = record { lease = lease; version = version_of 1 }

acquired : (put_lease libs cell still (seconds 100) lease none (0, none)).0 ≡ ok (some held_lease)
unfolding put_lease after_create won acquired_tick_lease load_tick_lease read_lease
    validate_tick_lease lease_state_valid lease_eq is_active conditional_update_version
    tick_lease_key lease_schema_version list_eq option_eq
acquired = refl

put_lease_exclusive_example :
    (put_lease libs cell still
      (seconds 101)
      lease
      none
      (put_lease libs cell still (seconds 100) lease none (0, none)).1).0
    ≢ ok (some held_lease)
put_lease_exclusive_example =
    put_lease_exclusive libs cell cell-StoreLaws (seconds 100) (seconds 101) lease lease none
      (0, none) held_lease held_lease refl acquired

acquired_from_start :
    (acquire_tick_lease libs cell still 9 5 (seconds 100) (0, none)).0 ≡ ok (some held_lease)
unfolding acquire_tick_lease acquire_new new_tick_lease put_loaded put_lease after_create won
    acquired_tick_lease load_tick_lease read_lease validate_tick_lease lease_state_valid lease_eq
    is_active conditional_update_version tick_lease_key lease_schema_version list_eq option_eq
acquired_from_start = refl

acquire_tick_lease-holds_example :
    (lease ≡ asked 9 5 (seconds 100))
    × (load_tick_lease libs cell still 5
          (acquire_tick_lease libs cell still 9 5 (seconds 100) (0, none)).1
        ≡ ok (some held_lease))
acquire_tick_lease-holds_example =
    acquire_tick_lease-holds libs cell still 9 5 (seconds 100) (0, none) held_lease
      acquired_from_start

released_at_once :
    (release_tick_lease libs cell still 9 held_lease (seconds 200) (1, some (codes "{}"))).0 ≡ ok tt
unfolding release_tick_lease after_release tick_lease_key list_eq option_eq lease_schema_version
released_at_once = refl

release_tick_lease-owned_example :
    (held_lease.lease.owner_id ≡ 9)
    × (held_lease.lease.acquired_at ≤ seconds 200)
    × (seconds 200 < held_lease.lease.expires_at)
    × ((old : Bytes) × (get_cell (1, some (codes "{}")) (tick_lease_key libs held_lease.lease.scope)
          ≡ found (record { payload = old; meta = held_lease.version })))
    × ((meta : UpdateVersion) × (meta ≢ held_lease.version)
        × (get_cell
              (release_tick_lease libs cell still 9 held_lease
                (seconds 200)
                (1, some (codes "{}"))).1
              (tick_lease_key libs held_lease.lease.scope)
            ≡ found (record { payload = codes "{}"; meta = meta })))
release_tick_lease-owned_example =
    release_tick_lease-owned libs cell still cell-StoreLaws 9 held_lease (seconds 200)
      (1, some (codes "{}")) released_at_once
