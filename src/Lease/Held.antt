-- ===== src/Lease/Held.antt =====
-- What a process holds once it has acquired the lease.
use milk_carton.Base.{
  ℕ, ◌+◌, ◌≡◌, refl, sym, ap, ◌∙◌, Bool, true, false, not, Option, none, some, ltb, if◌then◌else◌,
  String, Result, ok, err, context, arith, ==_iff, ℕ-Eq, List-Eq, Option-Eq, ok-injective,
  >>=-eq-ok, bail_if-eq-ok, not-false, subst, context-eq-ok,
}
use milk_carton.Route.Types.{DateTime, Uuid}
use milk_carton.Store.{
  UpdateVersion, PutOutcome, done, already_exists, precondition, put_failed, ObjectStore,
  conditional_update_version,
}
use milk_carton.Lease.{
  TickLeaseRecord, active, TickLease, LeaseLibs, lease_eq, tick_lease_key, lease_schema_version,
  tick_lease_ttl, new_tick_lease, validate_tick_lease, acquired_tick_lease, load_tick_lease, won,
  after_create, after_update, update_lease, put_lease, put_loaded, acquire_new, acquire_tick_lease,
}
use milk_carton.Lease.Race.{conditional_update_version-same, contended-ne-some}

lease_eq_sound : (a b : TickLeaseRecord) → lease_eq a b ≡ true → a ≡ b
unfolding lease_eq
lease_eq_sound a b h =
    ground (arith, ==_iff a.schema_version b.schema_version, ==_iff a.released_at b.released_at)

-- The lease that a process asks for.
abbrev pub asked : Uuid → Uuid → DateTime → TickLeaseRecord
asked writer_id scope now = record {
  schema_version = lease_schema_version;
  scope = scope;
  owner_id = writer_id;
  acquired_at = now;
  expires_at = now + tick_lease_ttl;
  released_at = none;
  state = active;
}

some-injective : {a b : TickLease} → some a ≡ some b → a ≡ b
some-injective h = cc

module _ {S : Type 0} (libs : LeaseLibs) (store : ObjectStore S) (interfere : ℕ → S → S) where
  abbrev Holds : TickLeaseRecord → TickLease → S → Type 0
  Holds lease held s =
      (held.lease ≡ lease) × (load_tick_lease libs store interfere lease.scope s ≡ ok (some held))

  acquired-Holds :
      (lease : TickLeaseRecord) (s : S) (held : TickLease)
      → acquired_tick_lease libs store interfere lease s ≡ ok held
      → Holds lease held s
  unfolding acquired_tick_lease
  acquired-Holds lease s held h =
      let (loaded, load, h) = >>=-eq-ok (load_tick_lease libs store interfere lease.scope s) _ h in
      let (stored, found, h) = >>=-eq-ok (context loaded _) _ h in
      let (differs, h) = bail_if-eq-ok (not (lease_eq stored.lease lease)) _ _ h in
      let (version, versioned, h) = >>=-eq-ok (conditional_update_version stored.version _) _ h in
      let same = lease_eq_sound stored.lease lease (not-false _ differs) in
      let is_held = ok-injective h in
      let whole : stored ≡ held =
        (λ i. record {
          lease = stored.lease;
          version = sym (conditional_update_version-same stored.version _ version versioned) i;
        })
        ∙ is_held in
      (
        sym (ap (λ (l : TickLease). l.lease) whole) ∙ same,
        load ∙ ap ok (context-eq-ok loaded _ found ∙ ap some whole),
      )

  won-Holds :
      (lease : TickLeaseRecord) (s : S) (held : TickLease)
      → (won libs store interfere lease s).0 ≡ ok (some held)
      → Holds lease held (won libs store interfere lease s).1
  unfolding won
  won-Holds lease s held h =
      let (acquired, e, h) =
        >>=-eq-ok (acquired_tick_lease libs store interfere lease (interfere 2 s)) _ h in
      acquired-Holds lease (interfere 2 s) held (e ∙ ap ok (some-injective (ok-injective h)))

  after_create-Holds :
      (lease : TickLeaseRecord) (put : PutOutcome × S) (held : TickLease)
      → (after_create libs store interfere lease put).0 ≡ ok (some held)
      → Holds lease held (after_create libs store interfere lease put).1
  unfolding after_create
  after_create-Holds lease (done, s) held h = won-Holds lease s held h
  after_create-Holds lease (already_exists, s) held h =
      absurd (contended-ne-some libs store interfere lease s held h)
  after_create-Holds lease (precondition, s) held h = cc
  after_create-Holds lease (put_failed e, s) held h = cc

  after_update-Holds :
      (lease : TickLeaseRecord) (put : PutOutcome × S) (held : TickLease)
      → (after_update libs store interfere lease put).0 ≡ ok (some held)
      → Holds lease held (after_update libs store interfere lease put).1
  unfolding after_update
  after_update-Holds lease (done, s) held h = won-Holds lease s held h
  after_update-Holds lease (precondition, s) held h =
      absurd (contended-ne-some libs store interfere lease s held h)
  after_update-Holds lease (already_exists, s) held h = cc
  after_update-Holds lease (put_failed e, s) held h = cc

  update_lease-Holds :
      (lease : TickLeaseRecord) (version : Result UpdateVersion) (s : S) (held : TickLease)
      → (update_lease libs store interfere lease version s).0 ≡ ok (some held)
      → Holds lease held (update_lease libs store interfere lease version s).1
  unfolding update_lease
  update_lease-Holds lease (err e) s held h = cc
  update_lease-Holds lease (ok version) s held h = after_update-Holds lease _ held h

  if-Holds :
      (lease : TickLeaseRecord) (b : Bool) (s : S) (r : Result (Option TickLease) × S)
      (held : TickLease)
      → (r.0 ≡ ok (some held) → Holds lease held r.1)
      → (if b then (ok none, s) else r).0 ≡ ok (some held)
      → Holds lease held (if b then (ok none, s) else r).1
  if-Holds lease true s r held f h = absurd (cc)
  if-Holds lease false s r held f h = f h

  put_lease-Holds :
      (now : DateTime) (lease : TickLeaseRecord) (loaded : Option TickLease) (s : S)
      (held : TickLease)
      → (put_lease libs store interfere now lease loaded s).0 ≡ ok (some held)
      → Holds lease held (put_lease libs store interfere now lease loaded s).1
  unfolding put_lease
  put_lease-Holds now lease none s held h = after_create-Holds lease _ held h
  put_lease-Holds now lease (some current) s held h =
      if-Holds lease _ s _ held (update_lease-Holds lease _ s held) h

  put_loaded-Holds :
      (now : DateTime) (lease : TickLeaseRecord) (loaded : Result (Option TickLease)) (s : S)
      (held : TickLease)
      → (put_loaded libs store interfere now lease loaded s).0 ≡ ok (some held)
      → Holds lease held (put_loaded libs store interfere now lease loaded s).1
  unfolding put_loaded
  put_loaded-Holds now lease (err e) s held h = cc
  put_loaded-Holds now lease (ok loaded) s held h = put_lease-Holds now lease loaded s held h

  too_long-Holds :
      (lease : TickLeaseRecord) (b : Bool) (e : String) (s : S) (r : Result (Option TickLease) × S)
      (held : TickLease)
      → (r.0 ≡ ok (some held) → Holds lease held r.1)
      → (if b then (err e, s) else r).0 ≡ ok (some held)
      → Holds lease held (if b then (err e, s) else r).1
  too_long-Holds lease true e s r held f h = absurd (cc)
  too_long-Holds lease false e s r held f h = f h

  acquire_new-Holds :
      (scope : Uuid) (now : DateTime) (asking : Result TickLeaseRecord) (lease : TickLeaseRecord)
      (s : S) (held : TickLease)
      → ((made : TickLeaseRecord) → asking ≡ ok made → made ≡ lease)
      → (acquire_new libs store interfere scope now asking s).0 ≡ ok (some held)
      → Holds lease held (acquire_new libs store interfere scope now asking s).1
  unfolding acquire_new
  acquire_new-Holds scope now (err e) lease s held is_lease h = cc
  acquire_new-Holds scope now (ok made) lease s held is_lease h =
      subst (λ l. Holds l held (acquire_new libs store interfere scope now (ok made) s).1)
        (is_lease made refl)
        (too_long-Holds made _ _ s _ held
          (put_loaded-Holds now made (load_tick_lease libs store interfere scope (interfere 0 s))
            (interfere 0 s) held)
          h)

new_tick_lease-asked :
    (libs : LeaseLibs) (scope writer_id : Uuid) (now : DateTime) (made : TickLeaseRecord)
    → new_tick_lease libs scope writer_id now ≡ ok made
    → made ≡ asked writer_id scope now
unfolding new_tick_lease
new_tick_lease-asked libs scope writer_id now made h =
    let (_, h) = bail_if-eq-ok (ltb libs.last_date_time (now + tick_lease_ttl)) _ _ h in
    let (_, _, h) =
      >>=-eq-ok
        (validate_tick_lease libs scope (tick_lease_key libs scope) (asked writer_id scope now) _) _
        h in
    sym (ok-injective h)

-- Whatever other writers do between the accesses of the store, a process that acquires the lease
-- has the lease it asked for, of ten minutes from `now`, in its own name, and at that moment a
-- load of the scope's lease gives this lease with the version the process keeps.
pub acquire_tick_lease-holds :
    {S : Type 0} (libs : LeaseLibs) (store : ObjectStore S) (interfere : ℕ → S → S)
    (writer_id scope : Uuid) (now : DateTime) (s : S) (held : TickLease)
    → (acquire_tick_lease libs store interfere writer_id scope now s).0 ≡ ok (some held)
    → (held.lease ≡ asked writer_id scope now)
      × (load_tick_lease libs store interfere scope
            (acquire_tick_lease libs store interfere writer_id scope now s).1
          ≡ ok (some held))
unfolding acquire_tick_lease
acquire_tick_lease-holds libs store interfere writer_id scope now s held h =
    acquire_new-Holds libs store interfere scope now (new_tick_lease libs scope writer_id now)
      (asked writer_id scope now) s held (new_tick_lease-asked libs scope writer_id now) h
