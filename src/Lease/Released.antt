-- ===== src/Lease/Released.antt =====
-- Who may release the lease.
use milk_carton.Base.{
  ℕ, ◌≡◌, ◌≢◌, ap, ◌∙◌, Bytes, ◌≤◌, ◌<◌, refl, Bool, true, false, ◌||◌, not, if◌then◌else◌, String,
  length, ltb, leb, nat_eq, Result, ok, err, arith,
}
use milk_carton.Route.Types.{Uuid, DateTime}
use milk_carton.Store.{
  PutOutcome, done, already_exists, precondition, put_failed, ObjectStore, StoreLaws, UpdateVersion,
  found,
}
use milk_carton.Lease.{
  TickLease, LeaseLibs, tick_lease_key, max_tick_lease_bytes, after_release, released_record,
  release_tick_lease,
}

guarded-ok :
    {S : Type 0} (b : Bool) (e : String) (s : S) (r : Result (Unit {0}) × S)
    → (if b then (err e, s) else r).0 ≡ ok tt
    → (b ≡ false) × (r.0 ≡ ok tt) × ((if b then (err e, s) else r).1 ≡ r.1)
guarded-ok true e s r h = absurd (cc)
guarded-ok false e s r h = (refl, h, refl)

module _ {S : Type 0} (libs : LeaseLibs) (store : ObjectStore S) (interfere : ℕ → S → S) where
  after_release-done :
      (o : PutOutcome) (s : S)
      → (after_release libs store interfere (o, s)).0 ≡ ok tt
      → (o ≡ done) × ((after_release libs store interfere (o, s)).1 ≡ s)
  unfolding after_release
  after_release-done done s h = (refl, refl)
  after_release-done already_exists s h = cc
  after_release-done precondition s h = cc
  after_release-done (put_failed e) s h = cc

  -- A release that succeeds is by the owner of the lease, after it was acquired and before it ends.
  -- Whatever other writers did before, the store had the lease in the version that the process holds,
  -- and it now has the same lease marked as released at that time, in another version.
  pub release_tick_lease-owned :
      (laws : StoreLaws store) (writer_id : Uuid) (lease : TickLease) (now : DateTime) (s : S)
      → (release_tick_lease libs store interfere writer_id lease now s).0 ≡ ok tt
      → (lease.lease.owner_id ≡ writer_id)
        × (lease.lease.acquired_at ≤ now)
        × (now < lease.lease.expires_at)
        × ((old : Bytes) × (store.get (interfere 0 s) (tick_lease_key libs lease.lease.scope)
              ≡ found (record { payload = old; meta = lease.version })))
        × ((meta : UpdateVersion) × (meta ≢ lease.version)
            × (store.get
                  (release_tick_lease libs store interfere writer_id lease now s).1
                  (tick_lease_key libs lease.lease.scope)
                ≡ found (record {
                  payload = libs.lease_json (released_record libs store interfere lease.lease now);
                  meta = meta;
                })))
  unfolding release_tick_lease
  release_tick_lease-owned laws writer_id lease now s h =
      let key = tick_lease_key libs lease.lease.scope in
      let json = libs.lease_json (released_record libs store interfere lease.lease now) in
      let update = store.update (interfere 0 s) key lease.version json in
      let (owned, h, same) =
        guarded-ok
          (not (nat_eq lease.lease.owner_id writer_id)
            || ltb now lease.lease.acquired_at
            || leb lease.lease.expires_at now)
          _ s _ h in
      let (short, h, same_too) = guarded-ok (ltb max_tick_lease_bytes (length json)) _ s _ h in
      let (is_done, end) = after_release-done update.0 update.1 h in
      let (before, (meta, other, after)) =
        laws.update_done (interfere 0 s) key lease.version json is_done in
      (
        ground (arith, owned),
        ground (arith, owned),
        ground (arith, owned),
        before,
        (meta, other, ap (λ (z : S). store.get z key) (same ∙ same_too ∙ end) ∙ after),
      )
