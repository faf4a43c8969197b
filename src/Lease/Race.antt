-- ===== src/Lease/Race.antt =====
-- Two processes that saw the same lease cannot both acquire it.
use milk_carton.Base.{
  ℕ, ◌≡◌, ◌≢◌, refl, sym, ap, ◌∙◌, Bool, true, false, ◌&&◌, Option, none, some, ltb, if◌then◌else◌,
  String, Result, ok, err, arith, subst, ok-injective, bail_if-eq-ok,
}
use milk_carton.Route.Types.{DateTime}
use milk_carton.Route.Url.{is_none}
use milk_carton.Store.{
  UpdateVersion, Object, found, not_found, PutOutcome, done, already_exists, precondition,
  put_failed, ObjectStore, StoreLaws, conditional_update_version,
}
use milk_carton.Lease.{
  TickLeaseRecord, TickLease, LeaseLibs, is_active, tick_lease_key, contended, won, after_create,
  after_update, update_lease, put_lease,
}

found-ne-not_found : {object : Object} → found object ≢ not_found
found-ne-not_found h = cc

found-meta : {a b : Object} → found a ≡ found b → a.meta ≡ b.meta
found-meta h = cc

if-eq-some :
    {S : Type 0} (b : Bool) (s : S) (r : Result (Option TickLease) × S) (held : TickLease)
    → (if b then (ok none, s) else r).0 ≡ ok (some held)
    → (b ≡ false) × (r.0 ≡ ok (some held))
if-eq-some true s r held h = absurd (cc)
if-eq-some false s r held h = (refl, h)

pub conditional_update_version-same :
    (meta : UpdateVersion) (object : String) (version : UpdateVersion)
    → conditional_update_version meta object ≡ ok version
    → version ≡ meta
unfolding conditional_update_version
conditional_update_version-same meta object version h =
    sym (ok-injective (bail_if-eq-ok (is_none meta.e_tag && is_none meta.version) object _ h).1)

module _ {S : Type 0} (libs : LeaseLibs) (store : ObjectStore S) (interfere : ℕ → S → S) where
  pub contended-ne-some :
      (lease : TickLeaseRecord) (s : S) (held : TickLease)
      → (contended libs store interfere lease s).0 ≢ ok (some held)
  unfolding contended
  contended-ne-some lease s held h = absurd (ground arith)

  after_create-done :
      (lease : TickLeaseRecord) (o : PutOutcome) (s : S) (held : TickLease)
      → (after_create libs store interfere lease (o, s)).0 ≡ ok (some held)
      → o ≡ done
  unfolding after_create
  after_create-done lease done s held h = refl
  after_create-done lease already_exists s held h = absurd (contended-ne-some lease s held h)
  after_create-done lease precondition s held h = cc
  after_create-done lease (put_failed e) s held h = cc

  after_update-done :
      (lease : TickLeaseRecord) (o : PutOutcome) (s : S) (held : TickLease)
      → (after_update libs store interfere lease (o, s)).0 ≡ ok (some held)
      → o ≡ done
  unfolding after_update
  after_update-done lease done s held h = refl
  after_update-done lease already_exists s held h = cc
  after_update-done lease precondition s held h = absurd (contended-ne-some lease s held h)
  after_update-done lease (put_failed e) s held h = cc

  update_lease-done :
      (lease : TickLeaseRecord) (version : Result UpdateVersion) (s : S) (held : TickLease)
      → (update_lease libs store interfere lease version s).0 ≡ ok (some held)
      → (v : UpdateVersion) × (version ≡ ok v)
        × ((store.update
              (interfere 1 s)
              (tick_lease_key libs lease.scope)
              v
              (libs.lease_json lease)).0
            ≡ done)
  unfolding update_lease
  update_lease-done lease (err e) s held h = cc
  update_lease-done lease (ok v) s held h = (
    v,
    refl,
    after_update-done lease _
        (store.update (interfere 1 s) (tick_lease_key libs lease.scope) v (libs.lease_json lease)).1
        held h,
  )

  -- The put of an acquisition that succeeds: a create where the load found nothing, and otherwise an
  -- update of the version that was loaded, of a lease that had ended or been released.
  abbrev pub Written : DateTime → TickLeaseRecord → Option TickLease → S → Type 0
  Written now lease none s =
      (store.create (interfere 1 s) (tick_lease_key libs lease.scope) (libs.lease_json lease)).0
      ≡ done
  Written now lease (some current) s =
      (is_active current.lease.state && ltb now current.lease.expires_at ≡ false)
      × ((store.update (interfere 1 s) (tick_lease_key libs lease.scope) current.version
            (libs.lease_json lease)).0
          ≡ done)

  pub put_lease-Written :
      (now : DateTime) (lease : TickLeaseRecord) (loaded : Option TickLease) (s : S)
      (held : TickLease)
      → (put_lease libs store interfere now lease loaded s).0 ≡ ok (some held)
      → Written now lease loaded s
  unfolding put_lease
  put_lease-Written now lease none s held h =
      after_create-done lease _
        (store.create (interfere 1 s) (tick_lease_key libs lease.scope) (libs.lease_json lease)).1
        held h
  put_lease-Written now lease (some current) s held h =
      let (free, h) = if-eq-some _ s _ held h in
      let (version, same, e) =
        update_lease-done lease (conditional_update_version current.version _) s held h in
      (
        free,
        subst
            (λ v.
              (store.update (interfere 1 s) (tick_lease_key libs lease.scope) v
                (libs.lease_json lease)).0
              ≡ done)
            (conditional_update_version-same current.version _ version same) e,
      )

abbrev pub still {ℓ} : {S : Type ℓ} → ℕ → S → S
still n s = s

module _ {S : Type 0} (libs : LeaseLibs) (store : ObjectStore S) where
  after_create-state :
      (lease : TickLeaseRecord) (put : PutOutcome × S)
      → (after_create libs store still lease put).1 ≡ put.1
  unfolding after_create won contended
  after_create-state lease (done, s) = refl
  after_create-state lease (already_exists, s) = refl
  after_create-state lease (precondition, s) = refl
  after_create-state lease (put_failed e, s) = refl

  after_update-state :
      (lease : TickLeaseRecord) (put : PutOutcome × S)
      → (after_update libs store still lease put).1 ≡ put.1
  unfolding after_update won contended
  after_update-state lease (done, s) = refl
  after_update-state lease (already_exists, s) = refl
  after_update-state lease (precondition, s) = refl
  after_update-state lease (put_failed e, s) = refl

  update_lease-state :
      (lease : TickLeaseRecord) (r : Result UpdateVersion) (v : UpdateVersion) (s : S)
      → r ≡ ok v
      → (update_lease libs store still lease r s).1
        ≡ (store.update s (tick_lease_key libs lease.scope) v (libs.lease_json lease)).1
  unfolding update_lease
  update_lease-state lease (err e) v s h = cc
  update_lease-state lease (ok w) v s h = rw (← ok-injective h) (
      after_update-state lease
        (store.update s (tick_lease_key libs lease.scope) w (libs.lease_json lease)))

  if-state :
      (b : Bool) (s : S) (r : Result (Option TickLease) × S)
      → b ≡ false
      → (if b then (ok none, s) else r).1 ≡ r.1
  if-state true s r h = cc
  if-state false s r h = refl

  -- The object of the key after a put that succeeds: an absent one is replaced, or a version.
  abbrev After : TickLeaseRecord → Option TickLease → S → Type 0
  After lease none t =
      (object : Object) × (store.get t (tick_lease_key libs lease.scope) ≡ found object)
  After lease (some current) t =
      (object : Object) × (store.get t (tick_lease_key libs lease.scope) ≡ found object)
      × (object.meta ≢ current.version)

  put_lease-After :
      (laws : StoreLaws store) (now : DateTime) (lease : TickLeaseRecord)
      (loaded : Option TickLease) (s : S) (held : TickLease)
      → (put_lease libs store still now lease loaded s).0 ≡ ok (some held)
      → After lease loaded (put_lease libs store still now lease loaded s).1
  unfolding put_lease
  put_lease-After laws now lease none s held h =
      let written = put_lease-Written libs store still now lease none s held h in
      let (_, (meta, there)) = laws.create_done s _ _ written in
      (
        record { payload = libs.lease_json lease; meta = meta },
        rw
            (after_create-state lease
              (store.create s (tick_lease_key libs lease.scope) (libs.lease_json lease)))
            there,
      )
  put_lease-After laws now lease (some current) s held h =
      let (free, written) = put_lease-Written libs store still now lease (some current) s held h in
      let (_, (meta, fresh, there)) = laws.update_done s _ _ _ written in
      let (_, h) = if-eq-some _ s _ held h in
      let (version, is_version, _) =
        update_lease-done libs store still lease (conditional_update_version current.version _) s
          held h in
      let same = conditional_update_version-same current.version _ version is_version in
      (
        record { payload = libs.lease_json lease; meta = meta },
        ap (λ t. store.get t (tick_lease_key libs lease.scope))
              (if-state _ s _ free
                ∙ update_lease-state lease _ current.version s (is_version ∙ ap ok same))
            ∙ there,
        fresh,
      )

-- Two processes that want the lease of one scope and whose loads showed the same lease, or none,
-- cannot both acquire it, whatever times they go by: over a store that keeps its laws and that nobody
-- else writes to, the second does not acquire it from where the first has acquired it.
pub put_lease_exclusive :
    {S : Type 0} (libs : LeaseLibs) (store : ObjectStore S) (laws : StoreLaws store)
    (now later : DateTime) (first second : TickLeaseRecord) (loaded : Option TickLease) (s : S)
    (held other : TickLease)
    → first.scope ≡ second.scope
    → (put_lease libs store still now first loaded s).0 ≡ ok (some held)
    → (put_lease libs store still later second loaded
        (put_lease libs store still now first loaded s).1).0
      ≢ ok (some other)
put_lease_exclusive libs store laws now later first second none s held other e h k =
    let t = (put_lease libs store still now first none s).1 in
    let (object, there) = put_lease-After libs store laws now first none s held h in
    let written = put_lease-Written libs store still later second none _ other k in
    let (absent, _) = laws.create_done _ _ _ written in
    found-ne-not_found (sym there ∙ ap (λ id. store.get t (tick_lease_key libs id)) e ∙ absent)
put_lease_exclusive libs store laws now later first second (some current) s held other e h k =
    let t = (put_lease libs store still now first (some current) s).1 in
    let (object, there, fresh) =
      put_lease-After libs store laws now first (some current) s held h in
    let (_, written) = put_lease-Written libs store still later second (some current) _ other k in
    let ((old, before), _) = laws.update_done _ _ _ _ written in
    fresh (found-meta (sym there ∙ ap (λ id. store.get t (tick_lease_key libs id)) e ∙ before))
