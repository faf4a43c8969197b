-- ===== src/Partition/Laws.antt =====
-- The partitioned store is an object store: it keeps the laws that its parts keep.
use milk_carton.Base.{
  ◌≡◌, ◌≢◌, refl, ap, ◌∙◌, true, false, not, Option, none, some, Bytes, String, Result, ok, err,
  >>=-eq-ok, if-eq-ok,
}
use milk_carton.Store.{
  UpdateVersion, found, not_found, PutOutcome, done, already_exists, precondition, put_failed,
  ObjectStore, StoreLaws,
}
use milk_carton.Partition.{
  StorePartition, capture, control, routes, StoreAccess, Parts, part, set_part, writable, allowed,
  slot, in_slot, get_in, partitioned_get, partitioned_create, partitioned_update, partitioned,
}

pub part-set_part :
    {S : Type 0} (p : StorePartition) (t : S) (s : Parts S) → part p (set_part p t s) ≡ t
unfolding part set_part
part-set_part capture t s = refl
part-set_part control t s = refl
part-set_part routes t s = refl

set_part-part : {S : Type 0} (p : StorePartition) (s : Parts S) → set_part p (part p s) s ≡ s
unfolding part set_part
set_part-part capture s = refl
set_part-part control s = refl
set_part-part routes s = refl

module _ {S : Type 0} (classify : Bytes → Result StorePartition)
    (access : StorePartition → Option StoreAccess) (objects : StorePartition → ObjectStore S) where
  allowed-read :
      (p q : StorePartition) (mode : Option StoreAccess)
      → allowed classify access objects true q mode ≡ ok p
      → allowed classify access objects false q mode ≡ ok p
  allowed-read p q none k = cc
  allowed-read p q (some mode) k =
      (if-eq-ok (not (writable mode)) "store partition is read-only" (ok q) k).1

  -- Who may write may read.
  slot-read :
      (location : Bytes) (p : StorePartition)
      → slot classify access objects location true ≡ ok p
      → slot classify access objects location false ≡ ok p
  unfolding slot
  slot-read location p h =
      let (q, e, k) = >>=-eq-ok (classify location) _ h in rw e (allowed-read p q (access q) k)

  get_slot :
      (location : Bytes) (p : StorePartition) (s : Parts S)
      → slot classify access objects location true ≡ ok p
      → partitioned_get classify access objects s location ≡ (objects p).get (part p s) location
  unfolding partitioned_get
  get_slot location p s h =
      ap (λ r. get_in classify access objects location r s) (slot-read location p h)

  module _ (laws : (p : StorePartition) → StoreLaws (objects p)) where
    create_in-done :
        (s : Parts S) (location payload : Bytes) (r : Result StorePartition)
        → slot classify access objects location true ≡ r
        → (in_slot classify access objects put_failed r
            (λ store t. store.create t location payload)
            s).0
          ≡ done
        → (partitioned_get classify access objects s location ≡ not_found)
          × ((meta : UpdateVersion) × (partitioned_get classify access objects
                  (in_slot classify access objects put_failed r
                    (λ store t. store.create t location payload)
                    s).1
                  location
                ≡ found (record { payload = payload; meta = meta })))
    create_in-done s location payload (err error) e h = cc
    create_in-done s location payload (ok p) e h =
        let (missing, (meta, there)) = (laws p).create_done (part p s) location payload h in
        let t = ((objects p).create (part p s) location payload).1 in
        (
          get_slot location p s e ∙ missing,
          (
            meta,
            get_slot location p (set_part p t s) e
                ∙ ap (λ u. (objects p).get u location) (part-set_part p t s)
                ∙ there,
          ),
        )

    update_in-done :
        (s : Parts S) (location : Bytes) (version : UpdateVersion) (payload : Bytes)
        (r : Result StorePartition)
        → slot classify access objects location true ≡ r
        → (in_slot classify access objects put_failed r
            (λ store t. store.update t location version payload)
            s).0
          ≡ done
        → ((old : Bytes) × (partitioned_get classify access objects s location
              ≡ found (record { payload = old; meta = version })))
          × ((meta : UpdateVersion) × (meta ≢ version)
              × (partitioned_get classify access objects
                    (in_slot classify access objects put_failed r
                      (λ store t. store.update t location version payload)
                      s).1
                    location
                  ≡ found (record { payload = payload; meta = meta })))
    update_in-done s location version payload (err error) e h = cc
    update_in-done s location version payload (ok p) e h =
        let ((old, was), (meta, new, there)) =
          (laws p).update_done (part p s) location version payload h in
        let t = ((objects p).update (part p s) location version payload).1 in
        (
          (old, get_slot location p s e ∙ was),
          (
            meta,
            new,
            get_slot location p (set_part p t s) e
                ∙ ap (λ u. (objects p).get u location) (part-set_part p t s)
                ∙ there,
          ),
        )

    refused_in :
        (s : Parts S) (r : Result StorePartition) (operation : ObjectStore S → S → PutOutcome × S)
        (refusal : PutOutcome)
        → ((error : String) → put_failed error ≢ refusal)
        → ((p : StorePartition)
            → (operation (objects p) (part p s)).0 ≡ refusal
            → (operation (objects p) (part p s)).1 ≡ part p s)
        → (in_slot classify access objects put_failed r operation s).0 ≡ refusal
        → (in_slot classify access objects put_failed r operation s).1 ≡ s
    refused_in s (err error) operation refusal apart kept h = absurd (apart error h)
    refused_in s (ok p) operation refusal apart kept h =
        ap (λ t. set_part p t s) (kept p h) ∙ set_part-part p s

    -- If the store of each partition keeps the laws of an object store, so does the partitioned store:
    -- a create that succeeds found nothing and is read back, an update that succeeds found the
    -- expected version, and a put that is refused changes nothing.
    pub partitioned-StoreLaws : StoreLaws (partitioned classify access objects)
    unfolding partitioned partitioned_create partitioned_update
    partitioned-StoreLaws = record {
      create_done = λ s location payload. create_in-done s location payload _ refl;
      update_done = λ s location version payload. update_in-done s location version payload _ refl;
      create_refused = λ s location payload.
          refused_in s _ (λ store t. store.create t location payload) already_exists (λ error e. cc)
            (λ p. (laws p).create_refused (part p s) location payload);
      update_refused = λ s location version payload.
          refused_in s _ (λ store t. store.update t location version payload) precondition
            (λ error e. cc) (λ p. (laws p).update_refused (part p s) location version payload);
    }
