-- ===== src/Persist/Keeps.antt =====
-- What the writes of immutable objects keep, however they end, and what they have stored when they
-- succeed.
use milk_carton.Base.{
  ◌≡◌, ◌≢◌, refl, ap, ◌∙◌, subst, ◌||◌, not, List, [], ◌∷◌, Bytes, length, ltb, ◌==◌, ℕ-Eq, List-Eq,
  ==_iff, ok, not-false, or-false, ok-injective, if-eq-ok,
}
use milk_carton.Crypto.{Crypto}
use milk_carton.Store.{
  Object, GetOutcome, found, not_found, get_failed, PutOutcome, done, already_exists, precondition,
  put_failed, ObjectStore, StoreLaws,
}
use milk_carton.Effect.{continue, lift, continue-eq-ok, continue-keeps}
use milk_carton.Persist.{
  EncodedObject, PutDisposition, existing, loaded, load_bytes, same_object, after_put_create,
  put_create_same, head_exists, recheck, exists, ensure_not_tombstoned, ensure_live_after_write,
}

-- What create-if-absent keeps, also when it fails: the objects that are there, and the other keys.
pub record KeepLaws {S : Type 0} (store : ObjectStore S) : Type 0 where
  pub create_keeps :
      (s : S) (key payload other : Bytes) (object : Object)
      → store.get s other ≡ found object
      → store.get (store.create s key payload).1 other ≡ found object
  pub create_elsewhere :
      (s : S) (key payload other : Bytes)
      → other ≢ key
      → store.get (store.create s key payload).1 other ≡ store.get s other

-- The object under the key has this payload.
abbrev pub Present : {S : Type 0} → ObjectStore S → Bytes → Bytes → S → Type 0
Present store key payload s =
    (object : Object) × (store.get s key ≡ found object) × (object.payload ≡ payload)

-- Some object is under the key.
abbrev pub IsFound : {S : Type 0} → ObjectStore S → Bytes → S → Type 0
IsFound store key s = (object : Object) × (store.get s key ≡ found object)

-- Every object that was there is there.
abbrev pub Grows : {S : Type 0} → ObjectStore S → S → S → Type 0
Grows store s s' =
    (key : Bytes) (object : Object)
    → store.get s key ≡ found object
    → store.get s' key ≡ found object

module _ {S : Type 0} (crypto : Crypto) (store : ObjectStore S) (others : S → S) where
  module _ {ℓ} (P : S → Type ℓ) (others_keep : (s : S) → P s → P (others s)) where
    pub load_bytes-keeps :
        (key : Bytes) (max_bytes : _) (s : S)
        → P s
        → P (load_bytes crypto store others key max_bytes s).1
    unfolding load_bytes
    load_bytes-keeps key max_bytes s h = others_keep s h

    after_put_create-keeps :
        (object : EncodedObject) (put : PutOutcome × S)
        → P put.1
        → P (after_put_create crypto store others object put).1
    unfolding after_put_create
    after_put_create-keeps object (done, s) h = h
    after_put_create-keeps object (already_exists, s) h =
        continue-keeps P (load_bytes crypto store others object.key (length object.payload) s) _
          (load_bytes-keeps object.key (length object.payload) s h) (λ present s' e k. k)
    after_put_create-keeps object (precondition, s) h = h
    after_put_create-keeps object (put_failed error, s) h = h

    pub put_create_same-keeps :
        (object : EncodedObject)
        → ((s : S) → P s → P (store.create s object.key object.payload).1)
        → (s : S) → P s
        → P (put_create_same crypto store others object s).1
    unfolding put_create_same
    put_create_same-keeps object create_keeps s h =
        after_put_create-keeps object _ (create_keeps (others s) (others_keep s h))

    pub ensure_not_tombstoned-keeps :
        (key : Bytes) (s : S) → P s → P (ensure_not_tombstoned crypto store others key s).1
    unfolding ensure_not_tombstoned exists
    ensure_not_tombstoned-keeps key s h =
        continue-keeps P (exists crypto store others key s) _ (others_keep s h) (λ there s' e k. k)

    pub ensure_live_after_write-keeps :
        (keys : List Bytes) (s : S) → P s → P (ensure_live_after_write crypto store others keys s).1
    unfolding ensure_live_after_write exists
    ensure_live_after_write-keeps [] s h = h
    ensure_live_after_write-keeps (key ∷ keys) s h =
        continue-keeps P _ (λ _. ensure_live_after_write crypto store others keys) (others_keep s h)
          (λ there s' e k. ensure_live_after_write-keeps keys s' k)

  same_object-eq-ok :
      (object : EncodedObject) (present : Bytes) {disposition : PutDisposition}
      → same_object crypto store others object present ≡ ok disposition
      → present ≡ object.payload
  unfolding same_object
  same_object-eq-ok object present h =
      let (differs, e) =
        if-eq-ok (not (crypto.sha256 present == object.sha256) || not (present == object.payload))
          "object collision" (ok existing) h in
      (==_iff present object.payload).0 (
        not-false (present == object.payload)
          (or-false (not (crypto.sha256 present == object.sha256)) _ differs).1)

  pub loaded-eq-ok :
      (max_bytes : _) (outcome : GetOutcome) {payload : Bytes}
      → loaded crypto store others max_bytes outcome ≡ ok payload
      → (object : Object) × (outcome ≡ found object) × (object.payload ≡ payload)
  loaded-eq-ok max_bytes not_found h = cc
  loaded-eq-ok max_bytes (get_failed error) h = cc
  loaded-eq-ok max_bytes (found object) h =
      let (fits, e) =
        if-eq-ok (ltb max_bytes (length object.payload)) "object exceeds" (ok object.payload) h in
      (object, refl, ok-injective e)

  after_put_create-Present :
      (laws : StoreLaws store) (object : EncodedObject) (s0 : S) (put : PutOutcome × S)
      (disposition : PutDisposition) (s' : S)
      → store.create s0 object.key object.payload ≡ put
      → after_put_create crypto store others object put ≡ (ok disposition, s')
      → Present store object.key object.payload s'
  unfolding after_put_create load_bytes
  after_put_create-Present laws object s0 (done, s) disposition s' e h =
      let (missing, (meta, there)) =
        laws.create_done s0 object.key object.payload (ap (λ p. p.0) e) in
      let left : (store.create s0 object.key object.payload).1 ≡ s' =
        ap (λ p. p.1) e ∙ ap (λ p. p.1) h in
      (
        record { payload = object.payload; meta = meta },
        subst
            (λ t. store.get t object.key ≡ found (record { payload = object.payload; meta = meta }))
            left there,
        refl,
      )
  after_put_create-Present laws object s0 (already_exists, s) disposition s' e h =
      let (present, s1, e1, e2) =
        continue-eq-ok (load_bytes crypto store others object.key (length object.payload) s)
          (λ present. lift (same_object crypto store others object present)) disposition s' h in
      let (there, e3, e4) =
        loaded-eq-ok (length object.payload) (store.get (others s) object.key) (ap (λ p. p.0) e1) in
      (
        there,
        subst (λ t. store.get t object.key ≡ found there) (ap (λ p. p.1) e1 ∙ ap (λ p. p.1) e2) e3,
        e4 ∙ same_object-eq-ok object present (ap (λ p. p.0) e2),
      )
  after_put_create-Present laws object s0 (precondition, s) disposition s' e h = cc
  after_put_create-Present laws object s0 (put_failed error, s) disposition s' e h = cc

  -- A put that succeeds has this payload under the key at its end, whether it made it or found it.
  pub put_create_same-Present :
      (laws : StoreLaws store) (object : EncodedObject) (s : S) (disposition : PutDisposition)
      (s' : S)
      → put_create_same crypto store others object s ≡ (ok disposition, s')
      → Present store object.key object.payload s'
  unfolding put_create_same
  put_create_same-Present laws object s disposition s' h =
      after_put_create-Present laws object (others s) _ disposition s' refl h

  -- After the recheck the tombstone was not there.
  pub ensure_live_after_write-not_found :
      (key : Bytes) (s s' : S)
      → ensure_live_after_write crypto store others (key ∷ []) s ≡ (ok tt, s')
      → store.get s' key ≡ not_found
  unfolding ensure_live_after_write exists
  ensure_live_after_write-not_found key s s' h = by_head (store.get (others s) key) refl h
    where
      by_head :
          (outcome : GetOutcome)
          → store.get (others s) key ≡ outcome
          → continue
              (recheck crypto store others (head_exists crypto store others outcome), others s)
              (λ _. ensure_live_after_write crypto store others [])
            ≡ (ok tt, s')
          → store.get s' key ≡ not_found
      by_head (found object) e h = cc
      by_head not_found e h = subst (λ t. store.get t key ≡ not_found) (ap (λ p. p.1) h) e
      by_head (get_failed error) e h = cc
