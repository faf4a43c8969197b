-- ===== src/Persist/Marker.antt =====
-- What `write_expiry_marker` keeps and what it has stored.
use milk_carton.Base.{◌≡◌, refl, ap, ◌∙◌, subst, Option, Bytes, ok, context, ℕ}
use milk_carton.Route.Types.{Uuid, DateTime}
use milk_carton.Trace.{Allocator}
use milk_carton.Store.{
  found, PutOutcome, done, already_exists, precondition, put_failed, ObjectStore, StoreLaws,
}
use milk_carton.Effect.{lift, return, continue-eq-ok, continue-keeps}
use milk_carton.Persist.{load_bytes}
use milk_carton.Persist.Keys.{ExpiryKind, ExpiryMarker, RecordLibs, trace_time, expiry_marker_key}
use milk_carton.Persist.Event.{existing_marker, after_marker, put_marker, write_expiry_marker}
use milk_carton.Persist.Keeps.{IsFound, load_bytes-keeps, loaded-eq-ok}

module _ {S : Type 0} (heap : Allocator) (libs : RecordLibs) (store : ObjectStore S)
    (others : S → S) (max_trace_bytes : ℕ) where
  open libs use {crypto, frontier_json, marker_json}

  module _ {ℓ} (P : S → Type ℓ) (others_keep : (s : S) → P s → P (others s)) where
    after_marker-keeps :
        (key : Bytes) (marker : ExpiryMarker) (put : PutOutcome × S)
        → P put.1
        → P (after_marker heap libs store others max_trace_bytes key marker put).1
    unfolding after_marker existing_marker
    after_marker-keeps key marker (done, s) h = h
    after_marker-keeps key marker (already_exists, s) h =
        continue-keeps P _ (λ _. return key)
          (continue-keeps P (load_bytes crypto store others key max_trace_bytes s) _
            (load_bytes-keeps crypto store others P others_keep key max_trace_bytes s h)
            (λ payload s1 e k. continue-keeps P _ _ k (λ present s2 e2 k2. k2)))
          (λ _ s1 e k. k)
    after_marker-keeps key marker (precondition, s) h = h
    after_marker-keeps key marker (put_failed error, s) h = h

    pub write_expiry_marker-keeps :
        (scope : Uuid) (kind : ExpiryKind) (trace_id : Uuid) (version : Option ℕ) (until : DateTime)
        (object_key sha256 : Bytes)
        → ((payload : Bytes) (s : S)
            → P s
            → P
                (store.create s
                  (expiry_marker_key libs scope kind trace_id version until sha256)
                  payload).1)
        → (s : S) → P s
        → P
            (write_expiry_marker heap libs store others max_trace_bytes scope kind trace_id version
              until object_key sha256 s).1
    unfolding write_expiry_marker put_marker
    write_expiry_marker-keeps scope kind trace_id version until object_key sha256 create s h =
        continue-keeps P (lift (trace_time libs trace_id) s) _ h
          (λ created_at s1 e k. after_marker-keeps _ _ _ (create _ (others s1) (others_keep s1 k)))

  after_marker-IsFound :
      (laws : StoreLaws store) (key : Bytes) (marker : ExpiryMarker) (s0 : S) (put : PutOutcome × S)
      (written : Bytes) (s' : S)
      → store.create s0 key (marker_json marker) ≡ put
      → after_marker heap libs store others max_trace_bytes key marker put ≡ (ok written, s')
      → IsFound store key s'
  unfolding after_marker existing_marker load_bytes
  after_marker-IsFound laws key marker s0 (done, s) written s' e h =
      let (missing, (meta, there)) =
        laws.create_done s0 key (marker_json marker) (ap (λ p. p.0) e) in
      (
        record { payload = marker_json marker; meta = meta },
        subst (λ t. store.get t key ≡ found (record { payload = marker_json marker; meta = meta }))
            (ap (λ p. p.1) e ∙ ap (λ p. p.1) h) there,
      )
  after_marker-IsFound laws key marker s0 (already_exists, s) written s' e h =
      let (done_checking, s1, e1, e2) =
        continue-eq-ok (existing_marker heap libs store others max_trace_bytes key marker s)
          (λ _. return key) written s' h in
      let (payload, s2, e3, e4) =
        continue-eq-ok (load_bytes crypto store others key max_trace_bytes s) _ done_checking s1
          e1 in
      let (object, e5, e6) =
        loaded-eq-ok crypto store others max_trace_bytes (store.get (others s) key)
          (ap (λ p. p.0) e3) in
      let (present, s3, e7, e8) =
        continue-eq-ok
          (lift (context (libs.parse_marker payload) "expiry marker is not typed JSON") s2) _
          done_checking s1 e4 in
      let left : others s ≡ s' =
        ap (λ p. p.1) e3 ∙ ap (λ p. p.1) e7 ∙ ap (λ p. p.1) e8 ∙ ap (λ p. p.1) e2 in
      (object, subst (λ t. store.get t key ≡ found object) left e5)
  after_marker-IsFound laws key marker s0 (precondition, s) written s' e h = cc
  after_marker-IsFound laws key marker s0 (put_failed error, s) written s' e h = cc

  pub write_expiry_marker-IsFound :
      (laws : StoreLaws store) (scope : Uuid) (kind : ExpiryKind) (trace_id : Uuid)
      (version : Option ℕ) (until : DateTime) (object_key sha256 : Bytes) (s : S) (written : Bytes)
      (s' : S)
      → write_expiry_marker heap libs store others max_trace_bytes scope kind trace_id version until
          object_key sha256 s
        ≡ (ok written, s')
      → IsFound store (expiry_marker_key libs scope kind trace_id version until sha256) s'
  unfolding write_expiry_marker put_marker
  write_expiry_marker-IsFound laws scope kind trace_id version until object_key sha256 s written s'
        h =
      let (created_at, s1, e1, h1) =
        continue-eq-ok (lift (trace_time libs trace_id) s) _ written s' h in
      after_marker-IsFound laws _ _ (others s1) _ written s' refl h1
