-- ===== src/Persist/Stored.antt =====
-- What `persist_event` has stored when it says that a trace is captured, and what is never seen on the
-- way: a trace without the frontier and the expiry marker that lead to it.
use milk_carton.Base.{
  ◌≡◌, refl, sym, ap, ◌∙◌, subst, Bool, true, none, some, [], ◌∷◌, Bytes, length, ltb, ok, context,
  ok-injective, context-eq-ok, inl, inr, ℕ,
}
use milk_carton.Route.Types.{DateTime}
use milk_carton.Stats.Values.{CaptureState}
use milk_carton.Trace.{Allocator, TraceCapture, TraceEvent, observation, capture, capture_bytes}
use milk_carton.Queue.{QueuedTrace}
use milk_carton.Store.{not_found, ObjectStore, StoreLaws}
use milk_carton.Effect.{lift, continue-eq-ok, if-cases}
use milk_carton.Persist.{
  EncodedObject, encode_json, put_create_same, ensure_not_tombstoned, ensure_live_after_write,
}
use milk_carton.Persist.Keys.{
  trace, RecordLibs, trace_tombstone_key, snapshot_trace_frontier_key, expiry_marker_key,
}
use milk_carton.Persist.Encode.{encode_trace}
use milk_carton.Persist.Event.{
  frontier_of, write_expiry_marker, persist_encoded, persist_live, persist_object, persist_capture,
  persist_kind, persist_event,
}
use milk_carton.Persist.Keeps.{
  KeepLaws, Present, IsFound, Grows, put_create_same-keeps, ensure_live_after_write-keeps,
  put_create_same-Present, ensure_live_after_write-not_found,
}
use milk_carton.Persist.Marker.{write_expiry_marker-keeps, write_expiry_marker-IsFound}

module _ {S : Type 0} (heap : Allocator) (libs : RecordLibs) (store : ObjectStore S)
    (others : S → S) (max_trace_bytes : ℕ) where
  open libs use {crypto, frontier_json, marker_json}

  abbrev pub marker_key_of : TraceCapture → DateTime → EncodedObject → Bytes
  marker_key_of c until object =
      expiry_marker_key libs c.catalog.scope trace c.catalog.trace_id none until object.sha256

  -- The objects of a captured trace, and no tombstone.
  pub record IsStored (c : TraceCapture) (object : EncodedObject) (s : S) : Type 0 where
    pub retention_until : DateTime
    pub frontier_key : Bytes
    pub is_retention : c.catalog.retention_until ≡ some retention_until
    pub is_frontier_key :
        snapshot_trace_frontier_key libs c.catalog.scope c.catalog.trace_id ≡ ok frontier_key
    pub is_object : encode_trace heap libs c max_trace_bytes ≡ ok object
    pub frontier :
        Present store frontier_key (frontier_json (frontier_of c retention_until object)) s
    pub marker : IsFound store (marker_key_of c retention_until object) s
    pub stored_trace : Present store object.key object.payload s
    pub not_tombstoned :
        store.get s (trace_tombstone_key libs c.catalog.scope c.catalog.trace_id) ≡ not_found

  module _ (laws : StoreLaws store) (keeps : KeepLaws store)
      (others_grow : (s : S) → Grows store s (others s)) where
    pub others_extend : (s0 s : S) → Grows store s0 s → Grows store s0 (others s)
    others_extend s0 s g key object f = others_grow s key object (g key object f)

    pub create_extends :
        (s0 : S) (key payload : Bytes) (s : S)
        → Grows store s0 s
        → Grows store s0 (store.create s key payload).1
    create_extends s0 key payload s g other object f =
        keeps.create_keeps s key payload other object (g other object f)

    pub put-Grows :
        (object : EncodedObject) (s : S)
        → Grows store s (put_create_same crypto store others object s).1
    put-Grows object s =
        put_create_same-keeps crypto store others (Grows store s) (others_extend s) object
          (create_extends s object.key object.payload) s (λ key o f. f)

    Present-Grows :
        (key payload : Bytes) (s s' : S)
        → Grows store s s'
        → Present store key payload s
        → Present store key payload s'
    Present-Grows key payload s s' g (object, f, e) = (object, g key object f, e)

    persist_encoded-IsStored :
        (c : TraceCapture) (until : DateTime) (object : EncodedObject) (s s' : S)
        (result : CaptureState × Bool)
        → c.catalog.retention_until ≡ some until
        → encode_trace heap libs c max_trace_bytes ≡ ok object
        → persist_encoded heap libs store others max_trace_bytes c until object s ≡ (ok result, s')
        → (result ≡ (CaptureState.not_selected, true)) × IsStored c object s'
    unfolding persist_encoded encode_json
    persist_encoded-IsStored c until object s s' result r o h =
        let (frontier_key, s1, e1, h1) =
          continue-eq-ok
            (lift (snapshot_trace_frontier_key libs c.catalog.scope c.catalog.trace_id) s) _ result
            s' h in
        let frontier_object =
          encode_json crypto frontier_key (frontier_json (frontier_of c until object)) in
        let (d2, s2, e2, h2) =
          continue-eq-ok (put_create_same crypto store others frontier_object s1) _ result s' h1 in
        let (d3, s3, e3, h3) =
          continue-eq-ok
            (write_expiry_marker heap libs store others max_trace_bytes c.catalog.scope trace
              c.catalog.trace_id none until object.key object.sha256 s2)
            _ result s' h2 in
        let (d4, s4, e4, h4) =
          continue-eq-ok (put_create_same crypto store others object s3) _ result s' h3 in
        let (d5, s5, e5, h5) =
          continue-eq-ok
            (ensure_live_after_write crypto store others
              (trace_tombstone_key libs c.catalog.scope c.catalog.trace_id ∷ []) s4)
            _ result s' h4 in
        let from2 : Grows store s2 s3 = subst (Grows store s2) (ap (λ p. p.1) e3) (
          write_expiry_marker-keeps heap libs store others max_trace_bytes (Grows store s2)
            (others_extend s2) c.catalog.scope trace c.catalog.trace_id none until object.key
            object.sha256 (λ payload t. create_extends s2 _ payload t) s2
            (λ key found_object f. f)) in
        let from3 : Grows store s3 s4 =
          subst (Grows store s3) (ap (λ p. p.1) e4) (put-Grows object s3) in
        let from4 : Grows store s4 s' =
          subst (Grows store s4) (ap (λ p. p.1) e5 ∙ ap (λ p. p.1) h5) (
            ensure_live_after_write-keeps crypto store others (Grows store s4) (others_extend s4)
              (trace_tombstone_key libs c.catalog.scope c.catalog.trace_id ∷ []) s4
              (λ key found_object f. f)) in
        let from3' : Grows store s3 s' = λ key there f. from4 key there (from3 key there f) in
        let (marker, marker_found) =
          write_expiry_marker-IsFound heap libs store others max_trace_bytes laws c.catalog.scope
            trace c.catalog.trace_id none until object.key object.sha256 s2 d3 s3 e3 in
        (
          sym (ok-injective (ap (λ p. p.0) h5)),
          record {
            retention_until = until;
            frontier_key = frontier_key;
            is_retention = r;
            is_frontier_key = ap (λ p. p.0) e1;
            is_object = o;
            frontier =
                Present-Grows frontier_key _ s2 s'
                  (λ key there f. from3' key there (from2 key there f))
                  (put_create_same-Present crypto store others laws frontier_object s1 d2 s2 e2);
            marker = (marker, from3' _ marker marker_found);
            stored_trace =
                Present-Grows object.key object.payload s4 s' from4
                  (put_create_same-Present crypto store others laws object s3 d4 s4 e4);
            not_tombstoned =
                subst
                  (λ t.
                    store.get t (trace_tombstone_key libs c.catalog.scope c.catalog.trace_id)
                    ≡ not_found)
                  (ap (λ p. p.1) h5)
                  (ensure_live_after_write-not_found crypto store others _ s4 s5 e5);
          },
        )

    persist_live-IsStored :
        (c : TraceCapture) (object : EncodedObject) (s s' : S) (result : CaptureState × Bool)
        → encode_trace heap libs c max_trace_bytes ≡ ok object
        → persist_live heap libs store others max_trace_bytes c object s ≡ (ok result, s')
        → (result ≡ (CaptureState.not_selected, true)) × IsStored c object s'
    unfolding persist_live
    persist_live-IsStored c object s s' result o h =
        let (d1, s1, e1, h1) =
          continue-eq-ok
            (ensure_not_tombstoned crypto store others
              (trace_tombstone_key libs c.catalog.scope c.catalog.trace_id) s)
            _ result s' h in
        let (until, s2, e2, h2) =
          continue-eq-ok
            (lift (context c.catalog.retention_until "captured trace is missing retention") s1) _
            result s' h1 in
        persist_encoded-IsStored c until object s2 s' result
          (context-eq-ok c.catalog.retention_until "captured trace is missing retention"
            (ap (λ p. p.0) e2))
          o h2

    persist_capture-IsStored :
        (c : TraceCapture) (s s' : S) (state : CaptureState)
        → persist_capture heap libs store others max_trace_bytes c s ≡ (ok (state, true), s')
        → (state ≡ CaptureState.not_selected) × ((object : EncodedObject) × IsStored c object s')
    unfolding persist_capture persist_object
    persist_capture-IsStored c s s' state h =
        elim (if-cases (ltb max_trace_bytes (capture_bytes heap c)) _ _ s h) [
          | inl (large, e) ↦ cc
          | inr (small, e) ↦
              let (object, s1, e1, h1) =
                continue-eq-ok (lift (encode_trace heap libs c max_trace_bytes) s) _ (state, true)
                  s' e in
              elim (if-cases (ltb max_trace_bytes (length object.payload)) _ _ s1 h1) [
                | inl (larger, e2) ↦ cc
                | inr (fits, e2) ↦
                    let (r, stored) =
                      persist_live-IsStored c object s1 s' (state, true) (ap (λ p. p.0) e1) e2 in
                    (ap (λ p. p.0) r, (object, stored))
              ]
        ]

    -- `persist_event` says that a trace is captured only when its object is stored with the payload that
    -- its encoding gives, the snapshot frontier and the expiry marker that lead to it are stored too,
    -- and its tombstone was not there after the writes. Other writers may act between all accesses, as
    -- long as they delete nothing.
    pub persist_event-IsStored :
        (queued : QueuedTrace) (s s' : S) (state : CaptureState)
        → persist_event heap libs store others max_trace_bytes queued s ≡ (ok (state, true), s')
        → (c : TraceCapture) × (queued.event ≡ capture c)
          × (state ≡ CaptureState.not_selected)
          × ((object : EncodedObject) × IsStored c object s')
    unfolding persist_event persist_kind
    persist_event-IsStored queued s s' state h = by_kind queued.event refl h
      where
        by_kind :
            (event : TraceEvent)
            → queued.event ≡ event
            → persist_kind heap libs store others max_trace_bytes event s ≡ (ok (state, true), s')
            → (c : TraceCapture) × (queued.event ≡ capture c)
              × (state ≡ CaptureState.not_selected)
              × ((object : EncodedObject) × IsStored c object s')
        by_kind (observation catalog other) e k = cc
        by_kind (capture c) e k =
            let stored = persist_capture-IsStored c s s' state k in (c, e, stored.0, stored.1)
