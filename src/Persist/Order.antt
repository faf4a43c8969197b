-- ===== src/Persist/Order.antt =====
-- The order of the writes of a trace: whoever sees the trace object finds the frontier and the expiry
-- marker that lead to it, also when the persistence fails on the way.
use milk_carton.Base.{
  ℕ, ◌≡◌, ◌≢◌, sym, ap, ◌∙◌, subst, none, some, [], ◌∷◌, Bytes, length, ltb, ok, context,
  ok-injective, context-eq-ok, >>=-eq-ok, eq-of-some,
}
use milk_carton.Route.Types.{DateTime}
use milk_carton.Trace.{Allocator, TraceCapture, capture, capture_bytes}
use milk_carton.Queue.{QueuedTrace}
use milk_carton.Store.{found, ObjectStore, StoreLaws}
use milk_carton.Effect.{lift, continue-keeps, if-keeps}
use milk_carton.Persist.{
  EncodedObject, PutDisposition, encode_json, put_create_same, ensure_not_tombstoned,
}
use milk_carton.Persist.Keys.{
  trace, RecordLibs, trace_time, trace_tombstone_key, snapshot_trace_frontier_key,
}
use milk_carton.Persist.Encode.{encode_trace}
use milk_carton.Persist.Event.{
  frontier_of, write_expiry_marker, persist_encoded, persist_live, persist_object, persist_capture,
  persist_kind, persist_event,
}
use milk_carton.Persist.Keeps.{
  KeepLaws, IsFound, Grows, put_create_same-keeps, ensure_not_tombstoned-keeps,
  ensure_live_after_write-keeps, put_create_same-Present,
}
use milk_carton.Persist.Marker.{write_expiry_marker-keeps, write_expiry_marker-IsFound}
use milk_carton.Persist.Stored.{marker_key_of, others_extend, create_extends, put-Grows}
use milk_carton.Persist.Apart.{
  trace_key_at-frontier_key_at, trace_key_at-expiry_marker_key, encode_trace-key,
}

module _ {S : Type 0} (heap : Allocator) (libs : RecordLibs) (store : ObjectStore S)
    (others : S → S) (max_trace_bytes : ℕ) where
  open libs use {crypto}

  -- The trace object is not there without the two objects that lead to it.
  abbrev pub IsIndexed : Bytes → Bytes → Bytes → S → Type 0
  IsIndexed trace_object_key frontier_key marker_key s =
      IsFound store trace_object_key s → IsFound store frontier_key s × IsFound store marker_key s

  module _ (laws : StoreLaws store) (keeps : KeepLaws store)
      (others_grow : (s : S) → Grows store s (others s)) (c : TraceCapture) (until : DateTime)
      (object : EncodedObject) (frontier_key : Bytes)
      (retained : c.catalog.retention_until ≡ some until)
      (encoded : encode_trace heap libs c max_trace_bytes ≡ ok object)
      (indexed_by : snapshot_trace_frontier_key libs c.catalog.scope c.catalog.trace_id
        ≡ ok frontier_key)
      (others_index : (s : S)
        → IsIndexed object.key frontier_key
            (marker_key_of heap libs store others max_trace_bytes c until object)
            s
        → IsIndexed object.key frontier_key
            (marker_key_of heap libs store others max_trace_bytes c until object)
            (others s)) where
    abbrev marker_key : Bytes
    marker_key = marker_key_of heap libs store others max_trace_bytes c until object

    abbrev Indexed : S → Type 0
    Indexed s = IsIndexed object.key frontier_key marker_key s

    -- A create under another key than the trace's.
    create-Indexed :
        (key payload : Bytes)
        → object.key ≢ key
        → (s : S) → Indexed s
        → Indexed (store.create s key payload).1
    create-Indexed key payload apart s indexed (there, f) =
        let ((front, f1), (mark, f2)) =
          indexed (there, sym (keeps.create_elsewhere s key payload object.key apart) ∙ f) in
        (
          (front, keeps.create_keeps s key payload frontier_key front f1),
          (mark, keeps.create_keeps s key payload marker_key mark f2),
        )

    apart_frontier :
        (key : Bytes)
        → snapshot_trace_frontier_key libs c.catalog.scope c.catalog.trace_id ≡ ok key
        → object.key ≢ key
    unfolding snapshot_trace_frontier_key
    apart_frontier key h e =
        let (t, at_t) = encode_trace-key libs heap c max_trace_bytes object encoded in
        let (u, e1, e2) = >>=-eq-ok (trace_time libs c.catalog.trace_id) _ h in
        trace_key_at-frontier_key_at libs c.catalog.scope c.catalog.trace_id t u
          (sym at_t ∙ e ∙ sym (ok-injective e2))

    apart_marker : object.key ≢ marker_key
    apart_marker e =
        let (t, at_t) = encode_trace-key libs heap c max_trace_bytes object encoded in
        trace_key_at-expiry_marker_key libs c.catalog.scope c.catalog.trace_id t until object.sha256
          (sym at_t ∙ e)

    -- After the frontier and the marker the trace may be written.
    put_trace-Indexed :
        (s : S)
        → IsFound store frontier_key s
        → IsFound store marker_key s
        → Indexed (put_create_same crypto store others object s).1
    put_trace-Indexed s (front, f1) (mark, f2) there =
        let grown =
          put-Grows heap libs store others max_trace_bytes laws keeps others_grow object s in
        ((front, grown frontier_key front f1), (mark, grown marker_key mark f2))

    -- The frontier that was put is there after the marker is written.
    frontier-IsFound :
        (key : Bytes) (s1 s2 s3 : S) (put : PutDisposition) (written : Bytes)
        → snapshot_trace_frontier_key libs c.catalog.scope c.catalog.trace_id ≡ ok key
        → put_create_same crypto store others
            (encode_json crypto key (libs.frontier_json (frontier_of c until object)))
            s1
          ≡ (ok put, s2)
        → write_expiry_marker heap libs store others max_trace_bytes c.catalog.scope trace
            c.catalog.trace_id none until object.key object.sha256 s2
          ≡ (ok written, s3)
        → IsFound store frontier_key s3
    unfolding encode_json
    frontier-IsFound key s1 s2 s3 put written is_key e2 e3 =
        let (front, f, e) =
          put_create_same-Present crypto store others laws
            (encode_json crypto key (libs.frontier_json (frontier_of c until object))) s1 put s2
            e2 in
        let grown : Grows store s2 s3 = subst (Grows store s2) (ap (λ p. p.1) e3) (
          write_expiry_marker-keeps heap libs store others max_trace_bytes (Grows store s2)
            (others_extend heap libs store others max_trace_bytes laws keeps others_grow s2)
            c.catalog.scope trace c.catalog.trace_id none until object.key object.sha256
            (λ payload t.
              create_extends heap libs store others max_trace_bytes laws keeps others_grow s2 _
                payload t)
            s2 (λ key there f. f)) in
        let same : key ≡ frontier_key = ok-injective (sym is_key ∙ indexed_by) in
        (front, subst (λ k. store.get s3 k ≡ found front) same (grown key front f))

    persist_encoded-Indexed :
        (s : S)
        → Indexed s
        → Indexed (persist_encoded heap libs store others max_trace_bytes c until object s).1
    unfolding persist_encoded encode_json
    persist_encoded-Indexed s indexed =
        continue-keeps Indexed
          (lift (snapshot_trace_frontier_key libs c.catalog.scope c.catalog.trace_id) s) _ indexed
          (λ key s1 e1 k1.
            let is_key : snapshot_trace_frontier_key libs c.catalog.scope c.catalog.trace_id
                ≡ ok key =
              ap (λ p. p.0) e1 in
            let frontier_object =
              encode_json crypto key (libs.frontier_json (frontier_of c until object)) in
            continue-keeps Indexed (put_create_same crypto store others frontier_object s1) _
              (put_create_same-keeps crypto store others Indexed others_index frontier_object
                (create-Indexed key frontier_object.payload (apart_frontier key is_key)) s1 k1)
              (λ d2 s2 e2 k2.
                continue-keeps Indexed
                  (write_expiry_marker heap libs store others max_trace_bytes c.catalog.scope trace
                    c.catalog.trace_id none until object.key object.sha256 s2)
                  _
                  (write_expiry_marker-keeps heap libs store others max_trace_bytes Indexed
                    others_index c.catalog.scope trace c.catalog.trace_id none until object.key
                    object.sha256 (λ payload. create-Indexed marker_key payload apart_marker) s2 k2)
                  (λ d3 s3 e3 k3.
                    continue-keeps Indexed (put_create_same crypto store others object s3) _
                      (put_trace-Indexed s3 (frontier-IsFound key s1 s2 s3 d2 d3 is_key e2 e3) (
                        write_expiry_marker-IsFound heap libs store others max_trace_bytes laws
                          c.catalog.scope trace c.catalog.trace_id none until object.key
                          object.sha256 s2 d3 s3 e3))
                      (λ d4 s4 e4 k4.
                        continue-keeps Indexed _ _
                          (ensure_live_after_write-keeps crypto store others Indexed others_index
                            (trace_tombstone_key libs c.catalog.scope c.catalog.trace_id ∷ []) s4
                            k4)
                          (λ d5 s5 e5 k5. k5)))))

    persist_live-Indexed :
        (s : S)
        → Indexed s
        → Indexed (persist_live heap libs store others max_trace_bytes c object s).1
    unfolding persist_live
    persist_live-Indexed s indexed =
        continue-keeps Indexed
          (ensure_not_tombstoned crypto store others
            (trace_tombstone_key libs c.catalog.scope c.catalog.trace_id) s)
          _ (ensure_not_tombstoned-keeps crypto store others Indexed others_index _ s indexed)
          (λ d1 s1 e1 k1.
            continue-keeps Indexed
              (lift (context c.catalog.retention_until "captured trace is missing retention") s1)
              (λ u. persist_encoded heap libs store others max_trace_bytes c u object) k1
              (λ u s2 e2 k2.
                let same : u ≡ until = eq-of-some (
                  sym (
                    context-eq-ok c.catalog.retention_until "captured trace is missing retention"
                      (ap (λ p. p.0) e2))
                  ∙ retained) in
                subst
                  (λ v.
                    Indexed
                      (persist_encoded heap libs store others max_trace_bytes c v object s2).1)
                  (sym same) (persist_encoded-Indexed s2 k2)))

    persist_capture-Indexed :
        (s : S) → Indexed s → Indexed (persist_capture heap libs store others max_trace_bytes c s).1
    unfolding persist_capture persist_object
    persist_capture-Indexed s indexed =
        if-keeps Indexed (ltb max_trace_bytes (capture_bytes heap c)) _ _ s indexed (
          continue-keeps Indexed (lift (encode_trace heap libs c max_trace_bytes) s)
            (λ o. persist_object heap libs store others max_trace_bytes c o) indexed
            (λ o s1 e1 k1.
              let same : object ≡ o = ok-injective (sym encoded ∙ ap (λ p. p.0) e1) in
              subst (λ v. Indexed (persist_object heap libs store others max_trace_bytes c v s1).1)
                same
                (if-keeps Indexed (ltb max_trace_bytes (length object.payload)) _ _ s1 k1
                  (persist_live-Indexed s1 k1))))

    -- However `persist_event` ends, in success or at any error, whoever finds the trace object then
    -- finds the snapshot frontier and the expiry marker of the trace, if that was so before. Other
    -- writers may act between all accesses, as long as they delete nothing and keep that order too.
    pub persist_event-Indexed :
        (queued : QueuedTrace) (s : S)
        → queued.event ≡ capture c
        → Indexed s
        → IsFound store object.key (persist_event heap libs store others max_trace_bytes queued s).1
        → IsFound store frontier_key
            (persist_event heap libs store others max_trace_bytes queued s).1
          × IsFound store marker_key
              (persist_event heap libs store others max_trace_bytes queued s).1
    unfolding persist_event persist_kind
    persist_event-Indexed queued s e indexed =
        subst (λ event. Indexed (persist_kind heap libs store others max_trace_bytes event s).1)
          (sym e) (persist_capture-Indexed s indexed)
