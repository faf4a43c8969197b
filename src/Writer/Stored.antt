-- ===== src/Writer/Stored.antt =====
-- What a flush has stored: no object that was pending and no entry of the statistics is lost.
use milk_carton.Base.{
  ◌≡◌, ◌⊎◌, inl, inr, refl, subst, List, [], ◌∷◌, ◌++◌, ℕ, Result, ok, err, Some,
}
use milk_carton.Trace.{Allocator}
use milk_carton.Queue.{StatsCounters}
use milk_carton.Store.{ObjectStore, StoreLaws}
use milk_carton.Persist.{EncodedObject, PutDisposition, put_create_same}
use milk_carton.Persist.Keys.{RecordLibs}
use milk_carton.Persist.Keeps.{KeepLaws, Present, Grows, put_create_same-Present}
use milk_carton.Persist.Stored.{put-Grows}
use milk_carton.Writer.{settle_put, flush_pending, flush_pending_stats}

-- Membership as a sum, and the objects that a list of objects has been put or kept as.
abbrev pub In : EncodedObject → List EncodedObject → Type 0
In object objects = Some (λ o. o ≡ object) objects

In-append_left :
    (object : EncodedObject) (xs ys : List EncodedObject) → In object xs → In object (xs ++ ys)
In-append_left object [] ys h = absurd h
In-append_left object (x ∷ xs) ys (inl e) = inl e
In-append_left object (x ∷ xs) ys (inr later) = inr (In-append_left object xs ys later)

In-append_right :
    (object : EncodedObject) (xs : List EncodedObject) → In object (xs ++ (object ∷ []))
In-append_right object [] = inl refl
In-append_right object (x ∷ xs) = inr (In-append_right object xs)

module _ {S : Type 0} (heap : Allocator) (libs : RecordLibs) (store : ObjectStore S)
    (others : S → S) (max_trace_bytes : ℕ) (laws : StoreLaws store) (keeps : KeepLaws store)
    (others_grow : (s : S) → Grows store s (others s)) where
  open libs use {crypto}

  -- The object is stored, or it is still pending.
  abbrev pub Accounted : List EncodedObject → S → EncodedObject → Type 0
  Accounted pending s object = Present store object.key object.payload s ⊎ In object pending

  settle_put-In :
      (now : ℕ) (object : EncodedObject) (put : Result PutDisposition)
      (t : StatsCounters × List EncodedObject) (other : EncodedObject)
      → In other t.1
      → In other (settle_put heap libs store others max_trace_bytes now object put t).1
  unfolding settle_put
  settle_put-In now object (ok d) (c, failed) other h = h
  settle_put-In now object (err error) (c, failed) other h = In-append_left other failed _ h

  -- What is pending in the accumulator stays pending, and the store only grows.
  flush_pending-keeps :
      (now : ℕ) (objects : List EncodedObject) (t : StatsCounters × List EncodedObject) (s : S)
      → ((other : EncodedObject)
          → In other t.1
          → In other (flush_pending heap libs store others max_trace_bytes now objects t s).0.1)
        × Grows store s (flush_pending heap libs store others max_trace_bytes now objects t s).1
  unfolding flush_pending
  flush_pending-keeps now [] t s = (λ other h. h, λ key o f. f)
  flush_pending-keeps now (object ∷ rest) t s =
      let put = put_create_same crypto store others object s in
      let (stay, grow) =
        flush_pending-keeps now rest
          (settle_put heap libs store others max_trace_bytes now object put.0 t) put.1 in
      (
        λ other h. stay other (settle_put-In now object put.0 t other h),
        λ key o f. grow key o (
            put-Grows heap libs store others max_trace_bytes laws keeps others_grow object s key o
              f),
      )

  settled :
      (now : ℕ) (object : EncodedObject) (t : StatsCounters × List EncodedObject) (s : S)
      (put : Result PutDisposition) (s' : S)
      → put_create_same crypto store others object s ≡ (put, s')
      → Accounted (settle_put heap libs store others max_trace_bytes now object put t).1 s' object
  unfolding settle_put
  settled now object t s (ok d) s' e =
      inl (put_create_same-Present crypto store others laws object s d s' e)
  settled now object (c, failed) s (err error) s' e = inr (In-append_right object failed)

  flush_pending-Accounted :
      (now : ℕ) (objects : List EncodedObject) (t : StatsCounters × List EncodedObject) (s : S)
      (object : EncodedObject)
      → In object objects
      → Accounted
          (flush_pending heap libs store others max_trace_bytes now objects t s).0.1
          (flush_pending heap libs store others max_trace_bytes now objects t s).1
          object
  unfolding flush_pending
  flush_pending-Accounted now [] t s object h = absurd h
  flush_pending-Accounted now (o ∷ rest) t s object (inr later) =
      flush_pending-Accounted now rest _ _ object later
  flush_pending-Accounted now (o ∷ rest) t s object (inl same) =
      let put = put_create_same crypto store others o s in
      let next = settle_put heap libs store others max_trace_bytes now o put.0 t in
      let (stay, grow) = flush_pending-keeps now rest next put.1 in
      subst
        (λ x.
          Accounted (flush_pending heap libs store others max_trace_bytes now rest next put.1).0.1
            (flush_pending heap libs store others max_trace_bytes now rest next put.1).1 x)
        same
        (elim (settled now o t s put.0 put.1 refl) [
          | inl (there, f, e) ↦ inl (there, grow o.key there f, e)
          | inr waits ↦ inr (stay o waits)
        ])

  -- After `flush_pending_stats` each object that was pending is stored with its payload, or is still
  -- pending, whatever fails and whatever other writers, who delete nothing, do in between.
  pub flush_pending_stats-Accounted :
      (now : ℕ) (c : StatsCounters) (pending : List EncodedObject) (s : S) (object : EncodedObject)
      → In object pending
      → Accounted
          (flush_pending_stats heap libs store others max_trace_bytes now c pending s).0.1
          (flush_pending_stats heap libs store others max_trace_bytes now c pending s).1
          object
  unfolding flush_pending_stats
  flush_pending_stats-Accounted now c pending s object h =
      flush_pending-Accounted now pending (c, []) s object h

  -- The store only grows.
  pub flush_pending_stats-Grows :
      (now : ℕ) (c : StatsCounters) (pending : List EncodedObject) (s : S)
      → Grows store s (flush_pending_stats heap libs store others max_trace_bytes now c pending s).1
  unfolding flush_pending_stats
  flush_pending_stats-Grows now c pending s = (flush_pending-keeps now pending (c, []) s).1
