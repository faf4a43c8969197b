-- ===== src/Writer/Acknowledged.antt =====
-- What the acknowledgement of a flush means: all that was pending and all the statistics are stored.
use milk_carton.Base.{
  ◌≡◌, inl, inr, refl, subst, Bool, true, false, ◌&&◌, Option, none, some, List, [], ◌∷◌, Bytes, ℕ,
  suc, Some, if◌then◌else◌, arith,
}
use milk_carton.Route.Types.{Uuid, DateTime}
use milk_carton.Stats.Values.{StatsValues}
use milk_carton.Stats.{is_empty}
use milk_carton.Trace.{Allocator}
use milk_carton.Queue.{StatsCounters}
use milk_carton.Store.{ObjectStore, StoreLaws}
use milk_carton.Persist.{EncodedObject, encode_json}
use milk_carton.Persist.Keys.{RecordLibs}
use milk_carton.Persist.Keeps.{KeepLaws, Present, Grows}
use milk_carton.Writer.{
  StatsRuntime, StatsMap, StatsShard, WriterState, flush_pending_stats, stats_key,
}
use milk_carton.Writer.Flush.{
  no_objects, no_entries, Encoding, shard_of, add_encoded, encode_entry, encode_entries,
  flush_entries, with_losses, flush_unless_pending, flush_stats, acknowledge_flush,
}
use milk_carton.Writer.Stored.{
  In, Accounted, flush_pending_stats-Accounted, flush_pending_stats-Grows,
}

-- An entry of the statistics.
abbrev pub HasEntry : Uuid → DateTime → StatsValues → StatsMap → Type 0
HasEntry scope hour values stats = Some (λ e. e ≡ (scope, hour, values)) stats

pub no_objects-nil : (xs : List EncodedObject) → no_objects xs ≡ true → xs ≡ []
no_objects-nil [] h = refl
no_objects-nil (x ∷ xs) h = cc

no_entries-nil : (xs : StatsMap) → no_entries xs ≡ true → xs ≡ []
no_entries-nil [] h = refl
no_entries-nil (x ∷ xs) h = cc

and-true : (a b : Bool) → (a && b) ≡ true → (a ≡ true) × (b ≡ true)
and-true a b h = ground arith

module _ {S : Type 0} (heap : Allocator) (libs : RecordLibs) (store : ObjectStore S)
    (others : S → S) (max_trace_bytes : ℕ) (shard_json : StatsShard → Option Bytes)
    (flush_id : ℕ → Uuid) (writer_id : Uuid) (runtime : StatsRuntime) where
  -- The object that an entry is stored as, with the n-th identifier of the flush.
  abbrev pub shard_object : ℕ → Uuid → DateTime → Bytes → EncodedObject
  shard_object n scope hour json =
      encode_json libs.crypto
        (stats_key heap libs store others max_trace_bytes scope hour writer_id (flush_id n)) json

  abbrev shard : ℕ → DateTime → Uuid → DateTime → StatsValues → StatsShard
  shard = shard_of heap libs store others max_trace_bytes shard_json flush_id writer_id runtime

  abbrev encoded : ℕ → DateTime → ℕ → StatsMap → StatsCounters → Encoding
  encoded =
      encode_entries heap libs store others max_trace_bytes shard_json flush_id writer_id runtime

  -- The entry was encoded, and its object is to be put.
  abbrev pub IsEncoded : DateTime → Uuid → DateTime → StatsValues → List EncodedObject → Type 0
  IsEncoded recorded_at scope hour values objects =
      (n : ℕ) × (json : Bytes) × (shard_json (shard n recorded_at scope hour values) ≡ some json)
      × In (shard_object n scope hour json) objects

  abbrev add : ℕ → ℕ → Uuid → DateTime → StatsValues → Option Bytes → Encoding → Encoding
  add = add_encoded heap libs store others max_trace_bytes shard_json flush_id writer_id runtime

  abbrev entry : ℕ → DateTime → ℕ → Uuid → DateTime → StatsValues → Encoding → Encoding
  entry = encode_entry heap libs store others max_trace_bytes shard_json flush_id writer_id runtime

  -- What an entry adds: nothing stays if nothing stayed, and the other objects are still to be put.
  entry-kept :
      (now : ℕ) (recorded_at : DateTime) (n : ℕ) (scope : Uuid) (hour : DateTime)
      (values : StatsValues) (e : Encoding)
      → (entry now recorded_at n scope hour values e).kept ≡ []
      → (e.kept ≡ [])
        × ((object : EncodedObject)
            → In object e.objects
            → In object (entry now recorded_at n scope hour values e).objects)
        × (is_empty values ≡ false
            → IsEncoded recorded_at scope hour values
                (entry now recorded_at n scope hour values e).objects)
  unfolding encode_entry add_encoded
  entry-kept now recorded_at n scope hour values e h =
      by_empty (is_empty values) refl (shard_json (shard n recorded_at scope hour values)) refl h
    where
      by_empty :
          (b : Bool)
          → is_empty values ≡ b
          → (json : Option Bytes) → shard_json (shard n recorded_at scope hour values) ≡ json
          → (if b then e else add now n scope hour values json e).kept ≡ []
          → (e.kept ≡ [])
            × ((object : EncodedObject)
                → In object e.objects
                → In object (if b then e else add now n scope hour values json e).objects)
            × (is_empty values ≡ false
                → IsEncoded recorded_at scope hour values
                    (if b then e else add now n scope hour values json e).objects)
      by_empty true b json j k = (k, λ object i. i, λ filled. absurd cc)
      by_empty false b none j k = absurd cc
      by_empty false b (some json) j k = (k, λ object i. inr i, λ filled. (n, json, j, inl refl))

  encode_entries-IsEncoded :
      (now : ℕ) (recorded_at : DateTime) (n : ℕ) (stats : StatsMap) (c : StatsCounters)
      → (encoded now recorded_at n stats c).kept ≡ []
      → (scope : Uuid) (hour : DateTime) (values : StatsValues) → HasEntry scope hour values stats
      → is_empty values ≡ false
      → IsEncoded recorded_at scope hour values (encoded now recorded_at n stats c).objects
  unfolding encode_entries
  encode_entries-IsEncoded now recorded_at n [] c h scope hour values there filled = absurd there
  encode_entries-IsEncoded now recorded_at n ((s, t, v) ∷ rest) c h scope hour values (inr later)
        filled =
      let (k, others_stay, mine) =
        entry-kept now recorded_at n s t v (encoded now recorded_at (suc n) rest c) h in
      let (m, json, j, i) =
        encode_entries-IsEncoded now recorded_at (suc n) rest c k scope hour values later filled in
      (m, json, j, others_stay _ i)
  encode_entries-IsEncoded now recorded_at n ((s, t, v) ∷ rest) c h scope hour values (inl same)
        filled =
      let (k, others_stay, mine) =
        entry-kept now recorded_at n s t v (encoded now recorded_at (suc n) rest c) h in
      subst
        (λ (p : Uuid × DateTime × StatsValues).
          is_empty p.2 ≡ false
          → IsEncoded recorded_at p.0 p.1 p.2
              (entry now recorded_at n s t v (encoded now recorded_at (suc n) rest c)).objects)
        same mine filled

  abbrev pub first_flush : ℕ → WriterState → S → (StatsCounters × List EncodedObject) × S
  first_flush now w s =
      flush_pending_stats heap libs store others max_trace_bytes now w.tally.counters w.pending s

  -- The state that the entries are encoded from: with the losses since the last flush.
  abbrev pub told : ℕ → DateTime → WriterState → S → WriterState
  told now recorded_at w s =
      with_losses heap libs store others max_trace_bytes shard_json flush_id writer_id runtime
        recorded_at (first_flush now w s).0 w

  -- The end of the flush, by whether nothing is pending after the first puts.
  abbrev ended : ℕ → DateTime → WriterState → S → Bool → WriterState × S
  ended now recorded_at w s b =
      if b
      then flush_entries heap libs store others max_trace_bytes shard_json flush_id writer_id
          runtime now recorded_at (told now recorded_at w s) (first_flush now w s).1
      else (told now recorded_at w s, (first_flush now w s).1)

  -- An entry is stored as the object that its encoding gives.
  abbrev pub IsStoredEntry : DateTime → Uuid → DateTime → StatsValues → S → Type 0
  IsStoredEntry recorded_at scope hour values s =
      (n : ℕ) × (json : Bytes) × (shard_json (shard n recorded_at scope hour values) ≡ some json)
      × Present store (shard_object n scope hour json).key json s

  module _ (laws : StoreLaws store) (keeps : KeepLaws store)
      (others_grow : (s : S) → Grows store s (others s)) where
    Accounted-Present :
        (pending : List EncodedObject) (s : S) (object : EncodedObject)
        → pending ≡ []
        → Accounted heap libs store others max_trace_bytes laws keeps others_grow pending s object
        → Present store object.key object.payload s
    Accounted-Present pending s object none_left (inl there) = there
    Accounted-Present pending s object none_left (inr waits) =
        absurd (subst (In object) none_left waits)

    flush_entries-IsStoredEntry :
        (now : ℕ) (recorded_at : DateTime) (w : WriterState) (s : S)
        → acknowledge_flush
            (flush_entries heap libs store others max_trace_bytes shard_json flush_id writer_id
              runtime now recorded_at w s).0
          ≡ true
        → (scope : Uuid) (hour : DateTime) (values : StatsValues)
        → HasEntry scope hour values w.tally.stats
        → is_empty values ≡ false
        → IsStoredEntry recorded_at scope hour values
            (flush_entries heap libs store others max_trace_bytes shard_json flush_id writer_id
              runtime now recorded_at w s).1
    unfolding flush_entries acknowledge_flush encode_json
    flush_entries-IsStoredEntry now recorded_at w s h scope hour values there filled =
        let e = encoded now recorded_at 0 w.tally.stats w.tally.counters in
        let put =
          flush_pending_stats heap libs store others max_trace_bytes now e.counters e.objects s in
        let both = and-true (no_entries e.kept) (no_objects put.0.1) h in
        let (n, json, j, i) =
          encode_entries-IsEncoded now recorded_at 0 w.tally.stats w.tally.counters
            (no_entries-nil e.kept both.0) scope hour values there filled in
        (
          n,
          json,
          j,
          Accounted-Present put.0.1 put.1 (shard_object n scope hour json)
              (no_objects-nil put.0.1 both.1)
              (flush_pending_stats-Accounted heap libs store others max_trace_bytes laws keeps
                others_grow now e.counters e.objects s _ i),
        )

    grown :
        (now : ℕ) (recorded_at : DateTime) (w : WriterState) (s : S) (key payload : Bytes)
        → Present store key payload (first_flush now w s).1
        → Present store key payload (ended now recorded_at w s true).1
    unfolding flush_entries
    grown now recorded_at w s key payload (object, f, e) = (
      object,
      flush_pending_stats-Grows heap libs store others max_trace_bytes laws keeps others_grow now _
          _ (first_flush now w s).1 key object f,
      e,
    )

    -- Nothing is pending after the first puts of a flush that is acknowledged.
    pub acknowledge_flush-first :
        (now : ℕ) (recorded_at : DateTime) (w : WriterState) (s : S)
        → acknowledge_flush
            (flush_stats heap libs store others max_trace_bytes shard_json flush_id writer_id
              runtime now recorded_at w s).0
          ≡ true
        → no_objects (first_flush now w s).0.1 ≡ true
    unfolding flush_stats flush_unless_pending acknowledge_flush with_losses
    acknowledge_flush-first now recorded_at w s h =
        by_pending (no_objects (first_flush now w s).0.1) refl h
      where
        by_pending :
            (b : Bool)
            → no_objects (first_flush now w s).0.1 ≡ b
            → acknowledge_flush (ended now recorded_at w s b).0 ≡ true
            → no_objects (first_flush now w s).0.1 ≡ true
        by_pending true e k = e
        by_pending false e k = (and-true _ (no_objects (first_flush now w s).0.1) k).1

    -- What an acknowledged flush has stored, by the state that its entries are encoded from.
    pub flush_stats-told :
        (now : ℕ) (recorded_at : DateTime) (w : WriterState) (s : S)
        → acknowledge_flush
            (flush_stats heap libs store others max_trace_bytes shard_json flush_id writer_id
              runtime now recorded_at w s).0
          ≡ true
        → ((object : EncodedObject)
            → In object w.pending
            → Present store object.key object.payload
                (flush_stats heap libs store others max_trace_bytes shard_json flush_id writer_id
                  runtime now recorded_at w s).1)
          × ((scope : Uuid) (hour : DateTime) (values : StatsValues)
              → HasEntry scope hour values (told now recorded_at w s).tally.stats
              → is_empty values ≡ false
              → IsStoredEntry recorded_at scope hour values
                  (flush_stats heap libs store others max_trace_bytes shard_json flush_id writer_id
                    runtime now recorded_at w s).1)
    unfolding flush_stats flush_unless_pending acknowledge_flush with_losses
    flush_stats-told now recorded_at w s h =
        by_pending (no_objects (first_flush now w s).0.1) refl h
      where
        by_pending :
            (b : Bool)
            → no_objects (first_flush now w s).0.1 ≡ b
            → acknowledge_flush (ended now recorded_at w s b).0 ≡ true
            → ((object : EncodedObject)
                → In object w.pending
                → Present store object.key object.payload (ended now recorded_at w s b).1)
              × ((scope : Uuid) (hour : DateTime) (values : StatsValues)
                  → HasEntry scope hour values (told now recorded_at w s).tally.stats
                  → is_empty values ≡ false
                  → IsStoredEntry recorded_at scope hour values (ended now recorded_at w s b).1)
        by_pending false e k =
            let left = (and-true _ (no_objects (first_flush now w s).0.1) k).1 in absurd cc
        by_pending true e k = (
          λ object i. grown now recorded_at w s object.key object.payload (
              Accounted-Present (first_flush now w s).0.1 (first_flush now w s).1 object
                (no_objects-nil (first_flush now w s).0.1 e)
                (flush_pending_stats-Accounted heap libs store others max_trace_bytes laws keeps
                  others_grow now w.tally.counters w.pending s object i)),
          flush_entries-IsStoredEntry now recorded_at (told now recorded_at w s)
              (first_flush now w s).1 k,
        )
