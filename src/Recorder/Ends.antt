-- ===== src/Recorder/Ends.antt =====
-- The end of a recorded response: the body finishes its recorder once, whatever the polls are.
use milk_carton.Base.{
  ℕ, ◌≡◌, refl, ap, ◌∙◌, Bool, true, false, Option, none, some, List, [], ◌∷◌, Bytes, length,
}
use milk_carton.Stats.Values.{TraceCatalog}
use milk_carton.Trace.{Allocator}
use milk_carton.Queue.{Records}
use milk_carton.Recorder.{TraceRecorder, count_bytes, observe}
use milk_carton.Recorder.Body.{
  Poll, chunk, failed, ended, pending, record_whole, record_end, finish_taken, finish, observe_some,
  finish_some, poll_next, disconnected, drop_recorder, drop_body, respond_with,
}
use milk_carton.Recorder.Stream.{observe_all, observe-catalog}

-- How the response came to its end, and when.
pub data Ending : Type 0 where
  at_failure at_end at_drop : ℕ → Ending

-- The chunks before the end.
unfoldable pub chunks_of : List Poll → List (ℕ × Bytes)
chunks_of [] = []
chunks_of (chunk elapsed bytes ∷ rest) = (elapsed, bytes) ∷ chunks_of rest
chunks_of (pending ∷ rest) = chunks_of rest
chunks_of (failed elapsed ∷ rest) = []
chunks_of (ended elapsed ∷ rest) = []

unfoldable pub ending_of : List Poll → ℕ → Ending
ending_of [] dropped = at_drop dropped
ending_of (chunk elapsed bytes ∷ rest) dropped = ending_of rest dropped
ending_of (pending ∷ rest) dropped = ending_of rest dropped
ending_of (failed elapsed ∷ rest) dropped = at_failure elapsed
ending_of (ended elapsed ∷ rest) dropped = at_end elapsed

unfoldable pub time_of : Ending → ℕ
time_of (at_failure elapsed) = elapsed
time_of (at_end elapsed) = elapsed
time_of (at_drop elapsed) = elapsed

-- The class that `finish` is called with.
unfoldable pub given_class : Ending → Bytes → Bool → Option Bytes
given_class (at_failure elapsed) class seen = some class
given_class (at_end elapsed) class seen = none
given_class (at_drop elapsed) class seen = disconnected seen

module _ (heap : Allocator) where
  unfoldable pub finish_at : Ending → Bytes → TraceRecorder → Option Records → Option Records
  finish_at ending class r records =
      (finish heap (time_of ending) (given_class ending class r.stream_terminal_seen) r records).1

  chunk_spent :
      (elapsed : ℕ) (bytes : Bytes) (r : TraceRecorder)
      → r.catalog ≡ none
      → (observe heap elapsed bytes r).catalog ≡ none
  chunk_spent elapsed bytes r h =
      observe-catalog heap elapsed bytes r ∙ ap (count_bytes (length bytes)) h

  record_whole-catalog :
      (oversized selected : Bool) (r : TraceRecorder) (catalog : TraceCatalog) (records : Records)
      → (record_whole heap oversized selected r catalog records).0.catalog ≡ r.catalog
  unfolding record_whole
  record_whole-catalog true selected r catalog records = refl
  record_whole-catalog false true r catalog records = refl
  record_whole-catalog false false r catalog records = refl

  record_end-catalog :
      (class : Option Bytes) (r : TraceRecorder) (catalog : TraceCatalog) (records : Records)
      → (record_end heap class r catalog records).0.catalog ≡ r.catalog
  unfolding record_end
  record_end-catalog (some class) r catalog records = refl
  record_end-catalog none r catalog records =
      record_whole-catalog r.oversized r.selected r catalog records

  finish_taken-catalog :
      (elapsed : ℕ) (class : Option Bytes) (r : TraceRecorder) (catalog : Option TraceCatalog)
      (records : Option Records)
      → r.catalog ≡ catalog
      → (finish_taken heap elapsed class r catalog records).0.catalog ≡ none
  finish_taken-catalog elapsed class r none records h = h
  finish_taken-catalog elapsed class r (some catalog) none h = refl
  finish_taken-catalog elapsed class r (some catalog) (some records) h =
      record_end-catalog _ (record r { catalog = none }) _ records

  finish_spent :
      (elapsed : ℕ) (class : Option Bytes) (r : TraceRecorder) (records : Option Records)
      → r.catalog ≡ none
      → finish heap elapsed class r records ≡ (r, records)
  unfolding finish
  finish_spent elapsed class r records h =
      ap (λ catalog. finish_taken heap elapsed class r catalog records) h

  finish-catalog :
      (elapsed : ℕ) (class : Option Bytes) (r : TraceRecorder) (records : Option Records)
      → (finish heap elapsed class r records).0.catalog ≡ none
  unfolding finish
  finish-catalog elapsed class r records =
      finish_taken-catalog elapsed class r r.catalog records refl

  -- A recorder without its catalog records nothing.
  spent :
      (polls : List Poll) (dropped : ℕ) (class : Bytes) (health : Option Bool) (r : TraceRecorder)
      (records : Option Records)
      → r.catalog ≡ none
      → (respond_with heap polls dropped
          (record { stream_error_class = class; candidate_health = health; recorder = some r })
          records).2
        ≡ records
  unfolding respond_with drop_body drop_recorder poll_next observe_some finish_some
  spent [] dropped class health r records h = ap (λ p. p.1) (finish_spent dropped _ r records h)
  spent (chunk elapsed bytes ∷ rest) dropped class health r records h =
      spent rest dropped class health (observe heap elapsed bytes r) records
        (chunk_spent elapsed bytes r h)
  spent (pending ∷ rest) dropped class health r records h =
      spent rest dropped class health r records h
  spent (failed elapsed ∷ rest) dropped class health r records h =
      spent rest dropped class _ (finish heap elapsed (some class) r records).0 _
        (finish-catalog elapsed (some class) r records)
      ∙ ap (λ p. p.1) (finish_spent elapsed (some class) r records h)
  spent (ended elapsed ∷ rest) dropped class health r records h =
      spent rest dropped class _ (finish heap elapsed none r records).0 _
        (finish-catalog elapsed none r records)
      ∙ ap (λ p. p.1) (finish_spent elapsed none r records h)

-- The polls of a body up to its drop record what one `finish` records, at the end of the response,
-- after the chunks before it; later polls and the drop record nothing more.
pub respond_with-finish_at :
    (heap : Allocator) (polls : List Poll) (dropped : ℕ) (class : Bytes) (health : Option Bool)
    (r : TraceRecorder) (records : Option Records)
    → (respond_with heap polls dropped
        (record { stream_error_class = class; candidate_health = health; recorder = some r })
        records).2
      ≡ finish_at heap
          (ending_of polls dropped)
          class
          (observe_all heap (chunks_of polls) r)
          records
unfolding respond_with drop_body drop_recorder poll_next observe_some finish_some ending_of
    chunks_of observe_all finish_at time_of given_class
respond_with-finish_at heap [] dropped class health r records = refl
respond_with-finish_at heap (chunk elapsed bytes ∷ rest) dropped class health r records =
    respond_with-finish_at heap rest dropped class health (observe heap elapsed bytes r) records
respond_with-finish_at heap (pending ∷ rest) dropped class health r records =
    respond_with-finish_at heap rest dropped class health r records
respond_with-finish_at heap (failed elapsed ∷ rest) dropped class health r records =
    spent heap rest dropped class _ _ _ (finish-catalog heap elapsed (some class) r records)
respond_with-finish_at heap (ended elapsed ∷ rest) dropped class health r records =
    spent heap rest dropped class _ _ _ (finish-catalog heap elapsed none r records)
