-- ===== src/Queue/Rounds.antt =====
-- The loop of `RecordStore::run` once the senders are gone: its rounds end, and take every trace.
use milk_carton.Base.{
  ℕ, zero, suc, ◌≤◌, ◌≡◌, refl, sym, ap, ◌∙◌, Option, none, some, List, [], ◌∷◌, ◌++◌, length,
  arith,
}
use milk_carton.Queue.{QueuedTrace, QueueItem, trace, flush}
use milk_carton.Queue.Worker.{batch_limit, Collected, collect}

abbrev more_rounds : Collected → Option (List Collected) → Option (List Collected)
more_rounds c none = none
more_rounds c (some rounds) = some (c ∷ rounds)

-- The rounds of the loop until `recv` finds the channel closed and empty; `none` when the fuel ends
-- first.
unfoldable pub run_rounds : ℕ → List QueueItem → Option (List Collected)
run_rounds fuel [] = some []
run_rounds zero (item ∷ items) = none
run_rounds (suc fuel) (item ∷ items) =
    let c = collect batch_limit (item ∷ items) in more_rounds c (run_rounds fuel c.rest)

-- The traces in a channel, and those of some rounds, in order.
unfoldable pub traces_of : List QueueItem → List QueuedTrace
traces_of [] = []
traces_of (trace queued ∷ items) = queued ∷ traces_of items
traces_of (flush acknowledge ∷ items) = traces_of items

unfoldable pub processed : List Collected → List QueuedTrace
processed [] = []
processed (c ∷ rounds) = c.batch ++ processed rounds

collect-traces :
    (room : ℕ) (items : List QueueItem)
    → (traces_of items ≡ (collect room items).batch ++ traces_of (collect room items).rest)
      × (length (collect room items).rest ≤ length items)
unfolding collect traces_of
collect-traces zero items = (refl, omega arith)
collect-traces (suc room) [] = (refl, omega arith)
collect-traces (suc room) (trace queued ∷ items) =
    let (t, l) = collect-traces room items in (ap (λ v. queued ∷ v) t, omega (arith, l))
collect-traces (suc room) (flush acknowledge ∷ items) = (refl, omega arith)

-- A round takes at least one item.
collect-rest :
    (room : ℕ) (item : QueueItem) (items : List QueueItem)
    → length (collect (suc room) (item ∷ items)).rest ≤ length items
unfolding collect
collect-rest room (trace queued) items = (collect-traces room items).1
collect-rest room (flush acknowledge) items = omega arith

-- As many rounds as there are items are enough to end the loop, and the rounds process each trace of
-- the channel once, in the order in which they were sent.
pub run_rounds-traces_of :
    (fuel : ℕ) (items : List QueueItem)
    → length items ≤ fuel
    → (rounds : List Collected) × (run_rounds fuel items ≡ some rounds)
      × (processed rounds ≡ traces_of items)
unfolding run_rounds traces_of processed
run_rounds-traces_of fuel [] h = ([], refl, refl)
run_rounds-traces_of zero (item ∷ items) h = absurd (omega arith)
run_rounds-traces_of (suc fuel) (item ∷ items) h =
    let c = collect batch_limit (item ∷ items) in
    let (rounds, e, p) =
      run_rounds-traces_of fuel c.rest (omega (arith, collect-rest 255 item items, h)) in
    (
      c ∷ rounds,
      ap (more_rounds c) e,
      ap (λ v. c.batch ++ v) p ∙ sym (collect-traces batch_limit (item ∷ items)).0,
    )
