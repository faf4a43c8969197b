-- ===== src/Stats/Accounts/Stages.antt =====
-- Each part of `observe` moves its own group of accounts by one and keeps the others.
use milk_carton.Base.{
  ℕ, ◌+◌, ◌≤◌, ◌<◌, ◌≡◌, ◌⊎◌, inl, inr, min, Bool, true, false, Option, none, some, Bytes, length,
  codes, List-Eq, ℕ-Eq, arith, ◌==◌, ==_iff, Bool-cases, if◌then◌else◌, leb, ◌&&◌,
}
use milk_carton.Stats.Counts.{
  u64_max, from_bool, position, sum-bump_at, length-bump_at, position-le,
}
use milk_carton.Stats.Latency.{observe_latency-LatencyAccounts, OptionFits}
use milk_carton.Stats.Values.{
  CaptureState, oversized, interrupted, persist_failed, TraceCatalog, StatsValues,
}
use milk_carton.Stats.{
  observe_endpoint, observe_parse, observe_capture, observe_status, observe_sizes,
  observe_latencies, observe_request, request_size_bucket_upper_bytes,
}
use milk_carton.Stats.Accounts.{Progress, Accounts, takes_capture}

if-elim {ℓ κ} :
    {A : Type ℓ} (P : A → Type κ) (b : Bool) {x y : A} → P x → P y → P (if b then x else y)
if-elim P true px py = px
if-elim P false px py = py

pub observe_request-Accounts :
    (p : Progress) (catalog : TraceCatalog) (v : StatsValues)
    → p.requests < u64_max
    → from_bool catalog.capture_selected ≤ from_bool catalog.capture_eligible
    → p.uncaptured ≡ 0
    → Accounts p v
    → Accounts
        (record p { requests = p.requests + 1; uncaptured = from_bool catalog.capture_selected })
        (observe_request catalog v)
unfolding observe_request
observe_request-Accounts p catalog v u sel none_left h = (
  (
    omega (arith, h.0.0, u),
    omega (arith, h.0.1, u),
    streaming catalog.streaming,
    eligible catalog.capture_eligible,
    selected catalog.capture_selected catalog.capture_eligible sel,
    uncounted catalog.capture_selected catalog.capture_eligible sel,
    h.0.6,
    h.0.7,
  ),
  h.1,
  h.2,
  h.3,
  h.4,
  h.5,
  h.6,
  h.7,
  h.8,
)
  where
    streaming : (b : Bool) → min (v.streaming + from_bool b) u64_max ≤ p.requests + 1
    streaming true = omega (arith, h.0.2)
    streaming false = omega (arith, h.0.2)

    eligible : (b : Bool) → min (v.eligible + from_bool b) u64_max ≤ p.requests + 1
    eligible true = omega (arith, h.0.3)
    eligible false = omega (arith, h.0.3)

    selected :
        (b c : Bool)
        → from_bool b ≤ from_bool c
        → min (v.selected + from_bool b) u64_max ≤ min (v.eligible + from_bool c) u64_max
    selected b c l = omega (arith, l, h.0.4)

    uncounted :
        (b c : Bool)
        → from_bool b ≤ from_bool c
        → v.captured + v.oversized + v.capture_failed + from_bool b
          ≤ min (v.selected + from_bool b) u64_max
    uncounted true c l = omega (arith, h.0.3, h.0.4, h.0.5, u, none_left)
    uncounted false c l = omega (arith, h.0.3, h.0.4, h.0.5, u, none_left)

pub observe_endpoint-Accounts :
    (p : Progress) (endpoint : Bytes) (v : StatsValues)
    → p.endpoints < u64_max
    → (endpoint ≡ codes "chat_completions") ⊎ (endpoint ≡ codes "responses")
    → Accounts p v
    → Accounts (record p { endpoints = p.endpoints + 1 }) (observe_endpoint endpoint v)
unfolding observe_endpoint
observe_endpoint-Accounts p endpoint v u known h =
    elim (Bool-cases (endpoint == codes "chat_completions")) [
      | inl chat ↦ rw chat (h.0, omega (arith, h.1, u), h.2, h.3, h.4, h.5, h.6, h.7, h.8)
      | inr other ↦ elim known [
        | inl chat ↦
            absurd (ground (arith, other, (==_iff endpoint (codes "chat_completions")).1 chat))
        | inr resp ↦
            rw (other, (==_iff endpoint (codes "responses")).1 resp)
              (h.0, omega (arith, h.1, u), h.2, h.3, h.4, h.5, h.6, h.7, h.8)
      ]
    ]

pub observe_parse-Accounts :
    (p : Progress) (success : Bool) (v : StatsValues)
    → p.parses < u64_max
    → Accounts p v
    → Accounts (record p { parses = p.parses + 1 }) (observe_parse success v)
unfolding observe_parse
observe_parse-Accounts p true v u h =
    (h.0, h.1, omega (arith, h.2, u), h.3, h.4, h.5, h.6, h.7, h.8)
observe_parse-Accounts p false v u h =
    (h.0, h.1, omega (arith, h.2, u), h.3, h.4, h.5, h.6, h.7, h.8)

pub observe_capture-Accounts :
    (p : Progress) (state : CaptureState) (captured : Bool) (v : StatsValues)
    → p.captures < u64_max
    → from_bool (takes_capture state captured) ≤ p.uncaptured
    → Accounts p v
    → Accounts
        (record p { captures = p.captures + 1; uncaptured = 0 })
        (observe_capture state captured v)
unfolding observe_capture
observe_capture-Accounts p state true v u t h = (
  (h.0.0, h.0.1, h.0.2, h.0.3, h.0.4, omega (arith, h.0.5, t), omega (arith, h.0.6), h.0.7),
  h.1,
  h.2,
  omega (arith, h.3, u),
  h.4,
  h.5,
  h.6,
  h.7,
  h.8,
)
observe_capture-Accounts p CaptureState.not_selected false v u t h = (
  (h.0.0, h.0.1, h.0.2, h.0.3, h.0.4, omega (arith, h.0.5), h.0.6, h.0.7),
  h.1,
  h.2,
  omega (arith, h.3, u),
  h.4,
  h.5,
  h.6,
  h.7,
  h.8,
)
observe_capture-Accounts p oversized false v u t h = (
  (h.0.0, h.0.1, h.0.2, h.0.3, h.0.4, omega (arith, h.0.5, t), h.0.6, h.0.7),
  h.1,
  h.2,
  omega (arith, h.3, u),
  h.4,
  h.5,
  h.6,
  h.7,
  h.8,
)
observe_capture-Accounts p interrupted false v u t h = (
  (h.0.0, h.0.1, h.0.2, h.0.3, h.0.4, omega (arith, h.0.5), h.0.6, h.0.7),
  h.1,
  h.2,
  omega (arith, h.3, u),
  h.4,
  h.5,
  h.6,
  h.7,
  h.8,
)
observe_capture-Accounts p persist_failed false v u t h = (
  (h.0.0, h.0.1, h.0.2, h.0.3, h.0.4, omega (arith, h.0.5, t), h.0.6, omega (arith, h.0.7)),
  h.1,
  h.2,
  omega (arith, h.3, u),
  h.4,
  h.5,
  h.6,
  h.7,
  h.8,
)

pub observe_status-Accounts :
    (p : Progress) (status : Option ℕ) (v : StatsValues)
    → p.statuses < u64_max
    → Accounts p v
    → Accounts (record p { statuses = p.statuses + 1 }) (observe_status status v)
unfolding observe_status
observe_status-Accounts p none v u h =
    (h.0, h.1, h.2, h.3, h.4, omega (arith, h.5, u), h.6, h.7, h.8)
observe_status-Accounts p (some status) v u h =
    let P = Accounts (record p { statuses = p.statuses + 1 }) in
    if-elim P (leb 200 status && leb status 299)
      (h.0, h.1, h.2, h.3, h.4, omega (arith, h.5, u), h.6, h.7, h.8)
      (if-elim P (leb 400 status && leb status 499)
        (h.0, h.1, h.2, h.3, h.4, omega (arith, h.5, u), h.6, h.7, h.8)
        (if-elim P (leb 500 status && leb status 599)
          (h.0, h.1, h.2, h.3, h.4, omega (arith, h.5, u), h.6, h.7, h.8)
          (h.0, h.1, h.2, h.3, h.4, omega (arith, h.5, u), h.6, h.7, h.8)))

pub observe_sizes-Accounts :
    (p : Progress) (request_bytes response_bytes : ℕ) (v : StatsValues)
    → p.sizes < u64_max
    → Accounts p v
    → Accounts (record p { sizes = p.sizes + 1 }) (observe_sizes request_bytes response_bytes v)
unfolding observe_sizes
observe_sizes-Accounts p request_bytes response_bytes v u h =
    let bucket = position request_bytes request_size_bucket_upper_bytes in
    let inside : bucket < length v.request_size_buckets =
      omega (arith, position-le request_bytes request_size_bucket_upper_bytes, h.6.1) in
    (
      h.0,
      h.1,
      h.2,
      h.3,
      h.4,
      h.5,
      (
        omega (
          arith,
          sum-bump_at bucket v.request_size_buckets inside (omega (arith, h.6.0, u)),
          h.6.0,
        ),
        omega (arith, length-bump_at bucket v.request_size_buckets, h.6.1),
      ),
      h.7,
      h.8,
    )

pub observe_latencies-Accounts :
    (p : Progress) (ttft_ms completion_ms : Option ℕ) (v : StatsValues)
    → p.latencies < u64_max
    → OptionFits ttft_ms
    → OptionFits completion_ms
    → Accounts p v
    → Accounts
        (record p { latencies = p.latencies + 1 })
        (observe_latencies ttft_ms completion_ms v)
unfolding observe_latencies
observe_latencies-Accounts p ttft_ms completion_ms v u f g h = (
  h.0,
  h.1,
  h.2,
  h.3,
  h.4,
  h.5,
  h.6,
  h.7,
  (
    observe_latency-LatencyAccounts p.latencies ttft_ms v.ttft u f h.8.0,
    observe_latency-LatencyAccounts p.latencies completion_ms v.completion u g h.8.1,
  ),
)
