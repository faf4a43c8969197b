-- ===== src/Lib.antt =====
-- Milk Carton: a gateway between clients and an OpenAI-compatible provider that can send a signed,
-- time-limited share of the requests to a candidate model, records requests for evaluation, and
-- keeps its records, statistics, route publications and leases in an object store.
--
-- The parts and their files (paths under crates/milk-carton/src):
--   Hex, Hex/Digits            decode_lowercase_hex_32 and hex_digest of route.rs, decode_sha256 and
--                              decode_lowercase_sha256 of main.rs
--   Sampling                   sticky_sample and selected of route.rs, capture_sample_selected and
--                              capture_selected of main.rs
--   Text, Text/Utf8            the tests on texts of route.rs, and the UTF-8 decoding, trimming and
--                              case folding of the standard library that they call
--   Route                      route.rs: Route/Types its data, Route/Validate and Route/Url the
--                              validation of a manifest, Route/Manifest its parsers, Route/Policy the
--                              activation (from_signed_bytes), Route/Decide the decision for a request,
--                              Route/Prepare the making of a manifest from a proposal, Route/Binding
--                              the check of a signed manifest against its proposal, Route/Pointer the
--                              text of the pointer to the live revision
--   Store                      conditional_update_version of records.rs, and the object store
--   Lease                      the tick lease of records.rs: acquire_tick_lease, release_tick_lease
--                              and what they call
--   Live                       activate_route and load_live_pointer of records.rs
--   Auth                       configured_traffic_keys, traffic_key_id and authenticate_traffic_key of
--                              main.rs
--   Proxy                      proxy_openai of main.rs from the decision to the response: the choice of
--                              the target, the headers that cannot be forwarded, the fallback to the
--                              baseline, the fuse and the permits
--   Stats                      LatencyStats, StatsValues and the conditions of validate_stats_shard of
--                              records.rs
--   Trace                      TraceCapture, TraceEvent and the memory they are charged for
--   Queue                      Records::try_enqueue, try_observe and try_capture of records.rs, with
--                              the channel, its budget of bytes, and the worker (RecordStore::run)
--   Recorder                   TraceRecorder and UpstreamBody of main.rs: what is recorded of a
--                              streamed response, and the search for the end of its events
--   Headers                    the headers of a request that are sent on to a target, and those of a
--                              response that are sent on to the client, of main.rs; the credential of
--                              the provider and the gateway's own headers are added elsewhere
--   Effect                     operations on a store that can fail
--   Persist                    the immutable objects of records.rs, and persist_event with the frontier
--                              and the expiry marker of a trace
--   Writer                     process_batch, flush_stats and flush_pending_stats of records.rs
--   Partition                  PartitionedObjectStore of records.rs and classify_store_path
--   Base                       equality, lists over native numbers, anyhow::Result
--   Tests                      concrete inputs
--
-- How they interact: an operator prepares a manifest (Route/Prepare), signs it, and the signed bytes
-- are checked against the proposal (Route/Binding), stored, and made live (Live) through the pointer
-- (Route/Pointer). The gateway makes a policy of the signed bytes (Route/Policy). It authenticates a
-- request (Auth) and asks the policy for its target (Route/Decide, Sampling); the proxy acts on the
-- decision (Proxy), with the headers that may pass (Headers). The recorder follows the body of the
-- response (Recorder) and hands a trace (Trace) to the queue (Queue), from which the writer (Writer)
-- takes batches, stores the captured ones (Persist), counts all of them (Stats) and stores the counts.
-- The store keeps its kinds of objects apart (Partition). Periodic work is done by the process that
-- holds the lease (Lease).
--
-- Correspondence: a struct is a record and an enum a data type with the source's names. A `String` and
-- a byte slice are lists of numbers, a `Uuid` is a number, a `DateTime<Utc>` and an `Instant` are
-- nanoseconds. `anyhow::Result` is `Result`, whose error is the message. A function with early returns
-- is a do block; one whose later steps touch the store passes the state of the store from helper to
-- helper, one for each `match` of the source; where it is a chain of `?`, it is a do block of `Act`
-- (Effect), which keeps the state that a failure leaves. `interfere n` and `others` are what other
-- writers do to the store before an access that follows an await. Counters are saturating at 2^64 - 1
-- as in the source, but `fetch_add` wraps at 2^64; a `u128` product is taken modulo 2^128. Recursion is
-- structural, with one exception: the rounds of the worker's loop (Queue/Rounds) are on fuel, and as
-- much fuel as there are items in the channel is enough. The items of a batch, which the writer persists
-- at the same time, are runs that each have their own view of the store; whatever order they end in is a
-- list of runs. The worker collects a batch in one step, where the source can be interleaved with the
-- producers between two items.
--
-- Parameters: the JSON texts of serde, the digests, MACs and signatures of ring and sha2, the parser
-- of the crate url, and the object store, each a record of functions, with laws where the code relies
-- on them (the size of a digest; that a JSON text is read back as the value that was written; that
-- create and update of the store are conditional and that a write changes the version). The capacity
-- of a buffer, which in the code can also depend on how the buffer has grown, and the success of
-- `try_reserve` are the allocator's, by the contents (Trace); the time that a clock reads
-- is an argument, and what the HTTP crate accepts as a header is a test (Headers).
--
-- Not modelled: the server and client plumbing of the proxy, the local store with its files and its
-- conditional update, the publication of a route before its activation, outcomes, snapshots, exports,
-- retention and deletion, the teacher and candidate exchange, the configuration files and the command
-- line. They are asynchronous input and output around the parts above, or further record kinds of the
-- store.
pub mod Auth
pub mod Base
pub mod Crypto
pub mod Effect
pub mod Headers
pub mod Hex
pub mod Lease
pub mod Live
pub mod Partition
pub mod Persist
pub mod Proxy
pub mod Queue
pub mod Recorder
pub mod Route
pub mod Sampling
pub mod Stats
pub mod Store
pub mod Tests
pub mod Text
pub mod Trace
pub mod Writer
