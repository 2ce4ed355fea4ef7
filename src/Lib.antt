-- ===== src/Lib.antt =====
-- A model of the albstractions Go modules and proofs about it.
--
-- The repository is a set of small independent modules: cache (an in-memory cache with expiries, and
-- layers over it), retry (calling a function again until it succeeds), throttle (pacing calls),
-- schedule (the delays that the two take), certkit (key loading, mutual TLS, certificates) and
-- lifecycle (starting and stopping an application). A schedule is handed to a retry or a throttle as
-- an interface; no module imports another but certkit/mtls, which loads its keys by
-- certkit/keyloader.
--
-- The files:
--
-- - Prelude: Booleans, lists, maps, integers over the native numbers, threads by number.
-- - Time: time.Time and time.Duration in nanoseconds; Time.Sub saturates. Errors: error values with
--   errors.Is, and contexts as one call sees them.
-- - Cache/Ttl: cache/ttl.go and cache/options.go. `resolve_expiry` is resolveExpiry, the clamps are
--   clampLifetime and clampNever, `expired` is expired of cache/memory.go.
-- - Cache/Interface: cache/cache.go. `Cache` is the interface as a record of its methods, which every
--   layer takes and offers; the records of laws beside it are what a client may rely on.
-- - Cache/Memory: cache/memory.go. The map is an association list whose order stands for the order
--   of a range statement. A call takes the instant that it reads; `read` is lookup and `evict` its
--   second critical section; `loop` is the background goroutine over the cases that its select took.
--   Memory/Refinement compares a cache with a store that never sweeps, by Memory/Liveness and
--   Memory/Lookups; Memory/Interface makes it a `Cache`, with the clock in the state.
-- - Cache/ReadThrough: cache/readthrough.go. `get_context` is GetContext and `load_and_store` is
--   loadAndStore over any front and a loader. ReadThrough/Reads is about one read,
--   ReadThrough/Stack about a whole layer over a Memory. ReadThrough/Flight is the flight group, as
--   steps of the callers of one key, with Calls and Progress about them. ReadThrough/Callers is the
--   layer with its group: GetContext of one key by callers at once.
-- - Cache/WriteThrough: cache/writethrough.go. The lock of one key, as steps of its callers, with
--   `enter` the critical section of lock; Writes is the layer over any front and a store, one call
--   after another, with Coherence about it; Interleaving is SetContext and DeleteContext of one key
--   by callers at once, each call cut where it meets the lock, the store and the front.
-- - Cache/Sharded: cache/sharded.go. `shard_index` and `at_shard` are shard and the calls
--   through it, `scan` is ItemsContext. Sharded/Memories compares shards that are Memories with one
--   Memory.
-- - Cache/Mock: cache/mock/mock.go, a `Cache` that counts its calls and answers by the functions it
--   is given. Mock/Records is about what the layers call.
-- - Retry: retry/retry.go and retry/stop.go. `do_retry` is Do, over a world that answers by the
--   number of the attempt. The loop takes fuel; with MaxAttempts(n) a fuel of n is enough, and in
--   general the number of the last attempt is.
-- - Throttle: throttle/throttle.go and throttle/roundtripper.go. `do_call` is Do by one caller,
--   `next_slot` is nextSlot, `round_trip` is RoundTrip; Throttle/Inflight is the same Do as steps of
--   callers in any interleaving.
-- - Schedule: schedule/*.go, a file for each strategy. The float64 operations, the random source and
--   the rate limiter are parameters, with the laws that the proofs use named in records.
-- - Certkit/Keyloader: certkit/keyloader/keyloader.go and its mock. Slices are numbered buffers, so
--   that what is zeroed is seen; Runes is bytes.Map with its reading of UTF-8, and Hex the decoder of
--   encoding/hex with the options that take it. The base64 decoder is a parameter.
-- - Certkit/Mtls: certkit/mtls/mtls.go. `new_tls_config` is NewTLSConfig, in the stages between its
--   deferred frees. Mtls/Providers is about the providers of FromEnv that it is given.
-- - Certkit/Pki: certkit/pki/pki.go. `generate_cert` and `generate_ca` are generateCert and
--   GenerateCA, as chains of calls whose first error is returned; Pki/Generate is the two functions,
--   Pki/RoundTrip and Pki/Issues are about what they return.
-- - Lifecycle: lifecycle/lifecycle.go. `Group` is Group with its operations; Lifecycle/Steps are the
--   goroutines of a group and the callers of its methods in any interleaving; Lifecycle/Shutdown (with
--   Settling), Causes (with Explanations and Histories), Finality and Progress are about them.
--   Lifecycle/Drain is run past the end of the group's context, and Lifecycle/Run the callers of Run
--   with the channels behind Ready and Done.
-- - Tests: runs at concrete inputs.
--
-- Keys equal themselves: the map of a cache has no NaN keys. Instants do not wrap, which takes 292
-- billion years. Goroutines are modelled where their interleaving matters: the eviction of a read, the
-- flight group, the locks of keys and the writes under them, the callers of a throttle, a group's life
-- and the callers of Run. Other calls of one object are a sequence. Not modelled: the buffer that
-- bytes.Map leaves behind if its output outgrows its input, which takes bytes that are no UTF-8, and
-- the strings that hold key text; logging and the text of errors, the operating system, and a panic of
-- the error handler of a group. In ReadThrough/Callers a load and the storing of its value are one
-- step; in WriteThrough/Interleaving a store whose call fails is unchanged, and a front takes what it
-- is given.
pub mod Prelude
pub mod Time
pub mod Errors
pub mod Cache
pub mod Schedule
pub mod Retry
pub mod Throttle
pub mod Certkit
pub mod Lifecycle
pub mod Tests
