-- ===== src/Lib.antt =====
-- Fibre: the eviction policies of its cache, the cores of its channels, and histograms and integers of
-- its statistics.
--
-- The repository holds a concurrent cache (cache/), channels and locks (channels/), statistics
-- (stats/), logging (logging/), a container for dependencies (ioc/) and a layer for the tracing
-- crate (tracing/). This library models three parts. The first is the cache's policies, the code under
-- cache/src/policy that decides which keys a shard keeps. A shard calls its policy on every hit
-- (`on_access`), insertion (`on_admit`) and removal (`on_remove`), and asks it for victims when it is
-- over its capacity (`evict`); the trait `CachePolicy` of cache/src/policy/mod.rs is this contract. The
-- second is four cores of the channels: the ring buffer of channels/src/internal, the locked core of
-- the bounded channel that stands on it (channels/src/mpmc_v2/core.rs), the lock-free core of the
-- oneshot channel (channels/src/oneshot/core.rs), and the mailbox of a topic's subscriber
-- (channels/src/spmc/topic/mailbox.rs). The third is the histogram of durations of
-- stats/src/histogram.rs, and the integers of stats/src/value.rs.
--
-- Files:
--   Base              numbers, Boolean tests, lists and options
--   Base/Lists        lengths, indices, `VecDeque::remove`
--   Base/HashMap      the standard library's maps as association lists; Values: `get_mut` and sums
--   Base/Bits, Sublists
--                     masks and powers of two, lists with elements left out
--   Base/Keys         lists of keys without repetition, `retain`, `position`
--   Cache/Recency     recency lists as lists of keys with costs, oldest first, and the interface
--                     `RecencyList` that FIFO, LRU and SLRU take (Entries, Eviction, Plain below)
--   Cache/Arena       the crate generational_arena as a record of operations and laws
--   Cache/LruList     cache/src/policy/lru_list.rs, field by field: nodes, lookup, head, tail, cost.
--                     Its children link the arena to the list of entries (Chain, Cells), follow each
--                     mutation (Link, Move, Takes, Ops), fill the interface (Fill) and run sequences
--                     of calls (Run)
--   Cache/Policy      cache/src/policy/mod.rs: decisions and calls; Contract: what an eviction is
--   Cache/Policy/Fifo, Lru, Clock, Sieve, Slru, S3Fifo, Arc, Random, Null
--                     the file of the same name under cache/src/policy; Hand is what the hands of
--                     CLOCK and SIEVE share; S3Fifo/Queues, Front, Rounds, Evict, Compact, Methods
--                     follow the queue entries through the rounds and the methods, Accounts the running
--                     costs; Arc/Evict follows ARC's loop; Slru/Admit is what W-TinyLFU uses of SLRU
--   Cache/Policy/Sketch
--                     the count-min sketch of cache/src/policy/tinylfu.rs: its rows (Rows),
--                     estimates (Counts) and shape (Shape)
--   Cache/Policy/TinyLfu
--                     the policy of cache/src/policy/tinylfu.rs over it; Contest and Window follow its
--                     window entries into the main segments or out
--   Channels/Ring     channels/src/internal/unsynchronized_ring.rs; Window, Refine and Run link the slots
--                     to a list, for one call and for sequences of calls
--   Channels/Mpmc     channels/src/mpmc_v2/core.rs: the state behind the mutex and the queue (Queue);
--                     Core: the critical sections, alone (Waiters, Single, Batch) and in sequence (Run)
--   Channels/Oneshot  channels/src/oneshot/core.rs, one atomic operation at a time: the claims on the slot
--                     (Claims), the step of a thread (Moves, Others), all threads (System, Safety)
--   Channels/Mailbox  channels/src/spmc/topic/mailbox.rs: sequences of critical sections (Calls), what goes in
--                     and comes out (History), who is woken (Wakes)
--   Channels/Tests    concrete inputs
--   Stats/Histogram   stats/src/histogram.rs: Octaves and Bounds for the buckets, Tally for their list, Records
--                     and Merge for what a histogram has of its values, Counts and
--                     Quantile for the rank of a quantile
--   Stats/Value       the integers of stats/src/value.rs; Convert: when a conversion is defined
--   Stats/Tests       concrete inputs
--   Cache/Tests       concrete inputs, many from the unit tests of the sources
--
-- Numbers. A cost is a `u64`, here a native number; sums of costs wrap at 2^64 (`add64`), and where a
-- theorem needs that they do not, it says so. A subtraction the code writes as `-=` on a cost that it
-- added before stops at 0 or wraps (`sub64`), as written at the place. Stamps of S3-FIFO wrap at 2^32.
--
-- Panics. An index out of range, a missing entry behind an index or an `expect` is `none`.
--
-- Loops. A loop that takes out a key each round has the number of keys as fuel, and one more round to
-- see the end; so has the window of W-TinyLFU. CLOCK's inner loop is bounded in the code, by twice the
-- number of keys. S3-FIFO's rounds lower the number of queue entries, small ones counted twice, plus the
-- frequencies of the keys.
--
-- Parameters. The crate generational_arena (Cache/Arena; Cache/Tests/Slots is an instance), the
-- choice of the crate rand, the hash of the crate ahash, the floating-point shares of the capacity in
-- SLRU and W-TinyLFU, and the floating-point ratio of the ghost costs in ARC.
--
-- Channels. Indices of the ring and the words of the atomics are numbers below 2^64 that wrap
-- (`add64`, `sub64`); a mask of low bits is a remainder. `next_power_of_two` doubles 63 times at most,
-- which is enough up to a capacity of 2^63. A slot that is not initialised is `none`, and reading one is a
-- fault, as is a failed `expect` or `debug_assert`: the whole result is `none`. The bounded channel runs
-- each method under one mutex, so its methods follow one another. The state bytes that the waiters share
-- with it are a map from addresses (`cells`), and the handles that it wakes are a log (`woken`). The
-- threads of the oneshot channel interleave at each atomic operation, a weak compare-exchange may fail
-- for no reason, and each thread runs any operations it likes, except that it drops a sender only while the
-- count of senders is positive. Memory is sequentially consistent.
--
-- Histograms. A value is a number of nanoseconds. The sum saturates at 2^64 - 1 and a bucket at
-- 2^32 - 1; the number of values wraps at 2^64. The product of a quantile and the count, a computation on
-- floating-point numbers, is a parameter.
--
-- Not modelled: the mutex of each policy, taken for the whole of each call, so that calls follow one
-- another; the rest of the cache (store, handles, background tasks, timers); the weaker memory orders,
-- the wakers and the handles of the channels, and the other channels and locks; the rest of the
-- statistics, logging, ioc and tracing.
pub mod Base
pub mod Cache
pub mod Channels
pub mod Stats
