-- ===== src/Lib.antt =====
-- A model of cachelab, an in-process cache in Python, and what is proved of it.
--
-- The program. `Cache` (src/cachelab/core/cache.py) divides its keys among shards. A shard has
-- a dictionary of entries, an eviction policy, counters, and for write-back mode a version mark
-- for each key, tombstones of deletions and counts of flushes under way. `put` and `delete` change
-- the shard under its lock and, in write-back mode, put a flush job on a bounded queue, from which
-- workers apply it to the source of truth unless a newer write made it stale. A scheduler puts
-- expiry jobs on the same queue; `get_or_compute` lets one caller load what others wait for;
-- `close` flushes what is dirty and stops the threads.
--
-- The files.
-- - Prelude, Dict: shared names; Python's dictionaries as lists of entries in insertion order
--   (storage/memory.py, and the OrderedDicts of the policies).
-- - Exec: the exceptions (core/exceptions.py), and methods that change an object and may raise.
-- - Clock, Entry, Stats, Jobs, Source, Queue, WriteBack, Config, Hashing: core/clock.py,
--   core/entry.py, core/stats.py, workers/messages.py, storage/slow_dict.py, workers/queue.py,
--   workers/write_back_worker.py, core/config.py, concurrency/hashing.py.
-- - Policy: policies/base.py; Policy/Ordered is lru.py and fifo.py, Policy/Lfu is lfu.py.
--   Policy/Lfu/Spec is an independent description of LFU, one list of keys with their
--   frequencies; Policy/Lfu/Relation relates the buckets of the code to it. Policy/Contract is
--   what the cache relies on, whichever policy it has.
-- - Shard: concurrency/shards.py and the methods `_..._locked` of core/cache.py; Shard/Writes has
--   the parts of `put`, `delete`, `clear` and expiry that run under one lock. The modules beside
--   them are about these: Invariant, Preserves, Settled, Reads (what holds when the lock is free),
--   Eviction and Placement (what a `put` leaves), LeastUsed (LFU), View (what a reader sees),
--   Expiry, Staleness, Capacities.
-- - Cache: core/cache.py. Cache/Access has the operations on keys, Cache/Flush the write-back
--   flush, Cache/Flights `get_or_compute`, Cache/Jobs the jobs and the worker loop
--   (workers/worker_pool.py, workers/scheduler.py), Cache/Lifecycle `start` and `close`,
--   Cache/Stats `stats`, Cache/Init the constructor. Cache/Invariant, Calls, Rounds, Clear,
--   Closing, Shutdown, Fresh, Run and Stale are about these. Cache/Values (Sections, Calls, Writes,
--   Loads, Reads) is about the values that a key may have after a history of calls,
--   Cache/ReadBack (Stored) about a `get` after a `put`, and Cache/Delivery (Tries, Jobs, Lists,
--   Shards) about what the flush of `close` leaves in a shard and in the source of truth.
-- - WriteBack/Steps: `_flush_write_back_job` of core/cache.py in its sections, with `put`,
--   `delete`, `get` and expiry of other threads between them. OneWorker and TwoWorkers say what
--   one worker and what two may leave in the source; the modules beside them (Kind, Follows,
--   Sound, Core, Effects, Cleaning, Synced, Sections) carry the invariant.
-- - SingleFlight: `get_or_compute` of core/cache.py in its sections, for any number of callers of
--   one shard (concurrency/singleflight.py), with clears, deletions and other sections between.
--   Sections, Moves, Reached, Preserves, Leaders and Forgotten are about who leads a flight,
--   Outcomes about what its callers return.
-- - Cli: cli/commands/basic.py, the state file and the loading of a cache from it; Cli/Commands has
--   the commands. The file is a value, what is printed is the command's result, and the printing,
--   which may raise, is a parameter. Cli/Laws is about the saved entries, Cli/Saving about the file.
-- - StateLock: the lock file of storage/serialization.py, which commands take in turn.
-- - Workloads: workloads/patterns.py, the streams of requests of the simulations.
-- - Config/Loading: the normalization of a table in core/config.py, which Config/Loading/Fields is
--   about.
-- - Teaching: teaching/unsafe_cache.py, a cache with no lock; Teaching/Race is about its size.
-- - Tests runs the theorems on small data.
--
-- The model. A method is a function from the state to its result or exception and the state it
-- leaves, so what was written before a raise is kept. A section under the lock of a shard is one
-- such function; the store of all shards is the field `shards`. A history (Cache/Run) is a list
-- of calls, worker rounds and ticks of the clock, which are whole. WriteBack/Steps takes the
-- write-back of one shard apart into its sections, in any order: there a put stores a dirty
-- entry, loads of `get_or_compute` and flushes of `close` are left out, the clock of each section
-- is any time, and a job that was refused was refused for any reason. SingleFlight does the same
-- for `get_or_compute`: a caller has passed its checks, any section of another thread that leaves
-- the registered flights alone may come between, and what follows a put may raise anything. Time
-- is a number of whole ticks. A loader is what it returns or raises. Parameters stand for Python's
-- `str.lower` and `print`, for `repr`, UTF-8 and BLAKE2b, for `json.loads`, for `random.Random`,
-- and for the hash that sends a key to its shard; a key is any type with a decidable equality.
--
-- Loops. The eviction loop has as many rounds as the shard has entries: each round takes one away,
-- so these are enough. The other loops are over lists or counts. What the workers do while
-- `close` waits is a number of rounds that `close` takes as an argument. The wait for the lock on
-- the state file has a try for each tick of its timeout and one more, which is enough since each
-- pause takes at least a tick.
--
-- Not modelled: threads and locks themselves, logging, the reading of a TOML file, the
-- parsing and printing of the command line, the reading and writing of JSON files, the
-- simulations and benchmarks that run the workloads, the other demonstrations of teaching/,
-- and `MonotonicClock`.
pub mod Prelude
pub mod Dict
pub mod Policy
pub mod Exec
pub mod Cli
pub mod SingleFlight
pub mod StateLock
pub mod Teaching
pub mod Workloads
pub mod Clock
pub mod Entry
pub mod Stats
pub mod Jobs
pub mod Source
pub mod Queue
pub mod WriteBack
pub mod Shard
pub mod Config
pub mod Cache
pub mod Hashing
mod Tests
