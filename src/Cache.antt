-- ===== src/Cache.antt =====
-- src/cachelab/core/cache.py: the object, and the plumbing that its methods share.
pub mod Access
pub mod Flush
pub mod Flights
pub mod Jobs
pub mod Lifecycle
pub mod Stats
pub mod Init
pub mod Invariant
pub mod Calls
pub mod Clear
pub mod Rounds
pub mod Closing
pub mod Shutdown
pub mod Fresh
pub mod Run
pub mod Stale
pub mod Values
pub mod ReadBack
pub mod Delivery
use cache_system.Prelude.{
  ℕ, zero, suc, ◌+◌, ◌%◌, Bool, true, false, ◌&&◌, ◌||◌, not, Option, none, some, List, [], ◌∷◌,
  length, set, get_elem?, ltb, ◌==◌, if◌then◌else◌,
}
use cache_system.Prelude.Int.{ℤ, pos_part, is_nonpositive}
use cache_system.Exec.{
  Exec, Result, ok, err, Error, runtime_error, validation_error, index_error,
  queue_backpressure_error, pure, raise, lift, gets, modify, raise_if, attempt, ◌>>=◌, ◌>>◌,
}
use cache_system.Dict.{Hashable, Dict}
use cache_system.Clock.{FakeClock}
use cache_system.Stats.{CacheStatsSnapshot}
use cache_system.Jobs.{Ttl, unset, never, seconds, Job, FlushWriteBack, flush_write_back}
use cache_system.Queue
use cache_system.Queue.{JobQueue}
use cache_system.Source.{SlowDict}
use cache_system.Config.{CacheConfig, WriteMode, write_back}
use cache_system.Shard.{Shard, resolve_pending}

-- How a key is sent to a shard: `stable_hash` of concurrency/hashing.py.
pub record StableHash (K : Type 0) : Type 0 where
  pub stable_hash : K → ℕ

pub data LifecycleState : Type 0 where
  created started closing closed : LifecycleState

pub record RuntimeStats : Type 0 where
  pub worker_jobs_completed : ℕ
  pub worker_jobs_failed : ℕ
  pub write_back_retries : ℕ
  pub stale_write_back_jobs_skipped : ℕ
  pub flush_failures : ℕ
  pub shutdown_flush_failures : ℕ

-- concurrency/singleflight.py: `outcome` is there once the event is set.
pub record Flight (V : Type 0) : Type 0 where
  pub outcome : Option (Result V)

pub record Cache (K V : Type 0) : Type 0 where
  pub config : CacheConfig
  pub write_mode : WriteMode
  pub clock : FakeClock
  pub source_backend : SlowDict K V
  pub shards : List (Shard K V)
  pub job_queue : JobQueue K V
  pub runtime : RuntimeStats
  pub last_snapshot : Option CacheStatsSnapshot
  pub state : LifecycleState
  pub warned : Bool
  pub workers_started : Bool
  pub scheduler_started : Bool
  -- every flight that was ever begun, in order
  pub flights : List (Flight V)

abbrev pub is_closed : LifecycleState → Bool
is_closed closing = true
is_closed closed = true
is_closed _ = false

abbrev pub is_started : LifecycleState → Bool
is_started started = true
is_started _ = false

abbrev pub is_write_back : WriteMode → Bool
is_write_back write_back = true
is_write_back _ = false

-- `_validate_explicit_ttl`
unfoldable pub validate_ttl : Ttl → Result (Unit {0})
validate_ttl unset = ok tt
validate_ttl never = ok tt
validate_ttl (seconds z) = if is_nonpositive z then err validation_error else ok tt

module _ {K V : Type 0} where
  abbrev pub now : Cache K V → ℕ
  now c = c.clock.now

  -- A call of the source of truth.
  unfoldable pub with_source : {A : Type 0} → Exec (SlowDict K V) A → Exec (Cache K V) A
  with_source f c = let (r, s) = f c.source_backend in (r, record c { source_backend = s })

  -- What runs under the lock of shard `i`.
  unfoldable pub with_shard : {A : Type 0} → ℕ → (Shard K V → A × Shard K V) → Exec (Cache K V) A
  with_shard i f c = elim (get_elem? c.shards i) [
    | none ↦ (err index_error, c)
    | some s ↦ let (a, t) = f s in (ok a, record c { shards = set c.shards i t })
  ]

  unfoldable pub change_shard : ℕ → (Shard K V → Shard K V) → Exec (Cache K V) (Unit {0})
  unfolding with_shard
  change_shard i f = with_shard i (λ s. (tt, f s))

  -- `_require_not_closed`
  unfoldable pub require_not_closed : Exec (Cache K V) (Unit {0})
  require_not_closed c = raise_if (is_closed c.state) runtime_error c

  -- `_require_workers`
  unfoldable pub require_workers : Exec (Cache K V) (Unit {0})
  require_workers c = raise_if (is_nonpositive c.config.worker_count) runtime_error c

  -- `_maybe_warn_cache_not_started`: whether the warning has been given.
  unfoldable pub warn_not_started : Cache K V → Cache K V
  warn_not_started c =
      if c.warned || is_started c.state
      then c
      else if pos_part c.config.worker_count == 0
      then record c { warned = is_write_back c.write_mode }
      else record c { warned = true }

  -- `_inc_runtime`, of a counter given by its update
  abbrev pub count : (RuntimeStats → RuntimeStats) → Cache K V → Cache K V
  count f c = record c { runtime = f c.runtime }

  -- `_enqueue_job`, of a job that is not critical
  unfoldable pub enqueue_job : Job K V → Exec (Cache K V) Bool
  enqueue_job job c =
      let (taken, q) = Queue.put job c.job_queue in (ok taken, record c { job_queue = q })

  -- `_enqueue_job`, of a critical job
  unfoldable pub enqueue_critical : Job K V → Exec (Cache K V) (Unit {0})
  unfolding enqueue_job
  enqueue_critical job = do taken ← enqueue_job job; raise_if (not taken) queue_backpressure_error

abbrev pub completed : RuntimeStats → RuntimeStats
completed r = record r { worker_jobs_completed = r.worker_jobs_completed + 1 }

abbrev pub failed : RuntimeStats → RuntimeStats
failed r = record r { worker_jobs_failed = r.worker_jobs_failed + 1 }

abbrev pub retried : RuntimeStats → RuntimeStats
retried r = record r { write_back_retries = r.write_back_retries + 1 }

abbrev pub skipped : RuntimeStats → RuntimeStats
skipped r = record r { stale_write_back_jobs_skipped = r.stale_write_back_jobs_skipped + 1 }

abbrev pub flush_failed : RuntimeStats → RuntimeStats
flush_failed r = record r { flush_failures = r.flush_failures + 1 }

abbrev pub shutdown_failed : RuntimeStats → RuntimeStats
shutdown_failed r = record r { shutdown_flush_failures = r.shutdown_flush_failures + 1 }

module _ {K V : Type 0} ⦃h : Hashable K⦄ where
  -- `_resolve_pending_locked` for each of the jobs
  unfoldable pub release_pending : List (FlushWriteBack K V) → Exec (Cache K V) (Unit {0})
  release_pending [] = pure tt
  release_pending (job ∷ jobs) =
      change_shard job.shard_index (resolve_pending job.key) >> release_pending jobs

  abbrev pub after_enqueue :
      Result (Unit {0})
      → Exec (Cache K V) (Unit {0})
      → Exec (Cache K V) (Unit {0})
      → Exec (Cache K V) (Unit {0})
  after_enqueue (ok _) next release = next
  after_enqueue (err e) next release = release >> raise e

  -- `_enqueue_flush_jobs`: a job that is refused releases itself and all that follow.
  unfoldable pub enqueue_flush_jobs : List (FlushWriteBack K V) → Exec (Cache K V) (Unit {0})
  enqueue_flush_jobs [] = pure tt
  enqueue_flush_jobs (job ∷ jobs) = do
    r ← attempt (enqueue_critical (flush_write_back job))
    after_enqueue r (enqueue_flush_jobs jobs) (release_pending (job ∷ jobs))

module _ {K V : Type 0} ⦃s : StableHash K⦄ where
  -- `_shard_for`, as an index
  unfoldable pub shard_for : K → Cache K V → ℕ
  shard_for k c = s.stable_hash k % length c.shards
