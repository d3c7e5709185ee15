-- ===== src/Cache/Jobs.antt =====
-- The jobs: who puts them on the queue (`preload`, `request_snapshot`, the scheduler) and what a
-- worker does with them (`_handle_job`, and the loop of workers/worker_pool.py).
use cache_system.Prelude.{
  ℕ, zero, suc, ◌+◌, Bool, String, Option, none, some, length, if◌then◌else◌,
}
use cache_system.Exec.{Exec, Result, ok, err, pure, lift, gets, modify, ◌>>=◌, ◌>>◌}
use cache_system.Dict.{Hashable}
use cache_system.Jobs.{
  Ttl, Job, expire_shard, flush_write_back, preload_key, snapshot_stats, stop_worker,
}
use cache_system.Queue
use cache_system.Stats.{CacheStatsSnapshot}
use cache_system.Cache.{
  Cache, StableHash, count, completed, failed, validate_ttl, require_not_closed, require_workers,
  warn_not_started, enqueue_job, shard_for,
}
use cache_system.Cache.Access.{expire_one, put_value}
use cache_system.Cache.Stats.{stats}
use cache_system.Cache.Flush.{flush_write_back_job}

module _ {K V : Type 0} where
  unfoldable pub request_snapshot : String → Exec (Cache K V) Bool
  request_snapshot request_id = do
    require_not_closed
    require_workers
    enqueue_job (snapshot_stats request_id)

  unfoldable pub last_snapshot : Cache K V → Option CacheStatsSnapshot
  last_snapshot c = c.last_snapshot

  -- The loop of `tick_once`; a job that the full queue refuses is dropped.
  unfoldable pub tick_from : ℕ → ℕ → Exec (Cache K V) (Unit {0})
  tick_from i zero = pure tt
  tick_from i (suc n) = do taken ← enqueue_job (expire_shard i); tick_from (i + 1) n

  unfoldable pub scheduler_tick : Exec (Cache K V) (Unit {0})
  scheduler_tick = do require_not_closed; n ← gets (λ c. length c.shards); tick_from 0 n

  -- What `finally: task_done()` and the handler of a raised exception do to the cache.
  unfoldable pub end_job : Result (Unit {0}) → Cache K V → Cache K V
  end_job (ok _) c = record c { job_queue = (Queue.task_done c.job_queue).1 }
  end_job (err e) c = record c {
    job_queue = (Queue.task_done c.job_queue).1;
    runtime = failed c.runtime;
  }

module _ {K V : Type 0} ⦃h : Hashable K⦄ ⦃stable : StableHash K⦄ where
  unfoldable pub preload : K → Result V → Ttl → Exec (Cache K V) Bool
  preload k loader ttl = do
    require_not_closed
    lift (validate_ttl ttl)
    require_workers
    modify warn_not_started
    i ← gets (shard_for k)
    enqueue_job (preload_key i k loader ttl)

  -- `_handle_job`
  unfoldable pub handle_job : Job K V → Exec (Cache K V) (Unit {0})
  handle_job (expire_shard i) = do expired ← expire_one i; modify (count completed)
  handle_job (flush_write_back job) = do
    done ← flush_write_back_job job
    modify (count (if done then completed else failed))
  handle_job (preload_key i k loader ttl) = do
    v ← lift loader
    put_value k v ttl
    modify (count completed)
  handle_job (snapshot_stats request_id) = do
    snapshot ← gets stats
    modify (λ c. record c { last_snapshot = some snapshot })
    modify (count completed)
  handle_job (stop_worker reason) = modify (count failed)

  -- The worker's own test for the sentinel comes before the handler.
  unfoldable pub run_job : Job K V → Cache K V → Cache K V
  run_job (stop_worker reason) c = end_job (ok tt) c
  run_job job c = let (r, d) = handle_job job c in end_job r d

  abbrev pub run_next : Option (Job K V) → Cache K V → Cache K V
  run_next none c = c
  run_next (some job) c = run_job job c

  -- One round of a worker: the first job of the queue, if there is one.
  unfoldable pub work : Cache K V → Cache K V
  work c = let (next, q) = Queue.get c.job_queue in run_next next (record c { job_queue = q })

  unfoldable pub work_rounds : ℕ → Cache K V → Cache K V
  work_rounds zero c = c
  work_rounds (suc n) c = work_rounds n (work c)
