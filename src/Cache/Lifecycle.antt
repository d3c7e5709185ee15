-- ===== src/Cache/Lifecycle.antt =====
-- `start` and `close`, with what the worker pool does in them. While `close` waits, the workers
-- run; how many jobs they take in each of its two waits is an argument.
use cache_system.Prelude.{
  ℕ, zero, suc, Bool, false, ◌&&◌, ◌||◌, not, length, ltb, ◌==◌, sum, map, if◌then◌else◌,
}
use cache_system.Prelude.Int.{pos_part, is_nonpositive}
use cache_system.Exec.{
  Exec, ok, err, runtime_error, shutdown_flush_error, pure, raise_if, gets, modify, with_state,
  ◌>>=◌, ◌>>◌,
}
use cache_system.Dict.{Hashable, values}
use cache_system.Jobs.{stop_worker}
use cache_system.Queue
use cache_system.Cache.{
  Cache, StableHash, LifecycleState, created, started, closing, closed, is_write_back, count,
  shutdown_failed,
}
use cache_system.Cache.Flush.{enqueue_dirty_shards, flush_sync_shards, count_dirty}
use cache_system.Cache.Jobs.{work_rounds}

module _ {K V : Type 0} where
  abbrev pub workers : Cache K V → ℕ
  workers c = pos_part c.config.worker_count

  -- `WorkerPool.start` and `ExpirationScheduler.start`
  unfoldable pub start_threads : Cache K V → Cache K V
  start_threads c = record c {
    workers_started = c.workers_started || ltb 0 (workers c);
    scheduler_started =
        c.scheduler_started
        || c.config.active_expiration
          && ltb 0 (workers c)
          && not (is_nonpositive c.config.scheduler_interval);
    warned = c.warned || is_write_back c.write_mode && workers c == 0;
    state = started;
  }

  unfoldable pub start : Exec (Cache K V) (Unit {0})
  start c = elim c.state [
    | started ↦ (ok tt, c)
    | closed ↦ (err runtime_error, c)
    | closing ↦ (err runtime_error, c)
    | created ↦ (ok tt, start_threads c)
  ]

  abbrev pub set_state : LifecycleState → Cache K V → Cache K V
  set_state state c = record c { state = state }

  -- `scheduler.stop`: the thread is joined.
  abbrev pub stop_scheduler : Cache K V → Cache K V
  stop_scheduler c = record c { scheduler_started = false }

  unfoldable pub offer_stops : ℕ → Cache K V → Cache K V
  offer_stops zero c = c
  offer_stops (suc n) c =
      offer_stops n (record c { job_queue = (Queue.offer (stop_worker "shutdown") c.job_queue).1 })

  unfoldable pub drain_queue : Cache K V → Cache K V
  drain_queue c = record c { job_queue = (Queue.drain c.job_queue).1 }

  -- `_count_dirty_entries`
  unfoldable pub count_dirty_entries : Cache K V → ℕ
  count_dirty_entries c = sum (map (λ s. count_dirty (values s.backend)) c.shards)

  abbrev pub unless_closed :
      LifecycleState → Exec (Cache K V) (Unit {0}) → Exec (Cache K V) (Unit {0})
  unless_closed closed m c = (ok tt, c)
  unless_closed _ m c = m c

module _ {K V : Type 0} ⦃h : Hashable K⦄ ⦃stable : StableHash K⦄ where
  -- `WorkerPool.stop`, whose workers take `rounds` more jobs before they end.
  unfoldable pub stop_workers : ℕ → Cache K V → Cache K V
  stop_workers rounds c = drain_queue (
      if c.workers_started
      then record (work_rounds rounds (offer_stops (workers c) c)) { workers_started = false }
      else c)

  -- The wait for the queue: whether jobs are left when it ends.
  unfoldable pub join_queue : ℕ → Exec (Cache K V) Bool
  join_queue rounds c =
      if c.workers_started && ltb 0 (workers c)
      then (let d : Cache K V = work_rounds rounds c in
          (ok (not (Queue.join_until d.job_queue)), d))
      else (ok false, c)

  -- The flush at shutdown: whether it failed.
  unfoldable pub flush_at_close : ℕ → Exec (Cache K V) Bool
  flush_at_close rounds = do
    n ← gets (λ c. length c.shards)
    enqueue_dirty_shards 0 n
    unfinished ← join_queue rounds
    sync_failed ← flush_sync_shards 0 n
    modify (if sync_failed || unfinished then count shutdown_failed else (λ c. c))
    pure (sync_failed || unfinished)

  -- `close(flush=flush)` of a cache that is not closed
  unfoldable pub close_open : Bool → ℕ → ℕ → Exec (Cache K V) (Unit {0})
  close_open flush rounds more = with_state λ c. do
    modify (set_state closing)
    modify stop_scheduler
    flush_failed ←
        (if flush && is_write_back c.write_mode then flush_at_close rounds else pure false)
    modify (stop_workers more)
    modify (set_state closed)
    raise_if flush_failed shutdown_flush_error

  -- `close(flush=flush)`
  unfoldable pub close : Bool → ℕ → ℕ → Exec (Cache K V) (Unit {0})
  unfolding close_open
  close flush rounds more c = unless_closed c.state (close_open flush rounds more) c
