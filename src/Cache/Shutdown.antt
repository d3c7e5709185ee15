-- ===== src/Cache/Shutdown.antt =====
-- `start`, `close` and the remaining calls, and the invariant of the cache.
use cache_system.Prelude.{
  ℕ, zero, suc, ◌≡◌, Bool, true, false, All, arith, Bool-cases, inl, inr, if◌then◌else◌, ltb, ◌&&◌,
  subst, sym,
}
use cache_system.Exec.{Result, modify}
use cache_system.Exec.Keeps.{Keeps, Keeps-modify, Keeps-with_state, keeps_rules}
use cache_system.Dict.{Hashable}
use cache_system.Jobs.{Ttl, stop_worker}
use cache_system.Queue.Laws
use cache_system.Shard.Settled.{IsSettled}
use cache_system.Cache.{
  Cache, StableHash, LifecycleState, created, started, closing, closed, count, shutdown_failed,
}
use cache_system.Cache.Access.{inspect_locked, inspect}
use cache_system.Cache.Jobs.{preload, work, work_rounds}
use cache_system.Cache.Lifecycle.{
  workers, set_state, stop_scheduler, unless_closed, start_threads, start, offer_stops, drain_queue,
  stop_workers, join_queue, flush_at_close, close_open, close,
}
use cache_system.Cache.Invariant.{
  IsValid, with_shard-Keeps, require_not_closed-Keeps, require_workers-Keeps, enqueue_job-Keeps,
}
use cache_system.Cache.Closing.{
  inspect_locked-IsSettled, enqueue_dirty_shards-Keeps, flush_sync_shards-Keeps,
}
use cache_system.Cache.Calls.{warn_not_started-Keeps}
use cache_system.Cache.Rounds.{count-Keeps, work-IsValid}

module _ {K V : Type 0} ⦃h : Hashable K⦄ where
  -- What leaves the shards and the queue alone.
  untouched :
      (f : Cache K V → Cache K V)
      → ((c : Cache K V) → (f c).shards ≡ c.shards)
      → ((c : Cache K V) → (f c).job_queue ≡ c.job_queue)
      → (c : Cache K V) → IsValid c
      → IsValid (f c)
  untouched f s q c v = record {
    shards = subst (All IsSettled) (sym (s c)) v.shards;
    queue = subst Laws.IsValid (sym (q c)) v.queue;
  }

  pub start-IsValid : (c : Cache K V) → IsValid c → IsValid (start c).1
  start-IsValid =
      untouched (λ c. (start c).1) (λ c. unfold start start_threads in ground arith)
        (λ c. unfold start start_threads in ground arith)

  offer_stops-IsValid : (n : ℕ) (c : Cache K V) → IsValid c → IsValid (offer_stops n c)
  unfolding offer_stops
  offer_stops-IsValid zero c v = v
  offer_stops-IsValid (suc n) c v = offer_stops-IsValid n _ (record {
    shards = v.shards;
    queue = Laws.offer-IsValid (stop_worker "shutdown") c.job_queue v.queue;
  })

  drain_queue-IsValid : (c : Cache K V) → IsValid c → IsValid (drain_queue c)
  unfolding drain_queue
  drain_queue-IsValid c v = record {
    shards = v.shards;
    queue = Laws.drain-IsValid c.job_queue v.queue;
  }

  if-IsValid : (b : Bool) (c d : Cache K V) → IsValid c → IsValid d → IsValid (if b then c else d)
  if-IsValid true c d v w = v
  if-IsValid false c d v w = w

  module _ ⦃stable : StableHash K⦄ where
    pub inspect-Keeps : (k : K) → Keeps IsValid (inspect {V = V} k)
    unfolding inspect
    inspect-Keeps k =
        search
          (
            keeps_rules,
            require_not_closed-Keeps,
            λ (i t : ℕ).
                with_shard-Keeps {V = V} i (inspect_locked k t) (inspect_locked-IsSettled k t),
          )
          depth 12

    pub preload-Keeps :
        (k : K) (loader : Result V) (ttl : Ttl) → Keeps IsValid (preload k loader ttl)
    unfolding preload
    preload-Keeps k loader ttl =
        search
          (
            keeps_rules, require_not_closed-Keeps, require_workers-Keeps, warn_not_started-Keeps,
            enqueue_job-Keeps,
          )
          depth 14

    work_rounds-IsValid : (n : ℕ) (c : Cache K V) → IsValid c → IsValid (work_rounds n c)
    unfolding work_rounds
    work_rounds-IsValid zero c v = v
    work_rounds-IsValid (suc n) c v = work_rounds-IsValid n (work c) (work-IsValid c v)

    stop_workers-IsValid : (n : ℕ) (c : Cache K V) → IsValid c → IsValid (stop_workers n c)
    unfolding stop_workers
    stop_workers-IsValid n c v = drain_queue-IsValid _ (if-IsValid c.workers_started _ c stopped v)
      where
        d : Cache K V
        d = work_rounds n (offer_stops (workers c) c)

        w : IsValid d
        w = work_rounds-IsValid n _ (offer_stops-IsValid (workers c) c v)

        stopped : IsValid (record d { workers_started = false })
        stopped = record { shards = w.shards; queue = w.queue }

    join_queue-Keeps : (n : ℕ) → Keeps IsValid (join_queue {K = K} {V = V} n)
    join_queue-Keeps n = record { at = λ c v. go c v }
      where
        go : (c : Cache K V) → IsValid c → IsValid (join_queue n c).1
        go c v = elim (Bool-cases (c.workers_started && ltb 0 (workers c))) [
          | inl busy ↦ unfold join_queue in rw (busy, join_queue) (work_rounds-IsValid n c v)
          | inr idle ↦ unfold join_queue in rw (idle, join_queue) v
        ]

    failed-Keeps :
        (b : Bool)
        → Keeps IsValid (modify (if b then count shutdown_failed else (λ (c : Cache K V). c)))
    failed-Keeps true = count-Keeps shutdown_failed
    failed-Keeps false = Keeps-modify _ (λ c v. v)

    flush_at_close-Keeps : (n : ℕ) → Keeps IsValid (flush_at_close {K = K} {V = V} n)
    unfolding flush_at_close
    flush_at_close-Keeps n =
        search
          (
            keeps_rules, enqueue_dirty_shards-Keeps, join_queue-Keeps, flush_sync_shards-Keeps,
            failed-Keeps,
          )
          depth 16

    stopped-Keeps : (n : ℕ) → Keeps IsValid (modify (stop_workers {K = K} {V = V} n))
    stopped-Keeps n = Keeps-modify _ (stop_workers-IsValid n)

    state-Keeps : (x : LifecycleState) → Keeps IsValid (modify (set_state {K = K} {V = V} x))
    state-Keeps x = Keeps-modify _ (λ c v. record { shards = v.shards; queue = v.queue })

    scheduler-Keeps : Keeps IsValid (modify (stop_scheduler {K = K} {V = V}))
    scheduler-Keeps = Keeps-modify _ (λ c v. record { shards = v.shards; queue = v.queue })

    -- What `close` does to a cache that is not closed yet.
    closing-Keeps : (flush : Bool) (m n : ℕ) → Keeps IsValid (close_open {K = K} {V = V} flush m n)
    unfolding close_open
    closing-Keeps flush m n = Keeps-with_state _ (λ c.
        search (keeps_rules, flush_at_close-Keeps, stopped-Keeps, state-Keeps, scheduler-Keeps)
          depth 20)

    pub close-IsValid :
        (flush : Bool) (m n : ℕ) (c : Cache K V) → IsValid c → IsValid (close flush m n c).1
    unfolding close
    close-IsValid flush m n c v = go c.state ((closing-Keeps flush m n).at c v)
      where
        go :
            (x : LifecycleState)
            → IsValid (close_open flush m n c).1
            → IsValid (unless_closed x (close_open flush m n) c).1
        go closed w = v
        go created w = w
        go started w = w
        go closing w = w
