-- ===== src/Cache/Rounds.antt =====
-- The jobs of the workers, and `get_or_compute`, and the invariant of the cache.
use cache_system.Prelude.{
  ℕ, ◌≡◌, refl, false, ◌==◌, Option, Option-cases, Bool-cases, inl, inr, none, some, arith, subst,
  sym,
}
use cache_system.Exec.{Result, ok, err, queue_backpressure_error, modify}
use cache_system.Exec.Keeps.{Keeps, Keeps-modify, Keeps-then, keeps_rules}
use cache_system.Dict.{Hashable, get}
use cache_system.Jobs.{
  Ttl, Job, expire_shard, flush_write_back, preload_key, snapshot_stats, stop_worker,
  FlushWriteBack, Operation, write, delete, unknown,
}
use cache_system.Queue
use cache_system.Queue.Laws
use cache_system.Stats.{CacheStatsSnapshot}
use cache_system.WriteBack.{apply_write_back}
use cache_system.Shard.{Shard, resolve_pending}
use cache_system.Shard.Settled.{IsSettled, resolve_pending-IsSettled}
use cache_system.Shard.Reads.{singleflight-IsSettled, update-IsSettled}
use cache_system.Cache.{
  Cache, StableHash, RuntimeStats, count, with_shard, change_shard, with_source,
}
use cache_system.Cache.Flush.{
  retry_delay, mark_clean, clean_operation, is_stale, after_retry, after_apply,
  flush_write_back_job,
}
use cache_system.Cache.Flights.{
  Entered, hit, leads, waits, join_flight, open_flight, enter, publish, await_flight, after_put,
  lead, go_on, get_or_compute,
}
use cache_system.Cache.Jobs.{end_job, handle_job, run_job, run_next, work}
use cache_system.Cache.Invariant.{
  IsValid, with_shard-Keeps, change_shard-Keeps, with_source-Keeps, require_not_closed-Keeps,
  enqueue_critical-Keeps,
}
use cache_system.Cache.Calls.{read_value-Keeps, put_value-Keeps, expire_one-Keeps}

module _ {K V : Type 0} ⦃h : Hashable K⦄ where
  -- What changes neither the shards nor the queue.
  pub count-Keeps :
      (f : RuntimeStats → RuntimeStats) → Keeps IsValid (modify (count {K = K} {V = V} f))
  count-Keeps f = Keeps-modify _ (λ c v. record { shards = v.shards; queue = v.queue })

  pub retry_delay-Keeps : Keeps IsValid (modify (retry_delay {K = K} {V = V}))
  retry_delay-Keeps = Keeps-modify _ (λ c v. record { shards = v.shards; queue = v.queue })

  mark_clean-IsSettled :
      (k : K) (version : ℕ) (s : Shard K V) → IsSettled s → IsSettled (mark_clean k version s)
  unfolding mark_clean
  mark_clean-IsSettled k version s v = elim (Option-cases (get k s.backend)) [
    | inl n ↦ rw (n, mark_clean) v
    | inr (e, n) ↦ elim (Bool-cases (e.version == version)) [
      | inl same ↦
          rw (n, mark_clean, same)
            (update-IsSettled s k e (record e { dirty = false }) n refl refl v)
      | inr other ↦ rw (n, mark_clean, other) v
    ]
  ]

  pub clean_operation-IsSettled :
      (o : Operation V) (k : K) (version : ℕ) (s : Shard K V)
      → IsSettled s
      → IsSettled (clean_operation o k version s)
  clean_operation-IsSettled (write x) k version s v = mark_clean-IsSettled k version s v
  clean_operation-IsSettled delete k version s v = v
  clean_operation-IsSettled (unknown x) k version s v = v

  module _ (job : FlushWriteBack K V) where
    resolve-Keeps : Keeps IsValid (change_shard {V = V} job.shard_index (resolve_pending job.key))
    resolve-Keeps =
        change_shard-Keeps job.shard_index (resolve_pending job.key)
          (λ s. resolve_pending-IsSettled s job.key)

    ended-Keeps : Keeps IsValid (
        change_shard job.shard_index
          (λ s. resolve_pending job.key (clean_operation job.operation job.key job.version s)))
    ended-Keeps =
        change_shard-Keeps job.shard_index
          (λ s. resolve_pending job.key (clean_operation job.operation job.key job.version s))
          (λ s v.
            resolve_pending-IsSettled _ job.key
              (clean_operation-IsSettled job.operation job.key job.version s v))

    stale-Keeps : Keeps IsValid (with_shard job.shard_index (is_stale job))
    stale-Keeps = with_shard-Keeps job.shard_index (is_stale job) (λ s v. v)

    apply-Keeps : Keeps IsValid (with_source (apply_write_back job))
    apply-Keeps = with_source-Keeps (apply_write_back job)

  ruleset flush_rules = (
    keeps_rules, count-Keeps, retry_delay-Keeps, resolve-Keeps, ended-Keeps, stale-Keeps,
    apply-Keeps, enqueue_critical-Keeps,
  )

  after_retry-Keeps :
      (job : FlushWriteBack K V) (r : Result (Unit {0})) → Keeps IsValid (after_retry job r)
  unfolding after_retry
  after_retry-Keeps job (ok _) = search flush_rules
  after_retry-Keeps job (err e) = search flush_rules

  after_apply-Keeps :
      (job : FlushWriteBack K V) (r : Result (Unit {0})) → Keeps IsValid (after_apply job r)
  unfolding after_apply
  after_apply-Keeps job (ok _) = search flush_rules
  after_apply-Keeps job (err e) = search (flush_rules, after_retry-Keeps) depth 12

  -- A flush job of a worker.
  pub flush_write_back_job-Keeps :
      (job : FlushWriteBack K V) → Keeps IsValid (flush_write_back_job job)
  unfolding flush_write_back_job
  flush_write_back_job-Keeps job = search (flush_rules, after_apply-Keeps) depth 12

  pub join_flight-IsSettled :
      (k : K) (fresh : ℕ) (found : Option V) (s : Shard K V)
      → IsSettled s
      → IsSettled (join_flight k fresh found s).1
  unfolding join_flight
  join_flight-IsSettled k fresh (some x) s v = v
  join_flight-IsSettled k fresh none s v = elim (Option-cases (get k s.singleflight)) [
    | inl n ↦ rw (n, join_flight) (singleflight-IsSettled s _ v)
    | inr (id, n) ↦ rw (n, join_flight) v
  ]

  join_flight-Keeps :
      (i : ℕ) (k : K) (fresh : ℕ) (found : Option V)
      → Keeps IsValid (with_shard i (join_flight k fresh found))
  join_flight-Keeps i k fresh found =
      with_shard-Keeps i (join_flight k fresh found) (join_flight-IsSettled k fresh found)

  open_flight-Keeps : (e : Entered V) → Keeps IsValid (modify (open_flight {K = K} e))
  unfolding open_flight
  open_flight-Keeps (leads id) =
      Keeps-modify _ (λ c v. record { shards = v.shards; queue = v.queue })
  open_flight-Keeps _ = Keeps-modify _ (λ c v. v)

  enter-Keeps : (k : K) (i : ℕ) → Keeps IsValid (enter {V = V} k i)
  unfolding enter
  enter-Keeps k i =
      search (keeps_rules, read_value-Keeps, join_flight-Keeps, open_flight-Keeps) depth 12

  publish-Keeps : (k : K) (i id : ℕ) (r : Result V) → Keeps IsValid (publish k i id r)
  unfolding publish
  publish-Keeps k i id r =
      Keeps-then _ _ (Keeps-modify _ (λ c v. record { shards = v.shards; queue = v.queue }))
        (change_shard-Keeps i _ (λ s. singleflight-IsSettled s _))

  await_flight-Keeps : (id : ℕ) → Keeps IsValid (await_flight {K = K} {V = V} id)
  await_flight-Keeps id = record { at = λ c v. subst IsValid (sym (same c)) v }
    where
      same : (c : Cache K V) → (await_flight id c).1 ≡ c
      same c = unfold await_flight in ground arith

  after_put-Keeps :
      (k : K) (i id : ℕ) (x : V) (r : Result (Unit {0})) → Keeps IsValid (after_put k i id x r)
  unfolding after_put
  after_put-Keeps k i id x (ok _) = search (keeps_rules, publish-Keeps)
  after_put-Keeps k i id x (err queue_backpressure_error) = search (keeps_rules, publish-Keeps)
  after_put-Keeps k i id x (err _) = search (keeps_rules, publish-Keeps)

  end_job-IsValid : (r : Result (Unit {0})) (c : Cache K V) → IsValid c → IsValid (end_job r c)
  unfolding end_job
  end_job-IsValid (ok _) c v = record {
    shards = v.shards;
    queue = Laws.task_done-IsValid c.job_queue v.queue;
  }
  end_job-IsValid (err e) c v = record {
    shards = v.shards;
    queue = Laws.task_done-IsValid c.job_queue v.queue;
  }

  snapshot-Keeps :
      (s : CacheStatsSnapshot)
      → Keeps IsValid (modify (λ (c : Cache K V). record c { last_snapshot = some s }))
  snapshot-Keeps s = Keeps-modify _ (λ c v. record { shards = v.shards; queue = v.queue })

  module _ ⦃stable : StableHash K⦄ where
    lead-Keeps :
        (k : K) (loader : Result V) (ttl : Ttl) (i id : ℕ) → Keeps IsValid (lead k loader ttl i id)
    unfolding lead
    lead-Keeps k (err e) ttl i id = search (keeps_rules, publish-Keeps)
    lead-Keeps k (ok x) ttl i id = search (keeps_rules, put_value-Keeps, after_put-Keeps)

    go_on-Keeps :
        (k : K) (loader : Result V) (ttl : Ttl) (i : ℕ) (e : Entered V)
        → Keeps IsValid (go_on k loader ttl i e)
    unfolding go_on
    go_on-Keeps k loader ttl i (hit x) = search keeps_rules
    go_on-Keeps k loader ttl i (leads id) = lead-Keeps k loader ttl i id
    go_on-Keeps k loader ttl i (waits id) = await_flight-Keeps id

    pub get_or_compute-Keeps :
        (k : K) (loader : Result V) (ttl : Ttl) → Keeps IsValid (get_or_compute k loader ttl)
    unfolding get_or_compute
    get_or_compute-Keeps k loader ttl =
        search (keeps_rules, require_not_closed-Keeps, enter-Keeps, go_on-Keeps) depth 12

    -- A preload may raise what its loader raises.
    handle_job-Keeps : (job : Job K V) → Keeps IsValid (handle_job job)
    unfolding handle_job
    handle_job-Keeps (expire_shard i) = search (keeps_rules, expire_one-Keeps, count-Keeps)
    handle_job-Keeps (flush_write_back job) =
        search (keeps_rules, flush_write_back_job-Keeps, count-Keeps)
    handle_job-Keeps (preload_key i k loader ttl) =
        search (keeps_rules, put_value-Keeps, count-Keeps) depth 12
    handle_job-Keeps (snapshot_stats request_id) =
        search (keeps_rules, snapshot-Keeps, count-Keeps) depth 12
    handle_job-Keeps (stop_worker reason) = count-Keeps _

    run_job-IsValid : (job : Job K V) (c : Cache K V) → IsValid c → IsValid (run_job job c)
    unfolding run_job
    run_job-IsValid (stop_worker reason) c v = end_job-IsValid (ok tt) c v
    run_job-IsValid job c v =
        end_job-IsValid (handle_job job c).0 (handle_job job c).1 ((handle_job-Keeps job).at c v)

    -- A round of a worker, whether its job raises or not.
    pub work-IsValid : (c : Cache K V) → IsValid c → IsValid (work c)
    unfolding work
    work-IsValid c v =
        next (Queue.get c.job_queue).0 (record c { job_queue = (Queue.get c.job_queue).1 })
          (record { shards = v.shards; queue = Laws.get-IsValid c.job_queue v.queue })
      where
        next : (o : Option (Job K V)) (d : Cache K V) → IsValid d → IsValid (run_next o d)
        next none d v = v
        next (some job) d v = run_job-IsValid job d v
