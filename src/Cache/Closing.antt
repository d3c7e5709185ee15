-- ===== src/Cache/Closing.antt =====
-- Dumps, ticks of the scheduler, and the flushes at shutdown, and the invariant of the cache.
use cache_system.Prelude.{
  ℕ, zero, suc, ◌+◌, Bool, true, false, List, [], ◌∷◌, Option-cases, Bool-cases, inl, inr,
  if◌then◌else◌, ltb, String, Option,
}
use cache_system.Prelude.Int.{ℤ}
use cache_system.Exec.{Exec, Result, ok, err, modify}
use cache_system.Exec.Keeps.{
  Keeps, Keeps-pure, Keeps-gets, Keeps-modify, Keeps-then, Keeps-bind, Keeps-if, Keeps-attempt,
  Keeps-with_state, keeps_rules,
}
use cache_system.Dict.{Hashable, get, values}
use cache_system.Entry.{Entry, is_expired}
use cache_system.Jobs.{FlushWriteBack, flush_write_back}
use cache_system.WriteBack.{apply_write_back}
use cache_system.Shard.{Shard, expire, clear_pending_flushes}
use cache_system.Shard.Settled.{
  IsSettled, remove_entry-IsSettled, register_pending-IsSettled, clear_pending_flushes-IsSettled,
}
use cache_system.Cache.{
  Cache, now, count, with_shard, change_shard, with_source, retried, flush_failed,
}
use cache_system.Cache.Access.{inspect_locked, dump_entries, dump_shards, dump}
use cache_system.Cache.Flush.{
  jobs_of, register_all, enqueue_dirty, enqueue_dirty_shards, after_critical, after_try, try_flush,
  end_flush, flush_sync, flush_sync_all, flush_sync_shards, is_stale, clean_operation,
}
use cache_system.Cache.Jobs.{tick_from, scheduler_tick, request_snapshot}
use cache_system.Cache.Invariant.{
  IsValid, with_shard-Keeps, change_shard-Keeps, with_source-Keeps, require_not_closed-Keeps,
  require_workers-Keeps, enqueue_job-Keeps, enqueue_critical-Keeps, release_pending-Keeps,
}
use cache_system.Cache.Rounds.{count-Keeps, retry_delay-Keeps, clean_operation-IsSettled}

module _ {K V : Type 0} ⦃h : Hashable K⦄ where
  pub inspect_locked-IsSettled :
      (k : K) (t : ℕ) (s : Shard K V) → IsSettled s → IsSettled (inspect_locked k t s).1
  inspect_locked-IsSettled k t s v = elim (Option-cases (get k s.backend)) [
    | inl n ↦ unfold inspect_locked in rw (n, inspect_locked) v
    | inr (e, n) ↦ elim (Bool-cases (is_expired e t)) [
      | inl gone ↦
          unfold inspect_locked in
          rw (n, inspect_locked, gone) (remove_entry-IsSettled s k expire v)
      | inr live ↦ unfold inspect_locked in rw (n, inspect_locked, live) v
    ]
  ]

  pub dump_entries-IsSettled :
      (es : List (Entry K V)) (t : ℕ) (s : Shard K V)
      → IsSettled s
      → IsSettled (dump_entries es t s).1
  unfolding dump_entries
  dump_entries-IsSettled [] t s v = v
  dump_entries-IsSettled (e ∷ es) t s v = elim (Bool-cases (is_expired e t)) [
    | inl gone ↦ rw gone (dump_entries-IsSettled es t _ (remove_entry-IsSettled s e.key expire v))
    | inr live ↦ rw live (dump_entries-IsSettled es t s v)
  ]

  register_all-IsSettled :
      (jobs : List (FlushWriteBack K V)) (s : Shard K V)
      → IsSettled s
      → IsSettled (register_all jobs s)
  unfolding register_all
  register_all-IsSettled [] s v = v
  register_all-IsSettled (job ∷ jobs) s v =
      register_all-IsSettled jobs _ (register_pending-IsSettled s job.key v)

  dump_shards-Keeps : (i n : ℕ) → Keeps IsValid (dump_shards {K = K} {V = V} i n)
  unfolding dump_shards
  dump_shards-Keeps i zero = Keeps-pure []
  dump_shards-Keeps i (suc n) = Keeps-bind _ _ (Keeps-gets now) (λ t.
      Keeps-bind _ _
        (with_shard-Keeps i (λ s. dump_entries (values s.backend) t s)
          (λ s v. dump_entries-IsSettled (values s.backend) t s v))
        (λ snaps. Keeps-bind _ _ (dump_shards-Keeps (i + 1) n) (λ rest. Keeps-pure _)))

  pub dump-Keeps : (limit : Option ℤ) → Keeps IsValid (dump {K = K} {V = V} limit)
  unfolding dump
  dump-Keeps limit = search (keeps_rules, require_not_closed-Keeps, dump_shards-Keeps) depth 12

  -- The jobs of a shard are announced and put on the queue, or released.
  after_critical-Keeps :
      (r : Result (Unit {0})) (next release : Exec (Cache K V) (Unit {0}))
      → Keeps IsValid next
      → Keeps IsValid release
      → Keeps IsValid (after_critical r next release)
  after_critical-Keeps (ok _) next release kn kr = kn
  after_critical-Keeps (err e) next release kn kr = kr

  enqueue_dirty-Keeps : (jobs : List (FlushWriteBack K V)) → Keeps IsValid (enqueue_dirty jobs)
  unfolding enqueue_dirty
  enqueue_dirty-Keeps [] = Keeps-pure tt
  enqueue_dirty-Keeps (job ∷ jobs) =
      Keeps-bind _ _ (Keeps-attempt _ (enqueue_critical-Keeps (flush_write_back job))) (λ r.
        after_critical-Keeps r _ _ (enqueue_dirty-Keeps jobs) (release_pending-Keeps (job ∷ jobs)))

  pub enqueue_dirty_shards-Keeps :
      (i n : ℕ) → Keeps IsValid (enqueue_dirty_shards {K = K} {V = V} i n)
  unfolding enqueue_dirty_shards
  enqueue_dirty_shards-Keeps i zero = Keeps-pure tt
  enqueue_dirty_shards-Keeps i (suc n) = Keeps-with_state _ (λ c.
      Keeps-bind _ _
        (with_shard-Keeps i (λ s. (jobs_of c i s, register_all (jobs_of c i s) s))
          (λ s v. register_all-IsSettled (jobs_of c i s) s v))
        (λ jobs. Keeps-then _ _ (enqueue_dirty-Keeps jobs) (enqueue_dirty_shards-Keeps (i + 1) n)))

  module _ (job : FlushWriteBack K V) where
    cleaned-Keeps :
        Keeps IsValid
          (change_shard job.shard_index (clean_operation job.operation job.key job.version))
    cleaned-Keeps =
        change_shard-Keeps job.shard_index (clean_operation job.operation job.key job.version)
          (clean_operation-IsSettled job.operation job.key job.version)

    cleared-Keeps :
        Keeps IsValid (change_shard {V = V} job.shard_index (clear_pending_flushes job.key))
    cleared-Keeps =
        change_shard-Keeps job.shard_index (clear_pending_flushes job.key)
          (λ s. clear_pending_flushes-IsSettled s job.key)

    checked-Keeps : Keeps IsValid (with_shard job.shard_index (is_stale job))
    checked-Keeps = with_shard-Keeps job.shard_index (is_stale job) (λ s v. v)

    applied-Keeps : Keeps IsValid (with_source (apply_write_back job))
    applied-Keeps = with_source-Keeps (apply_write_back job)

  ruleset sync_rules = (
    keeps_rules, count-Keeps, retry_delay-Keeps, cleaned-Keeps, cleared-Keeps, checked-Keeps,
    applied-Keeps,
  )

  after_try-Keeps :
      (job : FlushWriteBack K V) (n : ℕ) (again : Exec (Cache K V) Bool) (r : Result (Unit {0}))
      → Keeps IsValid again
      → Keeps IsValid (after_try job n again r)
  unfolding after_try
  after_try-Keeps job n again (ok _) k = search sync_rules
  after_try-Keeps job n again (err e) k =
      Keeps-if (ltb 0 n) _ _
        (Keeps-then _ _ (count-Keeps retried) (Keeps-then _ _ retry_delay-Keeps k)) k

  try_flush-Keeps : (job : FlushWriteBack K V) (n : ℕ) → Keeps IsValid (try_flush job n)
  unfolding try_flush
  try_flush-Keeps job zero = Keeps-pure false
  try_flush-Keeps job (suc n) =
      Keeps-bind _ _ (Keeps-attempt _ (applied-Keeps job))
        (λ r. after_try-Keeps job n (try_flush job n) r (try_flush-Keeps job n))

  outcome-Keeps :
      (b : Bool) → Keeps IsValid (modify (if b then (λ (c : Cache K V). c) else count flush_failed))
  outcome-Keeps true = Keeps-modify _ (λ c v. v)
  outcome-Keeps false = count-Keeps flush_failed

  end_flush-Keeps : (job : FlushWriteBack K V) (b : Bool) → Keeps IsValid (end_flush job b)
  end_flush-Keeps job b = search (sync_rules, outcome-Keeps)

  flush_sync-Keeps : (job : FlushWriteBack K V) → Keeps IsValid (flush_sync job)
  unfolding flush_sync
  flush_sync-Keeps job = search (sync_rules, try_flush-Keeps, end_flush-Keeps) depth 12

  flush_sync_all-Keeps : (jobs : List (FlushWriteBack K V)) → Keeps IsValid (flush_sync_all jobs)
  unfolding flush_sync_all
  flush_sync_all-Keeps [] = Keeps-pure false
  flush_sync_all-Keeps (job ∷ jobs) =
      search (keeps_rules, flush_sync-Keeps job, flush_sync_all-Keeps jobs)

  pub flush_sync_shards-Keeps : (i n : ℕ) → Keeps IsValid (flush_sync_shards {K = K} {V = V} i n)
  unfolding flush_sync_shards
  flush_sync_shards-Keeps i zero = Keeps-pure false
  flush_sync_shards-Keeps i (suc n) = Keeps-with_state _ (λ c.
      Keeps-bind _ _ (with_shard-Keeps i (λ s. (jobs_of c i s, s)) (λ s v. v)) (λ jobs.
        search (keeps_rules, flush_sync_all-Keeps jobs, flush_sync_shards-Keeps (i + 1) n)))

  tick_from-Keeps : (i n : ℕ) → Keeps IsValid (tick_from {K = K} {V = V} i n)
  unfolding tick_from
  tick_from-Keeps i zero = Keeps-pure tt
  tick_from-Keeps i (suc n) =
      Keeps-bind _ _ (enqueue_job-Keeps _) (λ taken. tick_from-Keeps (i + 1) n)

  pub scheduler_tick-Keeps : Keeps IsValid (scheduler_tick {K = K} {V = V})
  unfolding scheduler_tick
  scheduler_tick-Keeps = search (keeps_rules, require_not_closed-Keeps, tick_from-Keeps) depth 12

  pub request_snapshot-Keeps : (id : String) → Keeps IsValid (request_snapshot {K = K} {V = V} id)
  unfolding request_snapshot
  request_snapshot-Keeps id =
      search (keeps_rules, require_not_closed-Keeps, require_workers-Keeps, enqueue_job-Keeps)
