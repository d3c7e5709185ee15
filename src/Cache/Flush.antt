-- ===== src/Cache/Flush.antt =====
-- Write-back: a flush job of a worker, and the synchronous flush at shutdown.
use cache_system.Prelude.{
  ℕ, zero, suc, ◌+◌, ◌-◌, Bool, true, false, ◌||◌, not, none, some, List, [], ◌∷◌, ◌++◌, map, ltb,
  ◌==◌, if◌then◌else◌,
}
use cache_system.Exec.{Exec, Result, ok, err, pure, modify, attempt, with_state, ◌>>=◌, ◌>>◌}
use cache_system.Dict.{Hashable, Dict, get, put, values}
use cache_system.Clock.{sleep}
use cache_system.Entry.{Entry}
use cache_system.Jobs.{FlushWriteBack, flush_write_back, Operation, write, delete}
use cache_system.WriteBack.{is_stale_write_back, apply_write_back}
use cache_system.Shard.{Shard, register_pending, resolve_pending, clear_pending_flushes}
use cache_system.Cache.{
  Cache, count, retried, skipped, flush_failed, with_shard, change_shard, with_source,
  enqueue_critical, release_pending,
}
use cache_system.Cache.Access.{flush_job}

module _ {K V : Type 0} where
  -- `clock.sleep(write_back_retry_delay)`
  abbrev pub retry_delay : Cache K V → Cache K V
  retry_delay c = record c { clock = sleep c.config.write_back_retry_delay c.clock }

  unfoldable pub retry_of : FlushWriteBack K V → FlushWriteBack K V
  retry_of job = record job { retries_left = job.retries_left - 1; attempt = job.attempt + 1 }

module _ {K V : Type 0} ⦃h : Hashable K⦄ where
  -- An entry that still has the version that was written is no longer dirty.
  unfoldable pub mark_clean : K → ℕ → Shard K V → Shard K V
  mark_clean k version s = elim (get k s.backend) [
    | none ↦ s
    | some e ↦
        if e.version == version
        then record s { backend = put k (record e { dirty = false }) s.backend }
        else s
  ]

  abbrev pub clean_operation : Operation V → K → ℕ → Shard K V → Shard K V
  clean_operation (write v) k version s = mark_clean k version s
  clean_operation _ k version s = s

  abbrev pub is_stale : FlushWriteBack K V → Shard K V → Bool × Shard K V
  is_stale job s = (is_stale_write_back s.version_marks s.tombstones job, s)

  abbrev pub resolve : FlushWriteBack K V → Exec (Cache K V) (Unit {0})
  resolve job = change_shard job.shard_index (resolve_pending job.key)

  -- A retry that the queue refuses counts as a failed flush.
  unfoldable pub after_retry : FlushWriteBack K V → Result (Unit {0}) → Exec (Cache K V) Bool
  after_retry job (ok _) = pure true
  after_retry job (err e) = modify (count flush_failed) >> (resolve job >> pure false)

  -- What follows the call of the source.
  unfoldable pub after_apply : FlushWriteBack K V → Result (Unit {0}) → Exec (Cache K V) Bool
  after_apply job (ok _) =
      change_shard job.shard_index
        (λ s. resolve_pending job.key (clean_operation job.operation job.key job.version s))
      >> pure true
  after_apply job (err e) =
      let retry : Exec (Cache K V) Bool = (do
        modify (count retried)
        modify retry_delay
        r ← attempt (enqueue_critical (flush_write_back (retry_of job)))
        after_retry job r) in
      let give_up : Exec (Cache K V) Bool = (do
        modify (count flush_failed)
        resolve job
        pure false) in
      if ltb 0 job.retries_left then retry else give_up

  -- `_flush_write_back_job`
  unfoldable pub flush_write_back_job : FlushWriteBack K V → Exec (Cache K V) Bool
  flush_write_back_job job = do
    stale ← with_shard job.shard_index (is_stale job)
    if stale
        then (do modify (count skipped); resolve job; pure true)
        else (do r ← attempt (with_source (apply_write_back job)); after_apply job r)

  -- `_enqueue_dirty_write_back_jobs` and `_flush_dirty_entries_sync`: the jobs of a shard.
  unfoldable pub dirty_jobs : Cache K V → ℕ → List (Entry K V) → List (FlushWriteBack K V)
  dirty_jobs c i [] = []
  dirty_jobs c i (e ∷ es) =
      let rest = dirty_jobs c i es in
      if e.dirty then flush_job c i e.key (write e.value) e.version ∷ rest else rest

  unfoldable pub tombstone_jobs : Cache K V → ℕ → Dict K ℕ → List (FlushWriteBack K V)
  tombstone_jobs c i d = map (λ t. flush_job c i t.0 delete t.1) d

  unfoldable pub jobs_of : Cache K V → ℕ → Shard K V → List (FlushWriteBack K V)
  jobs_of c i s = dirty_jobs c i (values s.backend) ++ tombstone_jobs c i s.tombstones

  unfoldable pub register_all : List (FlushWriteBack K V) → Shard K V → Shard K V
  register_all [] s = s
  register_all (job ∷ jobs) s = register_all jobs (register_pending job.key s)

  abbrev pub after_critical :
      Result (Unit {0})
      → Exec (Cache K V) (Unit {0})
      → Exec (Cache K V) (Unit {0})
      → Exec (Cache K V) (Unit {0})
  after_critical (ok _) next release = next
  after_critical (err e) next release = release

  -- A full queue ends the loop and releases what was not enqueued.
  unfoldable pub enqueue_dirty : List (FlushWriteBack K V) → Exec (Cache K V) (Unit {0})
  enqueue_dirty [] = pure tt
  enqueue_dirty (job ∷ jobs) = do
    r ← attempt (enqueue_critical (flush_write_back job))
    after_critical r (enqueue_dirty jobs) (release_pending (job ∷ jobs))

  unfoldable pub enqueue_dirty_shards : ℕ → ℕ → Exec (Cache K V) (Unit {0})
  enqueue_dirty_shards i zero = pure tt
  enqueue_dirty_shards i (suc n) = with_state λ c. do
    jobs ← with_shard i (λ s. (jobs_of c i s, register_all (jobs_of c i s) s))
    enqueue_dirty jobs
    enqueue_dirty_shards (i + 1) n

  -- A failure is followed by a wait, but for the last.
  unfoldable pub after_try :
      FlushWriteBack K V → ℕ → Exec (Cache K V) Bool → Result (Unit {0}) → Exec (Cache K V) Bool
  after_try job n again (ok _) =
      change_shard job.shard_index (clean_operation job.operation job.key job.version) >> pure true
  after_try job n again (err e) =
      if ltb 0 n then (do modify (count retried); modify retry_delay; again) else again

  -- The loop over the attempts for one job.
  unfoldable pub try_flush : FlushWriteBack K V → ℕ → Exec (Cache K V) Bool
  try_flush job zero = pure false
  try_flush job (suc n) =
      let again = try_flush job n in
      do r ← attempt (with_source (apply_write_back job)); after_try job n again r

  abbrev pub end_flush : FlushWriteBack K V → Bool → Exec (Cache K V) Bool
  end_flush job success = do
    modify (if success then (λ c. c) else count flush_failed)
    change_shard job.shard_index (clear_pending_flushes job.key)
    pure (not success)

  -- The result says whether the job failed.
  unfoldable pub flush_sync : FlushWriteBack K V → Exec (Cache K V) Bool
  flush_sync job = do
    stale ← with_shard job.shard_index (is_stale job)
    if stale
        then (do
          modify (count skipped)
          change_shard job.shard_index (clear_pending_flushes job.key)
          pure false)
        else (do success ← try_flush job (job.retries_left + 1); end_flush job success)

  unfoldable pub flush_sync_all : List (FlushWriteBack K V) → Exec (Cache K V) Bool
  flush_sync_all [] = pure false
  flush_sync_all (job ∷ jobs) = do
    failed ← flush_sync job
    rest ← flush_sync_all jobs
    pure (failed || rest)

  unfoldable pub flush_sync_shards : ℕ → ℕ → Exec (Cache K V) Bool
  flush_sync_shards i zero = pure false
  flush_sync_shards i (suc n) = with_state λ c. do
    jobs ← with_shard i (λ s. (jobs_of c i s, s))
    failed ← flush_sync_all jobs
    rest ← flush_sync_shards (i + 1) n
    pure (failed || rest)

-- `_count_dirty_entries`, of one shard
unfoldable pub count_dirty : {K V : Type 0} → List (Entry K V) → ℕ
count_dirty [] = 0
count_dirty (e ∷ es) = let rest = count_dirty es in if e.dirty then rest + 1 else rest
