-- ===== src/Cache/Invariant.antt =====
-- The shards of a cache stay valid and within their capacities, and its queue within its bound,
-- whatever is called and whatever is raised.
use cache_system.Prelude.{
  ℕ, Option-cases, inl, inr, List, [], ◌∷◌, All, All-get_elem?, All-set, get_elem?,
}
use cache_system.Prelude.Int.{is_nonpositive}
use cache_system.Exec.{Exec, Result, ok, err, runtime_error}
use cache_system.Exec.Keeps.{
  Keeps, Keeps-pure, Keeps-raise, Keeps-attempt, Keeps-raise_if, Keeps-bind, Keeps-then,
  keeps_rules,
}
use cache_system.Dict.{Hashable}
use cache_system.Jobs.{Job, FlushWriteBack, flush_write_back}
use cache_system.Source.{SlowDict}
use cache_system.Queue.Laws
use cache_system.Shard.{Shard, resolve_pending}
use cache_system.Shard.Settled.{IsSettled, resolve_pending-IsSettled}
use cache_system.Cache.{
  Cache, is_closed, with_source, with_shard, change_shard, require_not_closed, require_workers,
  enqueue_job, enqueue_critical, release_pending, enqueue_flush_jobs, after_enqueue,
}

module _ {K V : Type 0} ⦃h : Hashable K⦄ where
  pub record IsValid (c : Cache K V) : Type 0 where
    pub shards : All IsSettled c.shards
    pub queue : Laws.IsValid c.job_queue

  pub with_shard-Keeps :
      {A : Type 0} (i : ℕ) (f : Shard K V → A × Shard K V)
      → ((s : Shard K V) → IsSettled s → IsSettled (f s).1)
      → Keeps IsValid (with_shard i f)
  with_shard-Keeps i f k = record { at = λ c v. go c v }
    where
      go : (c : Cache K V) → IsValid c → IsValid (with_shard i f c).1
      go c v = elim (Option-cases (get_elem? c.shards i)) [
        | inl n ↦ unfold with_shard in rw (n, with_shard) v
        | inr (s, n) ↦
            unfold with_shard in
            rw (n, with_shard)
              (record {
                shards =
                    All-set IsSettled c.shards i (f s).1 v.shards
                      (k s (All-get_elem? IsSettled c.shards i s v.shards n));
                queue = v.queue;
              })
      ]

  pub change_shard-Keeps :
      (i : ℕ) (f : Shard K V → Shard K V)
      → ((s : Shard K V) → IsSettled s → IsSettled (f s))
      → Keeps IsValid (change_shard i f)
  unfolding change_shard
  change_shard-Keeps i f k = with_shard-Keeps i (λ s. (tt, f s)) k

  pub with_source-Keeps : {A : Type 0} (f : Exec (SlowDict K V) A) → Keeps IsValid (with_source f)
  unfolding with_source
  with_source-Keeps f = record { at = λ c v. record { shards = v.shards; queue = v.queue } }

  pub require_not_closed-Keeps : Keeps IsValid (require_not_closed {K = K} {V = V})
  unfolding require_not_closed
  require_not_closed-Keeps = record {
    at = λ c v. (Keeps-raise_if {P = IsValid} (is_closed c.state) runtime_error).at c v;
  }

  pub require_workers-Keeps : Keeps IsValid (require_workers {K = K} {V = V})
  unfolding require_workers
  require_workers-Keeps = record {
    at = λ c v.
        (Keeps-raise_if {P = IsValid} (is_nonpositive c.config.worker_count) runtime_error).at c v;
  }

  pub enqueue_job-Keeps : (job : Job K V) → Keeps IsValid (enqueue_job job)
  unfolding enqueue_job
  enqueue_job-Keeps job = record {
    at = λ c v. record { shards = v.shards; queue = Laws.put-IsValid job c.job_queue v.queue };
  }

  pub enqueue_critical-Keeps : (job : Job K V) → Keeps IsValid (enqueue_critical job)
  unfolding enqueue_critical
  enqueue_critical-Keeps job = search (keeps_rules, enqueue_job-Keeps)

  pub release_pending-Keeps :
      (jobs : List (FlushWriteBack K V)) → Keeps IsValid (release_pending jobs)
  unfolding release_pending
  release_pending-Keeps [] = Keeps-pure tt
  release_pending-Keeps (job ∷ jobs) =
      Keeps-then _ _
        (change_shard-Keeps job.shard_index (resolve_pending job.key)
          (λ s. resolve_pending-IsSettled s job.key))
        (release_pending-Keeps jobs)

  after_enqueue-Keeps :
      (r : Result (Unit {0})) (next release : Exec (Cache K V) (Unit {0}))
      → Keeps IsValid next
      → Keeps IsValid release
      → Keeps IsValid (after_enqueue r next release)
  after_enqueue-Keeps (ok _) next release kn kr = kn
  after_enqueue-Keeps (err e) next release kn kr = Keeps-then _ _ kr (Keeps-raise e)

  pub enqueue_flush_jobs-Keeps :
      (jobs : List (FlushWriteBack K V)) → Keeps IsValid (enqueue_flush_jobs jobs)
  unfolding enqueue_flush_jobs
  enqueue_flush_jobs-Keeps [] = Keeps-pure tt
  enqueue_flush_jobs-Keeps (job ∷ jobs) =
      Keeps-bind _ _ (Keeps-attempt _ (enqueue_critical-Keeps (flush_write_back job))) (λ r.
        after_enqueue-Keeps r _ _ (enqueue_flush_jobs-Keeps jobs)
          (release_pending-Keeps (job ∷ jobs)))
