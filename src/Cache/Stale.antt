-- ===== src/Cache/Stale.antt =====
-- What a worker does with a flush job that a newer write has overtaken.
use cache_system.Prelude.{
  ℕ, zero, suc, ◌+◌, ◌-◌, ◌≡◌, refl, true, some, arith, get_elem?, get_elem?-set_self,
  get_elem?-some, set, ◌∙◌,
}
use cache_system.Exec.{ok, ◌>>=◌, ◌>>◌}
use cache_system.Dict.{Hashable, get}
use cache_system.Dict.Laws.{get-put_self, get-pop_self}
use cache_system.Entry.{Entry}
use cache_system.Jobs.{FlushWriteBack}
use cache_system.WriteBack.{is_stale_write_back, or_zero}
use cache_system.WriteBack.Sound.{backend-resolve_pending}
use cache_system.Shard.{Shard, resolve_pending, prune_marks}
use cache_system.Shard.Invariant.{IsValid}
use cache_system.Shard.Staleness.{is_stale_write_back_lem, superseded}
use cache_system.Cache.{Cache, with_shard, change_shard}
use cache_system.Cache.Flush.{flush_write_back_job}

module _ {K V : Type 0} ⦃h : Hashable K⦄ where
  pending-resolve_pending :
      (s : Shard K V) (k : K)
      → or_zero (get k (resolve_pending k s).pending_flushes)
        ≡ or_zero (get k s.pending_flushes) - 1
  unfolding resolve_pending prune_marks
  pending-resolve_pending s k = go (or_zero (get k s.pending_flushes) - 1) refl
    where
      go :
          (n : ℕ)
          → or_zero (get k s.pending_flushes) - 1 ≡ n
          → or_zero (get k (resolve_pending k s).pending_flushes)
            ≡ or_zero (get k s.pending_flushes) - 1
      go zero e = ground (arith, e, get-pop_self k s.pending_flushes)
      go (suc n) e = ground (arith, e, get-put_self k (suc n) s.pending_flushes)

  -- A worker drops a job that a newer state of its key has overtaken. In a valid shard, let the key of
  -- the job have an entry, and let the job be a deletion or a write of another version than the
  -- entry's. Then the worker reports success; neither the source of truth nor the queue is touched;
  -- the skip is counted once; and the shard keeps its entries, and has one flush less under way for
  -- the key.
  pub flush_write_back_job-superseded :
      (c : Cache K V) (job : FlushWriteBack K V) (s : Shard K V) (e : Entry K V)
      → get_elem? c.shards job.shard_index ≡ some s
      → IsValid s
      → get job.key s.backend ≡ some e
      → superseded job.operation job.version e.version ≡ true
      → ((flush_write_back_job job c).0 ≡ ok true)
        × ((flush_write_back_job job c).1.source_backend ≡ c.source_backend)
        × ((flush_write_back_job job c).1.job_queue ≡ c.job_queue)
        × ((flush_write_back_job job c).1.runtime.stale_write_back_jobs_skipped
            ≡ c.runtime.stale_write_back_jobs_skipped + 1)
        × (t : Shard K V) × (get_elem? (flush_write_back_job job c).1.shards job.shard_index
            ≡ some t)
        × (t.backend ≡ s.backend)
        × (or_zero (get job.key t.pending_flushes) ≡ or_zero (get job.key s.pending_flushes) - 1)
  unfolding flush_write_back_job ◌>>=◌ ◌>>◌ with_shard change_shard
  flush_write_back_job-superseded c job s e n v own newer =
      rw (n, with_shard, stale, found)
        (
          refl,
          refl,
          refl,
          refl,
          resolve_pending job.key s,
          get_elem?-set_self _ job.shard_index _ (get_elem?-some _ job.shard_index s found),
          backend-resolve_pending s job.key,
          pending-resolve_pending s job.key,
        )
    where
      stale : is_stale_write_back s.version_marks s.tombstones job ≡ true
      stale = is_stale_write_back_lem s job e v own ∙ newer

      found : get_elem? (set c.shards job.shard_index s) job.shard_index ≡ some s
      found =
          get_elem?-set_self c.shards job.shard_index s
            (get_elem?-some c.shards job.shard_index s n)
