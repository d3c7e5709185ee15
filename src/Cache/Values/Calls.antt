-- ===== src/Cache/Values/Calls.antt =====
-- What the calls of a cache do to the values that its keys may have.
use cache_system.Prelude.{
  ℕ, zero, suc, ◌+◌, ◌≡◌, Bool, Option, List, [], ◌∷◌, arith, ite, sym, subst,
}
use cache_system.Prelude.Int.{ℤ}
use cache_system.Exec.{Exec, Result, ok, err, runtime_error, modify}
use cache_system.Exec.Keeps.{
  Keeps, Keeps-raise_if, Keeps-modify, Keeps-bind, Keeps-then, Keeps-pure, Keeps-raise,
  Keeps-attempt, Keeps-gets, Keeps-with_state, keeps_rules,
}
use cache_system.Dict.{Hashable, ◌≟◌, get, values}
use cache_system.Jobs.{Job, FlushWriteBack, flush_write_back}
use cache_system.Config.{WriteMode, cache_only, write_through, write_back}
use cache_system.Source.{SlowDict}
use cache_system.Shard.{Shard, read_value, resolve_pending}
use cache_system.Shard.Writes.{expire_shard}
use cache_system.Shard.Settled.{
  IsSettled, read_value-IsSettled, expire_shard-IsSettled, resolve_pending-IsSettled,
}
use cache_system.Cache.{
  Cache, StableHash, now, is_closed, with_shard, change_shard, with_source, require_not_closed,
  warn_not_started, enqueue_job, enqueue_critical, release_pending, enqueue_flush_jobs,
  after_enqueue,
}
use cache_system.Cache.Access.{
  write_source, delete_source, get_value, contains, expire_one, expire_from, expire_all,
  inspect_locked, inspect, dump_entries, dump_shards, dump, set_hits, restore_entry_metadata,
}
use cache_system.Cache.Calls.{set_hits-IsSettled}
use cache_system.Cache.Closing.{inspect_locked-IsSettled, dump_entries-IsSettled}
use cache_system.Cache.Values.{Kept, AgreesOn, Agrees, with_shard-Keeps}
use cache_system.Cache.Values.Sections.{
  read_value-Kept, expire_shard-Kept, inspect_locked-Kept, dump_entries-Kept, set_hits-Kept,
  resolve_pending-Kept,
}

module _ {K V : Type 0} ⦃h : Hashable K⦄ where
  -- The values that a key may have after it was written.
  unfoldable pub update : K → List V → (K → List V) → K → List V
  update k vs m j = ite (◌≟◌ k j) vs (m j)

module _ {K V : Type 0} ⦃h : Hashable K⦄ ⦃stable : StableHash K⦄ (n : ℕ) (m : K → List V) where
  pub change_shard-Keeps :
      (i : ℕ) (f : Shard K V → Shard K V)
      → ((s : Shard K V) → IsSettled s → IsSettled (f s))
      → ((s : Shard K V) (k : K) → Kept (get k s.backend) (get k (f s).backend))
      → Keeps (Agrees n m) (change_shard i f)
  unfolding change_shard
  change_shard-Keeps i f settled kept = with_shard-Keeps n i (λ s. (tt, f s)) m settled kept

  pub require_not_closed-Keeps : Keeps (Agrees n m) require_not_closed
  unfolding require_not_closed
  require_not_closed-Keeps = record {
    at = λ c v. (Keeps-raise_if {P = Agrees n m} (is_closed c.state) runtime_error).at c v;
  }

  pub warn_not_started-Keeps : Keeps (Agrees n m) (modify warn_not_started)
  warn_not_started-Keeps =
      Keeps-modify warn_not_started (λ c v. subst (AgreesOn n m) (sym (same c)) v)
    where
      same : (c : Cache K V) → (warn_not_started c).shards ≡ c.shards
      same c = unfold warn_not_started in ground arith

  with_source-Keeps : {A : Type 0} (f : Exec (SlowDict K V) A) → Keeps (Agrees n m) (with_source f)
  unfolding with_source
  with_source-Keeps f = record { at = λ c v. v }

  pub write_source-Keeps :
      (mode : WriteMode) (k : K) (v : V) → Keeps (Agrees n m) (write_source mode k v)
  unfolding write_source
  write_source-Keeps write_through k v = with_source-Keeps _
  write_source-Keeps cache_only k v = Keeps-pure tt
  write_source-Keeps write_back k v = Keeps-pure tt

  pub delete_source-Keeps : (mode : WriteMode) (k : K) → Keeps (Agrees n m) (delete_source mode k)
  unfolding delete_source
  delete_source-Keeps write_through k = with_source-Keeps _
  delete_source-Keeps cache_only k = Keeps-pure tt
  delete_source-Keeps write_back k = Keeps-pure tt

  enqueue_job-Keeps : (job : Job K V) → Keeps (Agrees n m) (enqueue_job job)
  unfolding enqueue_job
  enqueue_job-Keeps job = record { at = λ c v. v }

  enqueue_critical-Keeps : (job : Job K V) → Keeps (Agrees n m) (enqueue_critical job)
  unfolding enqueue_critical
  enqueue_critical-Keeps job = search (keeps_rules, enqueue_job-Keeps)

  release_pending-Keeps :
      (jobs : List (FlushWriteBack K V)) → Keeps (Agrees n m) (release_pending jobs)
  unfolding release_pending
  release_pending-Keeps [] = Keeps-pure tt
  release_pending-Keeps (job ∷ jobs) =
      Keeps-then _ _
        (change_shard-Keeps job.shard_index (resolve_pending job.key)
          (λ s. resolve_pending-IsSettled s job.key) (resolve_pending-Kept job.key))
        (release_pending-Keeps jobs)

  pub enqueue_flush_jobs-Keeps :
      (jobs : List (FlushWriteBack K V)) → Keeps (Agrees n m) (enqueue_flush_jobs jobs)
  unfolding enqueue_flush_jobs
  enqueue_flush_jobs-Keeps [] = Keeps-pure tt
  enqueue_flush_jobs-Keeps (job ∷ jobs) =
      Keeps-bind _ _ (Keeps-attempt _ (enqueue_critical-Keeps (flush_write_back job)))
        (λ r. after r (enqueue_flush_jobs-Keeps jobs) (release_pending-Keeps (job ∷ jobs)))
    where
      after :
          (r : Result (Unit {0})) {next release : Exec (Cache K V) (Unit {0})}
          → Keeps (Agrees n m) next
          → Keeps (Agrees n m) release
          → Keeps (Agrees n m) (after_enqueue r next release)
      after (ok _) kn kr = kn
      after (err e) kn kr = Keeps-then _ _ kr (Keeps-raise e)

  -- The calls that write no value.
  pub read_value-Keeps :
      (i : ℕ) (k : K) (touched counted : Bool) (t : ℕ)
      → Keeps (Agrees n m) (with_shard i (read_value k touched counted t))
  read_value-Keeps i k touched counted t =
      with_shard-Keeps n i (read_value k touched counted t) m
        (λ s. read_value-IsSettled s k touched counted t) (read_value-Kept k touched counted t)

  pub get_value-Keeps : (k : K) (d : V) → Keeps (Agrees n m) (get_value k d)
  unfolding get_value
  get_value-Keeps k d = search (keeps_rules, require_not_closed-Keeps, read_value-Keeps) depth 12

  pub contains-Keeps : (k : K) → Keeps (Agrees n m) (contains k)
  unfolding contains
  contains-Keeps k = search (keeps_rules, require_not_closed-Keeps, read_value-Keeps) depth 12

  pub inspect-Keeps : (k : K) → Keeps (Agrees n m) (inspect k)
  unfolding inspect
  inspect-Keeps k =
      search
        (
          keeps_rules,
          require_not_closed-Keeps,
          λ (i t : ℕ).
              with_shard-Keeps n i (inspect_locked k t) m (inspect_locked-IsSettled k t)
                (inspect_locked-Kept k t),
        )
        depth 12

  dump_shards-Keeps : (i l : ℕ) → Keeps (Agrees n m) (dump_shards i l)
  unfolding dump_shards
  dump_shards-Keeps i zero = Keeps-pure []
  dump_shards-Keeps i (suc l) = Keeps-bind _ _ (Keeps-gets now) (λ t.
      Keeps-bind _ _
        (with_shard-Keeps n i (λ s. dump_entries (values s.backend) t s) m
          (λ s v. dump_entries-IsSettled (values s.backend) t s v)
          (λ s. dump_entries-Kept (values s.backend) t s))
        (λ snaps. Keeps-bind _ _ (dump_shards-Keeps (i + 1) l) (λ rest. Keeps-pure _)))

  pub dump-Keeps : (limit : Option ℤ) → Keeps (Agrees n m) (dump limit)
  unfolding dump
  dump-Keeps limit = search (keeps_rules, require_not_closed-Keeps, dump_shards-Keeps) depth 12

  expire_from-Keeps : (i l : ℕ) → Keeps (Agrees n m) (expire_from i l)
  unfolding expire_from expire_one
  expire_from-Keeps i zero = search keeps_rules
  expire_from-Keeps i (suc l) =
      Keeps-bind _ _
        (Keeps-with_state _ (λ c.
          with_shard-Keeps n i (expire_shard (now c)) m (λ s. expire_shard-IsSettled s (now c))
            (expire_shard-Kept (now c))))
        (λ a. Keeps-bind _ _ (expire_from-Keeps (i + 1) l) (λ b. Keeps-pure _))

  pub expire_all-Keeps : Keeps (Agrees n m) expire_all
  unfolding expire_all
  expire_all-Keeps = search (keeps_rules, require_not_closed-Keeps, expire_from-Keeps) depth 12

  pub restore_entry_metadata-Keeps :
      (k : K) (l : ℕ) → Keeps (Agrees n m) (restore_entry_metadata k l)
  unfolding restore_entry_metadata
  restore_entry_metadata-Keeps k l =
      search
        (
          keeps_rules,
          require_not_closed-Keeps,
          λ (i : ℕ).
              change_shard-Keeps i (set_hits k l) (set_hits-IsSettled k l) (set_hits-Kept k l),
        )
        depth 12
