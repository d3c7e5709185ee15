-- ===== src/WriteBack/Sections.antt =====
-- What a section of a caller, or of the only worker, does to what Synced asks for.
use cache_system.Prelude.{
  ℕ, ◌≡◌, Bool, true, false, Option, none, some, List, [], ◌∷◌, All-append, arith, inl, inr, ◌∙◌,
  sym, subst, Option-cases,
}
use cache_system.Exec.{ok, err, Error}
use cache_system.Dict.{Hashable, ◌≟◌, Dict, get, values}
use cache_system.Entry.{Entry}
use cache_system.Prelude.Int.{ℤ}
use cache_system.Jobs.{Ttl, FlushWriteBack, Operation, write, delete, unknown}
use cache_system.Source.{SlowDict}
use cache_system.WriteBack.{is_stale_write_back, apply_write_back, apply_operation}
use cache_system.WriteBack.Kind.{read_value-SameKind, remove_expired-SameKind}
use cache_system.WriteBack.Follows.{read_value-Follows, remove_expired-Follows}
use cache_system.WriteBack.Sound.{WriteOf, Clean, Current, JobIsSound, count, count-append}
use cache_system.WriteBack.Steps.{
  Worker, idle, checked, applied, System, job_for, enqueue, release, finished, put_section,
}
use cache_system.WriteBack.Core.{Core, release-Core}
use cache_system.WriteBack.Synced.{IsSynced, quiet, dropped, put-IsSynced, remove-IsSynced}
use cache_system.WriteBack.Effects.{Written, after, written, others_kept, failed_kept}
use cache_system.Shard.{Shard, read_value}
use cache_system.Shard.Writes.{expire_shard, expired_keys, delete_marked}
use cache_system.Shard.Settled.{read_value-IsSettled, expire_shard-IsSettled}
use cache_system.Shard.Staleness.{is_stale_write_back_lem, superseded}
use cache_system.Cache.Flush.{clean_operation, retry_of}
use cache_system.WriteBack.Cleaning.{clean_operation-Core}

module _ {K V : Type 0} ⦃h : Hashable K⦄ where
  -- The calls of the callers.
  pub put_refused-IsSynced :
      (s : System K V) (w : Worker K V) (k : K) (x : V) (ttl : Ttl) (now : ℕ)
      (default_ttl : Option ℤ)
      → IsSynced s w
      → IsSynced (record s { shard = release k (put_section k x ttl now default_ttl s.shard).1 }) w
  put_refused-IsSynced s w k x ttl now default_ttl v =
      dropped (record s { shard = (put_section k x ttl now default_ttl s.shard).1 }) w
        (job_for s.shard.index k (write x) (put_section k x ttl now default_ttl s.shard).0 0)
        (put-IsSynced s w k x ttl now default_ttl 0 v)

  pub remove_refused-IsSynced :
      (s : System K V) (w : Worker K V) (k : K)
      → IsSynced s w
      → IsSynced (record s { shard = release k (delete_marked true k s.shard).1 }) w
  remove_refused-IsSynced s w k v =
      dropped (record s { shard = (delete_marked true k s.shard).1 }) w
        (job_for s.shard.index k delete (delete_marked true k s.shard).0.0 0)
        (remove-IsSynced s w k 0 v)

  pub read-IsSynced :
      (s : System K V) (w : Worker K V) (k : K) (touched counted : Bool) (now : ℕ)
      → IsSynced s w
      → IsSynced (record s { shard = (read_value k touched counted now s.shard).1 }) w
  read-IsSynced s w k touched counted now v =
      quiet s w (read_value k touched counted now s.shard).1
        (read_value-IsSettled s.shard k touched counted now v.core.settled)
        (read_value-SameKind s.shard k touched counted now)
        (λ j. read_value-Follows s.shard k j touched counted now) v

  pub expire-IsSynced :
      (s : System K V) (w : Worker K V) (now : ℕ)
      → IsSynced s w
      → IsSynced (record s { shard = (expire_shard now s.shard).1 }) w
  unfolding expire_shard
  expire-IsSynced s w now v =
      quiet s w (expire_shard now s.shard).1 (expire_shard-IsSettled s.shard now v.core.settled)
        (remove_expired-SameKind (expired_keys (values s.shard.backend) now) s.shard)
        (λ j. remove_expired-Follows (expired_keys (values s.shard.backend) now) s.shard j) v

  -- The worker's sections. The list of the workers is the one that the section leaves.
  pub take-IsSynced :
      (s : System K V) (job : FlushWriteBack K V) (rest : List (FlushWriteBack K V))
      (workers : List (Worker K V))
      → workers ≡ checked job ∷ []
      → s.queue ≡ job ∷ rest
      → is_stale_write_back s.shard.version_marks s.shard.tombstones job ≡ false
      → IsSynced s idle
      → IsSynced (record s { queue = rest; workers = workers }) (checked job)
  take-IsSynced s job rest workers alone q fresh v = record {
    alone = alone;
    core = subst (Core s.shard s.source.entries) q v.core;
    hand = elim (Option-cases (get job.key s.shard.backend)) [
      | inl n ↦ rw n tt
      | inr (e, n) ↦ rw n (λ p.
          current job.operation e
            (sym (is_stale_write_back_lem s.shard job e v.core.settled.valid n) ∙ fresh))
    ];
  }
    where
      current :
          (o : Operation V) (e : Entry K V)
          → superseded o job.version e.version ≡ false
          → job.version ≡ e.version
      current (write x) e p = ground arith
      current delete e p = absurd (ground arith)
      current (unknown x) e p = absurd (ground arith)

  -- The first of the jobs is dropped.
  release_first :
      (s : Shard K V) (source : Dict K V) (job : FlushWriteBack K V)
      (rest : List (FlushWriteBack K V))
      → Core s source (job ∷ rest)
      → Core (release job.key s) source rest
  unfolding count
  release_first s source job rest c =
      release-Core s source (job ∷ rest) rest job.key c c.sound.1 (λ j. ground arith)

  pub skip-IsSynced :
      (s : System K V) (job : FlushWriteBack K V) (rest : List (FlushWriteBack K V))
      → s.queue ≡ job ∷ rest
      → IsSynced s idle
      → IsSynced (record s { queue = rest; shard = release job.key s.shard }) idle
  skip-IsSynced s job rest q v = record {
    alone = v.alone;
    core =
        release_first s.shard s.source.entries job rest
          (subst (Core s.shard s.source.entries) q v.core);
    hand = tt;
  }

  -- A call of the source changes its entries alone.
  resourced :
      (s : Shard K V) (source target : Dict K V) (jobs : List (FlushWriteBack K V))
      → ((k : K) → Clean (get k s.backend) (get k target))
      → Core s source jobs
      → Core s target jobs
  resourced s source target jobs clean c = record {
    settled = c.settled;
    ordered = c.ordered;
    room = c.room;
    clean = clean;
    sound = c.sound;
    counted = c.counted;
  }

  called-Written :
      (src : SlowDict K V) (k : K) (o : Operation V)
      → (apply_operation o k src).0 ≡ ok tt
      → Written o (get k (after src k o).entries)
  called-Written src k (write v) e = written src k v e
  called-Written src k delete e = tt
  called-Written src k (unknown x) e = tt

  -- The write of the version of an entry leaves its value in the source.
  Written-Clean :
      (o : Option (Entry K V)) (n : ℕ) (p : Operation V) (stored : Option V)
      → Current o n
      → WriteOf o n p
      → Written p stored
      → Clean o stored
  Written-Clean none n p stored c w v = tt
  Written-Clean (some e) n p stored c w v = λ d. subst (λ q. Written q stored) (w (c d)) v

  pub apply-IsSynced :
      (s : System K V) (job : FlushWriteBack K V) (workers : List (Worker K V))
      → workers ≡ applied job ∷ []
      → (apply_write_back job s.source).0 ≡ ok tt
      → IsSynced s (checked job)
      → IsSynced
          (record s { source = (apply_write_back job s.source).1; workers = workers })
          (applied job)
  unfolding apply_write_back
  apply-IsSynced s job workers alone e v = record {
    alone = alone;
    core = resourced s.shard s.source.entries target.entries (job ∷ s.queue) clean v.core;
    hand = (v.hand, done);
  }
    where
      target : SlowDict K V
      target = after s.source job.key job.operation

      done : Written job.operation (get job.key target.entries)
      done = called-Written s.source job.key job.operation e

      clean : (k : K) → Clean (get k s.shard.backend) (get k target.entries)
      clean k = elim (◌≟◌ job.key k) [
        | yes same ↦
            subst (λ j. Clean (get j s.shard.backend) (get j target.entries)) same
              (Written-Clean (get job.key s.shard.backend) job.version job.operation _ v.hand
                v.core.sound.0.writes done)
        | no other ↦ rw (others_kept s.source job.key job.operation k other) (v.core.clean k)
      ]

  -- A call that fails leaves the entries of the source.
  failed :
      (s : System K V) (job : FlushWriteBack K V) (x : Error)
      → (apply_write_back job s.source).0 ≡ err x
      → Core s.shard s.source.entries (job ∷ s.queue)
      → Core s.shard (apply_write_back job s.source).1.entries (job ∷ s.queue)
  unfolding apply_write_back
  failed s job x e c =
      resourced s.shard s.source.entries (after s.source job.key job.operation).entries
        (job ∷ s.queue) (λ k. rw (failed_kept s.source job.key job.operation x e) (c.clean k)) c

  pub retry-IsSynced :
      (s : System K V) (job : FlushWriteBack K V) (x : Error) (workers : List (Worker K V))
      → workers ≡ idle ∷ []
      → (apply_write_back job s.source).0 ≡ err x
      → IsSynced s (checked job)
      → IsSynced
          (enqueue
            (retry_of job)
            (record s { source = (apply_write_back job s.source).1; workers = workers }))
          idle
  unfolding retry_of count
  retry-IsSynced s job x workers alone e v = record {
    alone = alone;
    core = record {
      settled = core.settled;
      ordered = core.ordered;
      room = core.room;
      clean = core.clean;
      sound =
          All-append (JobIsSound s.shard) s.queue (retry_of job ∷ []) core.sound.1
            (record { known = core.sound.0.known; writes = core.sound.0.writes }, tt);
      counted = λ k. ground (arith, core.counted k, count-append k s.queue (retry_of job ∷ []));
    };
    hand = tt;
  }
    where
      core : Core s.shard (apply_write_back job s.source).1.entries (job ∷ s.queue)
      core = failed s job x e v.core

  pub give_up-IsSynced :
      (s : System K V) (job : FlushWriteBack K V) (x : Error) (workers : List (Worker K V))
      → workers ≡ idle ∷ []
      → (apply_write_back job s.source).0 ≡ err x
      → IsSynced s (checked job)
      → IsSynced
          (record s {
            source = (apply_write_back job s.source).1;
            workers = workers;
            shard = release job.key s.shard;
          })
          idle
  give_up-IsSynced s job x workers alone e v = record {
    alone = alone;
    core = release_first s.shard _ job s.queue (failed s job x e v.core);
    hand = tt;
  }

  pub finish-IsSynced :
      (s : System K V) (job : FlushWriteBack K V) (workers : List (Worker K V))
      → workers ≡ idle ∷ []
      → IsSynced s (applied job)
      → IsSynced (record s { workers = workers; shard = finished job s.shard }) idle
  finish-IsSynced s job workers alone v = record {
    alone = alone;
    core =
        release_first (clean_operation job.operation job.key job.version s.shard) s.source.entries
          job s.queue
          (clean_operation-Core s.shard s.source.entries job.operation job.key job.version
            (job ∷ s.queue) v.core.sound.0.writes v.hand.1 v.core);
    hand = tt;
  }
