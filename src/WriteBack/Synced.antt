-- ===== src/WriteBack/Synced.antt =====
-- What one worker, its shard and its queue keep of each other while callers write, read and expire.
use cache_system.Prelude.{ℕ, ◌≡◌, refl, true, Option, List, [], ◌∷◌, ◌++◌, All, arith, sym, subst}
use cache_system.Dict.{Hashable, Dict, get}
use cache_system.Prelude.Int.{ℤ}
use cache_system.Jobs.{Ttl, FlushWriteBack, write, delete}
use cache_system.WriteBack.Kind.{SameKind, existing_entry-SameKind}
use cache_system.WriteBack.Follows.{Follows, existing_entry-Follows}
use cache_system.WriteBack.Sound.{
  Current, Current-SameWrite, JobIsSound, count, count-append, backend-resolve_pending,
}
use cache_system.WriteBack.Steps.{
  Worker, idle, checked, applied, System, job_for, enqueue, release, put_section, put_system,
  remove_system,
}
use cache_system.WriteBack.Core.{
  Core, Follows-Core, release-Core, put_entry-Core, delete_marked-Core, put_entry-Current,
  delete_marked-Current,
}
use cache_system.WriteBack.Effects.{Written}
use cache_system.Shard.{Shard}
use cache_system.Shard.Writes.{existing_entry, delete_marked}
use cache_system.Shard.Settled.{IsSettled, existing_entry-IsSettled}

module _ {K V : Type 0} ⦃h : Hashable K⦄ where
  -- The jobs not yet ended: the one in hand, then those that wait.
  abbrev pub outstanding : Worker K V → List (FlushWriteBack K V) → List (FlushWriteBack K V)
  outstanding idle queue = queue
  outstanding (checked job) queue = job ∷ queue
  outstanding (applied job) queue = job ∷ queue

  -- What a worker knows of the job in its hand.
  abbrev pub InHand : Shard K V → Dict K V → Worker K V → Type 0
  InHand s source idle = Unit
  InHand s source (checked job) = Current (get job.key s.backend) job.version
  InHand s source (applied job) =
      Current (get job.key s.backend) job.version × Written job.operation (get job.key source)

  pub record IsSynced (s : System K V) (w : Worker K V) : Type 0 where
    pub alone : s.workers ≡ w ∷ []
    pub core : Core s.shard s.source.entries (outstanding w s.queue)
    pub hand : InHand s.shard s.source.entries w

  InHand-map :
      (s t : Shard K V) (source : Dict K V) (w : Worker K V)
      → ((k : K) (n : ℕ) → Current (get k s.backend) n → Current (get k t.backend) n)
      → InHand s source w
      → InHand t source w
  InHand-map s t source idle f v = tt
  InHand-map s t source (checked job) f v = f job.key job.version v
  InHand-map s t source (applied job) f v = (f job.key job.version v.0, v.1)

  outstanding-append :
      (w : Worker K V) (queue : List (FlushWriteBack K V)) (job : FlushWriteBack K V)
      → outstanding w queue ++ job ∷ [] ≡ outstanding w (queue ++ job ∷ [])
  outstanding-append idle queue job = refl
  outstanding-append (checked j) queue job = refl
  outstanding-append (applied j) queue job = refl

  Follows-Current :
      (s t : Shard K V)
      → ((k : K) → Follows s t k)
      → (k : K) (n : ℕ) → Current (get k s.backend) n
      → Current (get k t.backend) n
  Follows-Current s t f k n = Current-SameWrite (get k s.backend) (get k t.backend) n (f k).entry

  -- An operation of a caller that writes no key.
  pub quiet :
      (s : System K V) (w : Worker K V) (t : Shard K V)
      → IsSettled t
      → SameKind s.shard t
      → ((k : K) → Follows s.shard t k)
      → IsSynced s w
      → IsSynced (record s { shard = t }) w
  quiet s w t settled kind f v = record {
    alone = v.alone;
    core = Follows-Core s.shard t s.source.entries (outstanding w s.queue) settled kind f v.core;
    hand = InHand-map s.shard t s.source.entries w (Follows-Current s.shard t f) v.hand;
  }

  release-Current :
      (s : Shard K V) (j k : K) (n : ℕ)
      → Current (get k s.backend) n
      → Current (get k (release j s).backend) n
  release-Current s j k n v = rw (backend-resolve_pending s j) v

  pub All-init :
      (P : FlushWriteBack K V → Type 0) (xs : List (FlushWriteBack K V)) (job : FlushWriteBack K V)
      → All P (xs ++ job ∷ [])
      → All P xs
  All-init P [] job v = tt
  All-init P (x ∷ xs) job v = (v.0, All-init P xs job v.1)

  -- The last job of the queue is dropped.
  pub dropped :
      (s : System K V) (w : Worker K V) (job : FlushWriteBack K V)
      → IsSynced (enqueue job s) w
      → IsSynced (record s { shard = release job.key s.shard }) w
  unfolding count
  dropped s w job v = record {
    alone = v.alone;
    core =
        release-Core s.shard s.source.entries (left ++ job ∷ []) left job.key core
          (All-init (JobIsSound s.shard) left job core.sound)
          (λ j. ground (arith, count-append j left (job ∷ [])));
    hand =
        InHand-map s.shard (release job.key s.shard) s.source.entries w
          (release-Current s.shard job.key) v.hand;
  }
    where
      left : List (FlushWriteBack K V)
      left = outstanding w s.queue

      core : Core s.shard s.source.entries (left ++ job ∷ [])
      core = subst (Core s.shard s.source.entries) (sym (outstanding-append w s.queue job)) v.core

  -- `put`, in its two parts, and its job.
  pub put-IsSynced :
      (s : System K V) (w : Worker K V) (k : K) (x : V) (ttl : Ttl) (now : ℕ)
      (default_ttl : Option ℤ) (retries : ℕ)
      → IsSynced s w
      → IsSynced (put_system k x ttl now default_ttl retries s) w
  put-IsSynced s w k x ttl now default_ttl retries v = record {
    alone = v.alone;
    core = subst (Core u s.source.entries) (outstanding-append w s.queue job) (
        put_entry-Core t s.source.entries (outstanding w s.queue) k x ttl now default_ttl
          (existing_entry k now s.shard).0 s.shard.index retries found.core);
    hand =
        InHand-map t u s.source.entries w
          (put_entry-Current t s.source.entries (outstanding w s.queue) k x ttl now default_ttl
            (existing_entry k now s.shard).0 found.core)
          found.hand;
  }
    where
      t : Shard K V
      t = (existing_entry k now s.shard).1

      u : Shard K V
      u = (put_section k x ttl now default_ttl s.shard).1

      job : FlushWriteBack K V
      job =
          job_for s.shard.index k (write x) (put_section k x ttl now default_ttl s.shard).0 retries

      found : IsSynced (record s { shard = t }) w
      found =
          quiet s w t (existing_entry-IsSettled s.shard k now v.core.settled)
            (existing_entry-SameKind s.shard k now) (λ j. existing_entry-Follows s.shard k j now) v

  pub remove-IsSynced :
      (s : System K V) (w : Worker K V) (k : K) (retries : ℕ)
      → IsSynced s w
      → IsSynced (remove_system k retries s) w
  remove-IsSynced s w k retries v = record {
    alone = v.alone;
    core =
        subst (Core _ s.source.entries)
          (outstanding-append w s.queue
            (job_for s.shard.index k delete (delete_marked true k s.shard).0.0 retries))
          (delete_marked-Core s.shard s.source.entries (outstanding w s.queue) k s.shard.index
            retries v.core);
    hand =
        InHand-map s.shard (delete_marked true k s.shard).1 s.source.entries w
          (delete_marked-Current s.shard k) v.hand;
  }
