-- ===== src/WriteBack/Core.antt =====
-- What a shard, its source and the jobs not yet ended keep of each other, whoever acts.
use cache_system.Prelude.{
  ℕ, ◌+◌, ◌<◌, ◌≤◌, ◌≡◌, ◌≢◌, refl, true, Option, none, some, List, [], ◌∷◌, ◌++◌, All, All-append,
  arith, ite, ◌∙◌, subst,
}
use cache_system.Prelude.Int.{ℤ}
use cache_system.Dict.{Hashable, ◌≟◌, Dict, get}
use cache_system.Dict.Laws.{get-pop_self}
use cache_system.Entry.{Entry}
use cache_system.Jobs.{Ttl, FlushWriteBack, Operation, write, delete}
use cache_system.WriteBack.{or_zero}
use cache_system.WriteBack.Kind.{
  SameKind, put_entry-SameKind, delete_marked-SameKind, resolve_pending-SameKind,
}
use cache_system.WriteBack.Follows.{
  Follows, put_entry-Follows, pending-put_entry, delete_marked-Follows, pending-delete_marked,
}
use cache_system.WriteBack.Sound.{
  WriteOf, Clean, Current, Clean-SameWrite, Current-SameWrite, JobIsSound, Follows-JobIsSound,
  count, count-append, Counted, All-sound, resolve_pending-JobIsSound, backend-resolve_pending,
  pending-resolve_pending,
}
use cache_system.WriteBack.Steps.{job_for, release}
use cache_system.Shard.{Shard, next_version}
use cache_system.Shard.Writes.{put_entry, store_entry, new_entry, delete_marked}
use cache_system.Shard.Settled.{
  IsSettled, put_entry-IsSettled, delete_marked-IsSettled, resolve_pending-IsSettled,
  backend-delete_marked,
}
use cache_system.Shard.Placement.{is_ordered, put_entry-get}
use cache_system.Shard.Staleness.{delete_marked-marks}

module _ {K V : Type 0} ⦃h : Hashable K⦄ where
  pub record Core (s : Shard K V) (source : Dict K V) (jobs : List (FlushWriteBack K V))
      : Type 0 where
    pub settled : IsSettled s
    pub ordered : is_ordered s.policy ≡ true
    pub room : 0 < s.capacity
    pub clean : (k : K) → Clean (get k s.backend) (get k source)
    pub sound : All (JobIsSound s) jobs
    pub counted : Counted s jobs

  -- An operation that writes no key.
  pub Follows-Core :
      (s t : Shard K V) (source : Dict K V) (jobs : List (FlushWriteBack K V))
      → IsSettled t
      → SameKind s t
      → ((k : K) → Follows s t k)
      → Core s source jobs
      → Core t source jobs
  Follows-Core s t source jobs v kind f c = record {
    settled = v;
    ordered = kind.ordered ∙ c.ordered;
    room = rw kind.room c.room;
    clean = λ k. Clean-SameWrite (get k s.backend) (get k t.backend) _ (f k).entry (c.clean k);
    sound =
        All-sound s t s jobs c.counted (λ job p. Follows-JobIsSound s t job (f job.key) p) c.sound;
    counted = λ k. rw ((f k).pending) (c.counted k);
  }

  -- A flush that ends, and the jobs that are left.
  pub release-Core :
      (s : Shard K V) (source : Dict K V) (jobs rest : List (FlushWriteBack K V)) (k : K)
      → Core s source jobs
      → All (JobIsSound s) rest
      → ((j : K) → ite (◌≟◌ k j) (count j rest + 1) (count j rest) ≤ count j jobs)
      → Core (release k s) source rest
  release-Core s source jobs rest k c sound fewer = record {
    settled = resolve_pending-IsSettled s k c.settled;
    ordered = (resolve_pending-SameKind s k).ordered ∙ c.ordered;
    room = rw (resolve_pending-SameKind s k).room c.room;
    clean = λ j. rw (backend-resolve_pending s k) (c.clean j);
    sound =
        All-sound s (release k s) (release k s) rest left
          (λ job p. resolve_pending-JobIsSound s k job p) sound;
    counted = left;
  }
    where
      left : Counted (release k s) rest
      left j = ground (arith, pending-resolve_pending s k j, fewer j, c.counted j)

  module _ (s : Shard K V) (source : Dict K V) (jobs : List (FlushWriteBack K V)) (k : K)
      (o : Operation V) (version index retries : ℕ) (t : Shard K V) (settled : IsSettled t)
      (kind : SameKind s t) (others : (j : K) → k ≢ j → Follows s t j)
      (pending : get k t.pending_flushes ≡ some (or_zero (get k s.pending_flushes) + 1))
      (mark : get k t.version_marks ≡ some version)
      (newer : version ≡ or_zero (get k s.version_marks) + 1)
      (writes : WriteOf (get k t.backend) version o)
      (unwritten : Clean (get k t.backend) (get k source))
      (old : (n : ℕ) (p : Operation V) → n < version → WriteOf (get k t.backend) n p) where
    announced : JobIsSound t (job_for index k o version retries)
    announced = record { known = ground (arith, mark); writes = writes }

    kept :
        (job : FlushWriteBack K V)
        → 0 < or_zero (get job.key s.pending_flushes)
        → JobIsSound s job
        → JobIsSound t job
    kept job p v = elim (◌≟◌ k job.key) [
      | no other ↦ Follows-JobIsSound s t job (others job.key other) p v
      | yes same ↦ record {
        known = ground (arith, same, mark, newer, v.known);
        writes =
            subst (λ j. WriteOf (get j t.backend) job.version job.operation) same
              (old job.version job.operation (ground (arith, same, newer, v.known)));
      }
    ]

    -- A write or a deletion of a key, with its job.
    pub announce-Core :
        Core s source jobs → Core t source (jobs ++ job_for index k o version retries ∷ [])
    announce-Core c = record {
      settled = settled;
      ordered = kind.ordered ∙ c.ordered;
      room = rw kind.room c.room;
      clean = λ j. elim (◌≟◌ k j) [
        | yes same ↦ subst (λ i. Clean (get i t.backend) (get i source)) same unwritten
        | no other ↦
            Clean-SameWrite (get j s.backend) (get j t.backend) _ (others j other).entry (c.clean j)
      ];
      sound =
          All-append (JobIsSound t) jobs (job_for index k o version retries ∷ [])
            (All-sound s t s jobs c.counted kept c.sound) (announced, tt);
      counted = λ j. elim (◌≟◌ k j) [
        | yes same ↦
            unfold count in ground (arith, same, pending, c.counted j, count-append j jobs new)
        | no other ↦
            unfold count in
            ground (arith, other, (others j other).pending, c.counted j, count-append j jobs new)
      ];
    }
      where
        new : List (FlushWriteBack K V)
        new = job_for index k o version retries ∷ []

  -- `put` of a policy by order, which never evicts the key that it writes.
  pub put_entry-Core :
      (s : Shard K V) (source : Dict K V) (jobs : List (FlushWriteBack K V)) (k : K) (x : V)
      (ttl : Ttl) (now : ℕ) (default_ttl : Option ℤ) (old : Option (Entry K V)) (index retries : ℕ)
      → Core s source jobs
      → let (version, t) = put_entry k x ttl true now default_ttl old s in
        Core t source (jobs ++ job_for index k (write x) version retries ∷ [])
  unfolding new_entry
  put_entry-Core s source jobs k x ttl now default_ttl old index retries c =
      announce-Core s source jobs k (write x) version index retries t settled
        (put_entry-SameKind s k x ttl now default_ttl old)
        (λ j other. put_entry-Follows s k x ttl now default_ttl old j other)
        (pending-put_entry s k x ttl now default_ttl old) mark newer (rw found (λ p. refl))
        (rw found (λ p. cc p)) (λ n o l. rw found (λ p. absurd (omega (arith, l, p, newest)))) c
    where
      version : ℕ
      version = (put_entry k x ttl true now default_ttl old s).0

      t : Shard K V
      t = (put_entry k x ttl true now default_ttl old s).1

      e : Entry K V
      e = new_entry k x ttl true now default_ttl old (next_version k s).0

      settled : IsSettled t
      settled = put_entry-IsSettled s k x ttl true now default_ttl old c.settled.valid

      found : get k t.backend ≡ some e
      found = put_entry-get s k x ttl true now default_ttl old c.settled c.room c.ordered

      newer : version ≡ or_zero (get k s.version_marks) + 1
      newer = unfold put_entry store_entry next_version in refl

      newest : e.version ≡ version
      newest = unfold put_entry store_entry next_version new_entry in refl

      mark : get k t.version_marks ≡ some version
      mark = ground (arith, found, newest, (settled.valid.key k).marks)

  pub delete_marked-Core :
      (s : Shard K V) (source : Dict K V) (jobs : List (FlushWriteBack K V)) (k : K)
      (index retries : ℕ)
      → Core s source jobs
      → let ((version, existed), t) = delete_marked true k s in
        Core t source (jobs ++ job_for index k delete version retries ∷ [])
  delete_marked-Core s source jobs k index retries c =
      announce-Core s source jobs k delete (delete_marked true k s).0.0 index retries t
        (delete_marked-IsSettled s true k c.settled) (delete_marked-SameKind s k)
        (λ j other. delete_marked-Follows s k j other) (pending-delete_marked s k) marks.0 marks.2
        (rw gone tt) (rw gone tt) (λ n o l. rw gone tt) c
    where
      t : Shard K V
      t = (delete_marked true k s).1

      marks :
          (get k t.version_marks ≡ some (delete_marked true k s).0.0)
          × (get k t.tombstones ≡ some (delete_marked true k s).0.0)
          × ((delete_marked true k s).0.0 ≡ or_zero (get k s.version_marks) + 1)
      marks = delete_marked-marks s k

      gone : get k t.backend ≡ none
      gone = rw (backend-delete_marked s true k) (get-pop_self k s.backend)

  -- What a worker that holds a job knows, after a `put` or a deletion of any key.
  pub put_entry-Current :
      (s : Shard K V) (source : Dict K V) (jobs : List (FlushWriteBack K V)) (k : K) (x : V)
      (ttl : Ttl) (now : ℕ) (default_ttl : Option ℤ) (old : Option (Entry K V))
      → Core s source jobs
      → (j : K) (n : ℕ) → Current (get j s.backend) n
      → Current (get j (put_entry k x ttl true now default_ttl old s).1.backend) n
  unfolding new_entry
  put_entry-Current s source jobs k x ttl now default_ttl old c j n v = elim (◌≟◌ k j) [
    | yes same ↦
        subst (λ i. Current (get i (put_entry k x ttl true now default_ttl old s).1.backend) n) same
          (rw (put_entry-get s k x ttl true now default_ttl old c.settled c.room c.ordered)
            (λ p. cc p))
    | no other ↦
        Current-SameWrite (get j s.backend) _ n
          (put_entry-Follows s k x ttl now default_ttl old j other).entry v
  ]

  pub delete_marked-Current :
      (s : Shard K V) (k j : K) (n : ℕ)
      → Current (get j s.backend) n
      → Current (get j (delete_marked true k s).1.backend) n
  delete_marked-Current s k j n v = elim (◌≟◌ k j) [
    | yes same ↦
        subst (λ i. Current (get i (delete_marked true k s).1.backend) n) same
          (rw (backend-delete_marked s true k, get-pop_self k s.backend) tt)
    | no other ↦ Current-SameWrite (get j s.backend) _ n (delete_marked-Follows s k j other).entry v
  ]
