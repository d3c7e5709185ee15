-- ===== src/WriteBack/Cleaning.antt =====
-- The end of `_flush_write_back_job` of core/cache.py, where an entry may lose its dirty flag.
use cache_system.Prelude.{
  ℕ, ◌≡◌, ◌≢◌, refl, false, Option, some, List, arith, inl, inr, sym, subst, Option-cases,
  Bool-cases, ◌==◌,
}
use cache_system.Dict.{Hashable, ◌≟◌, Dict, get}
use cache_system.Dict.Laws.{get-put, get-put_self}
use cache_system.Entry.{Entry}
use cache_system.Jobs.{FlushWriteBack, Operation, write, delete, unknown}
use cache_system.WriteBack.Sound.{WriteOf, Clean, JobIsSound, All-map}
use cache_system.WriteBack.Core.{Core}
use cache_system.WriteBack.Effects.{Written}
use cache_system.Shard.{Shard}
use cache_system.Cache.Flush.{clean_operation, mark_clean}
use cache_system.Cache.Rounds.{clean_operation-IsSettled}

module _ {K V : Type 0} ⦃h : Hashable K⦄ (k : K) (n : ℕ) (s : Shard K V) where
  abbrev cleaned : Shard K V
  cleaned = mark_clean k n s

  same_policy : cleaned.policy ≡ s.policy
  unfolding mark_clean
  same_policy = ground arith

  same_capacity : cleaned.capacity ≡ s.capacity
  unfolding mark_clean
  same_capacity = ground arith

  same_marks : cleaned.version_marks ≡ s.version_marks
  unfolding mark_clean
  same_marks = ground arith

  same_pending : cleaned.pending_flushes ≡ s.pending_flushes
  unfolding mark_clean
  same_pending = ground arith

  pub other_kept : (j : K) → k ≢ j → get j cleaned.backend ≡ get j s.backend
  unfolding mark_clean
  other_kept j other = elim (Option-cases (get k s.backend)) [
    | inl m ↦ rw (m, mark_clean) refl
    | inr (e, m) ↦
        rw (m, mark_clean) (ground (arith, get-put k j (record e { dirty = false }) s.backend))
  ]

  own-WriteOf :
      (m : ℕ) (o : Operation V)
      → WriteOf (get k s.backend) m o
      → WriteOf (get k cleaned.backend) m o
  unfolding mark_clean
  own-WriteOf m o w = elim (Option-cases (get k s.backend)) [
    | inl l ↦ rw (l, mark_clean, l) tt
    | inr (e, l) ↦ elim (Bool-cases (e.version == n)) [
      | inl same ↦
          rw (l, mark_clean, same, get-put_self k (record e { dirty = false }) s.backend)
            (cast_written e l)
      | inr other ↦ rw (l, mark_clean, other, l) (cast_written e l)
    ]
  ]
    where
      cast_written : (e : Entry K V) → get k s.backend ≡ some e → m ≡ e.version → o ≡ write e.value
      cast_written e l = subst (λ a. WriteOf a m o) l w

  own-Clean :
      (x : V) (stored : Option V)
      → WriteOf (get k s.backend) n (write x)
      → Clean (get k s.backend) stored
      → stored ≡ some x
      → Clean (get k cleaned.backend) stored
  unfolding mark_clean
  own-Clean x stored w c done = elim (Option-cases (get k s.backend)) [
    | inl l ↦ rw (l, mark_clean, l) tt
    | inr (e, l) ↦ elim (Bool-cases (e.version == n)) [
      | inl same ↦
          rw (l, mark_clean, same, get-put_self k (record e { dirty = false }) s.backend)
            (λ p. ground (arith, done, subst (λ a. WriteOf a n (write x)) l w (ground arith)))
      | inr other ↦ rw (l, mark_clean, other, l) (subst (λ a. Clean a stored) l c)
    ]
  ]

module _ {K V : Type 0} ⦃h : Hashable K⦄ (s : Shard K V) (source : Dict K V) where
  mark_clean-JobIsSound :
      (k : K) (n : ℕ) (job : FlushWriteBack K V)
      → JobIsSound s job
      → JobIsSound (mark_clean k n s) job
  mark_clean-JobIsSound k n job v = record {
    known = rw (same_marks k n s) v.known;
    writes = elim (◌≟◌ k job.key) [
      | yes same ↦
          subst (λ j. WriteOf (get j (mark_clean k n s).backend) job.version job.operation) same
            (own-WriteOf k n s job.version job.operation (
              subst (λ j. WriteOf (get j s.backend) job.version job.operation) (sym same) v.writes))
      | no other ↦ rw (other_kept k n s job.key other) v.writes
    ];
  }

  mark_clean-Core :
      (k : K) (n : ℕ) (x : V) (jobs : List (FlushWriteBack K V))
      → WriteOf (get k s.backend) n (write x)
      → get k source ≡ some x
      → Core s source jobs
      → Core (mark_clean k n s) source jobs
  mark_clean-Core k n x jobs w done c = record {
    settled = clean_operation-IsSettled (write x) k n s c.settled;
    ordered = rw (same_policy k n s) c.ordered;
    room = rw (same_capacity k n s) c.room;
    clean = λ j. elim (◌≟◌ k j) [
      | yes same ↦
          subst (λ i. Clean (get i (mark_clean k n s).backend) (get i source)) same
            (own-Clean k n s x (get k source) w (c.clean k) done)
      | no other ↦ rw (other_kept k n s j other) (c.clean j)
    ];
    sound =
        All-map (JobIsSound s) (JobIsSound (mark_clean k n s)) jobs (mark_clean-JobIsSound k n)
          c.sound;
    counted = λ j. rw (same_pending k n s) (c.counted j);
  }

  -- A write that the source has made.
  pub clean_operation-Core :
      (o : Operation V) (k : K) (n : ℕ) (jobs : List (FlushWriteBack K V))
      → WriteOf (get k s.backend) n o
      → Written o (get k source)
      → Core s source jobs
      → Core (clean_operation o k n s) source jobs
  clean_operation-Core (write x) k n jobs w done c = mark_clean-Core k n x jobs w done c
  clean_operation-Core delete k n jobs w done c = c
  clean_operation-Core (unknown x) k n jobs w done c = c
