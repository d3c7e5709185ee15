-- ===== src/WriteBack/Sound.antt =====
-- What holds of a job that waits or is under way, and how the operations of a shard keep it.
use cache_system.Prelude.{
  ℕ, suc, ◌+◌, ◌-◌, ◌<◌, ◌≤◌, ◌≡◌, false, Option, none, some, List, [], ◌∷◌, ◌++◌, All, arith, ite,
  ◌∙◌, sym,
}
use cache_system.Dict.{Hashable, ◌≟◌, get}
use cache_system.Dict.Laws.{get-put, get-pop}
use cache_system.Entry.{Entry}
use cache_system.Jobs.{FlushWriteBack, Operation, write}
use cache_system.WriteBack.{or_zero}
use cache_system.WriteBack.Follows.{SameWrite, Follows}
use cache_system.Shard.{Shard, resolve_pending, prune_marks}

module _ {K V : Type 0} where
  -- A job with the version of the entry carries its value.
  abbrev pub WriteOf : Option (Entry K V) → ℕ → Operation V → Type 0
  WriteOf none version o = Unit
  WriteOf (some e) version o = version ≡ e.version → o ≡ write e.value

  -- A clean entry is in the source.
  abbrev pub Clean : Option (Entry K V) → Option V → Type 0
  Clean none stored = Unit
  Clean (some e) stored = e.dirty ≡ false → stored ≡ some e.value

  -- A clean entry has the version of the job in hand.
  abbrev pub Current : Option (Entry K V) → ℕ → Type 0
  Current none version = Unit
  Current (some e) version = e.dirty ≡ false → version ≡ e.version

  pub WriteOf-SameWrite :
      (a b : Option (Entry K V)) (n : ℕ) (o : Operation V)
      → SameWrite a b
      → WriteOf a n o
      → WriteOf b n o
  WriteOf-SameWrite a none n o s w = tt
  WriteOf-SameWrite none (some f) n o s w = absurd s
  WriteOf-SameWrite (some e) (some f) n o s w = λ p. ground (arith, w (p ∙ s.1))

  pub Clean-SameWrite :
      (a b : Option (Entry K V)) (v : Option V) → SameWrite a b → Clean a v → Clean b v
  Clean-SameWrite a none v s w = tt
  Clean-SameWrite none (some f) v s w = absurd s
  Clean-SameWrite (some e) (some f) v s w = λ p. ground (arith, w (sym s.2 ∙ p))

  pub Current-SameWrite :
      (a b : Option (Entry K V)) (n : ℕ) → SameWrite a b → Current a n → Current b n
  Current-SameWrite a none n s w = tt
  Current-SameWrite none (some f) n s w = absurd s
  Current-SameWrite (some e) (some f) n s w = λ p. ground (arith, w (sym s.2 ∙ p))

module _ {K V : Type 0} ⦃h : Hashable K⦄ where
  pub record JobIsSound (s : Shard K V) (job : FlushWriteBack K V) : Type 0 where
    pub known : job.version ≤ or_zero (get job.key s.version_marks)
    pub writes : WriteOf (get job.key s.backend) job.version job.operation

  pub Follows-JobIsSound :
      (s t : Shard K V) (job : FlushWriteBack K V)
      → Follows s t job.key
      → 0 < or_zero (get job.key s.pending_flushes)
      → JobIsSound s job
      → JobIsSound t job
  Follows-JobIsSound s t job f p v = record {
    known = ground (arith, f.mark p, v.known);
    writes = WriteOf-SameWrite (get job.key s.backend) (get job.key t.backend) _ _ f.entry v.writes;
  }

  -- How many of the jobs are for the key.
  unfoldable pub count : K → List (FlushWriteBack K V) → ℕ
  count k [] = 0
  count k (job ∷ jobs) = let n = count k jobs in ite (◌≟◌ job.key k) (suc n) n

  pub count-append :
      (k : K) (a b : List (FlushWriteBack K V)) → count k (a ++ b) ≡ count k a + count k b
  unfolding count
  count-append k [] b = omega arith
  count-append k (job ∷ a) b = ground (arith, count-append k a b)

  -- No flush under way is left out of the counts of the shard.
  abbrev pub Counted : Shard K V → List (FlushWriteBack K V) → Type 0
  Counted s jobs = (k : K) → count k jobs ≤ or_zero (get k s.pending_flushes)

  -- A job of the list is counted.
  All-count :
      (P : FlushWriteBack K V → Type 0) (xs ys : List (FlushWriteBack K V))
      → ((k : K) → count k xs ≤ count k ys)
      → All P xs
      → All (λ job. P job × (0 < count job.key ys)) xs
  unfolding count
  All-count P [] ys le v = tt
  All-count P (job ∷ xs) ys le v =
      ((v.0, ground (arith, le job.key)), All-count P xs ys (λ k. ground (arith, le k)) v.1)

  pub All-map :
      (P Q : FlushWriteBack K V → Type 0) (xs : List (FlushWriteBack K V))
      → ((job : FlushWriteBack K V) → P job → Q job)
      → All P xs
      → All Q xs
  All-map P Q [] f v = tt
  All-map P Q (job ∷ xs) f v = (f job v.0, All-map P Q xs f v.1)

  -- What a job needs to stay sound may use that its key has a flush under way.
  pub All-sound :
      (s t u : Shard K V) (jobs : List (FlushWriteBack K V))
      → Counted u jobs
      → ((job : FlushWriteBack K V)
          → 0 < or_zero (get job.key u.pending_flushes)
          → JobIsSound s job
          → JobIsSound t job)
      → All (JobIsSound s) jobs
      → All (JobIsSound t) jobs
  All-sound s t u jobs c f v =
      All-map _ (JobIsSound t) jobs (λ job p. f job (omega (arith, c job.key, p.1)) p.0)
        (All-count (JobIsSound s) jobs jobs (λ k. omega arith) v)

  module _ (s : Shard K V) (k : K) where
    pub backend-resolve_pending : (resolve_pending k s).backend ≡ s.backend
    unfolding resolve_pending prune_marks
    backend-resolve_pending = ground arith

    pub pending-resolve_pending :
        (j : K)
        → or_zero (get j (resolve_pending k s).pending_flushes)
          ≡ ite
              (◌≟◌ k j)
              (or_zero (get j s.pending_flushes) - 1)
              (or_zero (get j s.pending_flushes))
    unfolding resolve_pending prune_marks
    pending-resolve_pending j = ground (
      arith,
      get-put k j (or_zero (get k s.pending_flushes) - 1) s.pending_flushes,
      get-pop k j s.pending_flushes,
    )

    -- The end of a flush takes nothing from a key that has another flush under way.
    pub resolve_pending-JobIsSound :
        (job : FlushWriteBack K V)
        → 0 < or_zero (get job.key (resolve_pending k s).pending_flushes)
        → JobIsSound s job
        → JobIsSound (resolve_pending k s) job
    resolve_pending-JobIsSound job p v = record {
      known =
          unfold resolve_pending prune_marks in
          ground (
            arith,
            v.known,
            p,
            get-put k job.key (or_zero (get k s.pending_flushes) - 1) s.pending_flushes,
            get-pop k job.key s.pending_flushes,
            get-pop k job.key s.version_marks,
          );
      writes = rw backend-resolve_pending v.writes;
    }
