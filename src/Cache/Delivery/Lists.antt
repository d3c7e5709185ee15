-- ===== src/Cache/Delivery/Lists.antt =====
-- The synchronous flush of jobs that are for different keys of one shard.
use cache_system.Prelude.{
  ℕ, ◌≡◌, refl, false, Option, none, some, List, [], ◌∷◌, arith, get_elem?, ite, ◌∙◌, sym, subst,
  ap,
}
use cache_system.Exec.{ok, pure}
use cache_system.Dict.{Hashable, ◌≟◌, Dict, get}
use cache_system.Jobs.{FlushWriteBack}
use cache_system.WriteBack.{is_stale_write_back}
use cache_system.Shard.{Shard}
use cache_system.Shard.Settled.{IsSettled}
use cache_system.Cache.{Cache}
use cache_system.Cache.Flush.{flush_sync, flush_sync_all}
use cache_system.Cache.Delivery.Tries.{At}
use cache_system.Cache.Delivery.Jobs.{
  Own, Same, stale_in, Ended, Ends, flush_sync-Ends, flush_sync_all-first,
}

module _ {K V : Type 0} ⦃h : Hashable K⦄ where
  -- The job of a list that is for a key.
  unfoldable pub job_for : K → List (FlushWriteBack K V) → Option (FlushWriteBack K V)
  job_for k [] = none
  job_for k (job ∷ jobs) = ite (◌≟◌ job.key k) (some job) (job_for k jobs)

  -- Jobs for different keys of shard `i`.
  abbrev pub AreApart : ℕ → List (FlushWriteBack K V) → Type 0
  AreApart i [] = Unit
  AreApart i (job ∷ jobs) = (job.shard_index ≡ i) × (job_for job.key jobs ≡ none) × AreApart i jobs

  job_for-key :
      (j : K) (jobs : List (FlushWriteBack K V)) (job : FlushWriteBack K V)
      → job_for j jobs ≡ some job
      → job.key ≡ j
  unfolding job_for
  job_for-key j [] job e = absurd (ground arith)
  job_for-key j (other ∷ jobs) job e = ground (arith, job_for-key j jobs job)

  -- What the jobs made of a key.
  abbrev pub Ran :
      Option (FlushWriteBack K V) → Shard K V → Shard K V → Dict K V → Dict K V → K → Type 0
  Ran none s t d f j = Same s t j × (get j f ≡ get j d)
  Ran (some job) s t d f j =
      Own job.operation job.version (stale_in job s) (get j s.backend) (get j t.backend) (get j f)

  pub record Delivered (i : ℕ) (jobs : List (FlushWriteBack K V)) (s : Shard K V) (d : Dict K V)
      (c : Cache K V) : Type 0 where
    pub shard : Shard K V
    pub found : get_elem? c.shards i ≡ some shard
    pub settled : IsSettled shard
    pub keys : (j : K) → Ran (job_for j jobs) s shard d c.source_backend.entries j

  stale_in-Same :
      (job : FlushWriteBack K V) (s t : Shard K V)
      → Same s t job.key
      → stale_in job t ≡ stale_in job s
  unfolding is_stale_write_back
  stale_in-Same job s t same = ground (arith, same.mark, same.tombstone)

  module _ (s t u : Shard K V) (d f g : Dict K V) (j : K) where
    Ran-after :
        (o : Option (FlushWriteBack K V))
        → ((job : FlushWriteBack K V) → o ≡ some job → job.key ≡ j)
        → Same s t j
        → get j f ≡ get j d
        → Ran o t u f g j
        → Ran o s u d g j
    Ran-after none own same source r = (
      record {
        entry = r.0.entry ∙ same.entry;
        mark = r.0.mark ∙ same.mark;
        tombstone = r.0.tombstone ∙ same.tombstone;
      },
      r.1 ∙ source,
    )
    Ran-after (some job) own same source r =
        subst (λ b. Own job.operation job.version b (get j s.backend) (get j u.backend) (get j g))
          (stale_in-Same job s t (subst (Same s t) (sym (own job refl)) same))
          (subst (λ e. Own job.operation job.version (stale_in job t) e (get j u.backend) (get j g))
            same.entry r)

    Ran-own :
        (job : FlushWriteBack K V)
        → job.key ≡ j
        → Own job.operation job.version
            (stale_in job s)
            (get job.key s.backend)
            (get job.key t.backend)
            (get job.key f)
        → Ran none t u f g j
        → Ran (some job) s u d g j
    Ran-own job e own r =
        subst (λ b. Own job.operation job.version (stale_in job s) (get j s.backend) b (get j g))
          (sym r.0.entry)
          (subst
            (λ b.
              Own job.operation job.version (stale_in job s) (get j s.backend) (get j t.backend) b)
            (sym r.1)
            (subst
              (λ l.
                Own job.operation job.version (stale_in job s) (get l s.backend) (get l t.backend)
                  (get l f))
              e own))

  -- A first job that did not fail, and the jobs after it.
  Delivered-first :
      (i : ℕ) (job : FlushWriteBack K V) (jobs : List (FlushWriteBack K V)) (s : Shard K V)
      (d : Dict K V)
      → (b c : Cache K V) (head : Ended job s d b) → job_for job.key jobs ≡ none
      → Delivered i jobs head.shard b.source_backend.entries c
      → Delivered i (job ∷ jobs) s d c
  unfolding job_for
  Delivered-first i job jobs s d b c head apart rest = record {
    shard = rest.shard;
    found = rest.found;
    settled = rest.settled;
    keys = λ j. at j (◌≟◌ job.key j);
  }
    where
      at :
          (j : K) (is_same : Dec (job.key ≡ j))
          → Ran (ite is_same (some job) (job_for j jobs)) s rest.shard d c.source_backend.entries j
      at j (yes same) =
          Ran-own s head.shard rest.shard d b.source_backend.entries c.source_backend.entries j job
            same head.own
            (subst
              (λ o. Ran o head.shard rest.shard b.source_backend.entries c.source_backend.entries j)
              (subst (λ l. job_for l jobs ≡ none) same apart) (rest.keys j))
      at j (no other) =
          Ran-after s head.shard rest.shard d b.source_backend.entries c.source_backend.entries j
            (job_for j jobs) (λ found e. job_for-key j jobs found e) (head.others j other)
            (head.sources j other) (rest.keys j)

  -- A list whose jobs did not fail: each key is as its job left it.
  pub flush_sync_all-Delivered :
      (i : ℕ) (jobs : List (FlushWriteBack K V)) (s : Shard K V) (d : Dict K V) (c : Cache K V)
      → IsSettled s
      → AreApart i jobs
      → At i s d c
      → (flush_sync_all jobs c).0 ≡ ok false
      → Delivered i jobs s d (flush_sync_all jobs c).1
  unfolding flush_sync_all job_for pure
  flush_sync_all-Delivered i [] s d c v apart at e = record {
    shard = s;
    found = at.0;
    settled = v;
    keys = λ j. (record { entry = refl; mark = refl; tombstone = refl }, ap (get j) at.1);
  }
  flush_sync_all-Delivered i (job ∷ jobs) s d c v apart at e =
      let b = (flush_sync job c).1 in
      let (failed, others, final) = flush_sync_all-first job jobs c e in
      let head : Ended job s d b =
        subst (λ r. Ends job s d (r, b)) failed (flush_sync-Ends job s d v c (rw apart.0 at)) in
      let found : get_elem? b.shards i ≡ some head.shard =
        subst (λ l. get_elem? b.shards l ≡ some head.shard) apart.0 head.found in
      let rest =
        flush_sync_all-Delivered i jobs head.shard b.source_backend.entries b head.settled apart.2
          (found, refl) others in
      subst (Delivered i (job ∷ jobs) s d) (sym final)
        (Delivered-first i job jobs s d b (flush_sync_all jobs b).1 head apart.1 rest)
