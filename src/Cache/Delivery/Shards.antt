-- ===== src/Cache/Delivery/Shards.antt =====
-- The jobs of a shard at shutdown, one for each dirty entry and each tombstone.
use cache_system.Prelude.{
  ℕ, ◌≡◌, ◌⊎◌, refl, Bool, true, false, Option, none, some, List, [], ◌∷◌, ◌++◌, arith, get_elem?,
  if◌then◌else◌, ◌∙◌, subst,
}
use cache_system.Exec.{ok}
use cache_system.Dict.{Hashable, Dict, get, values, IsDict}
use cache_system.Entry.{Entry}
use cache_system.Jobs.{FlushWriteBack, write, delete}
use cache_system.WriteBack.{is_stale_write_back}
use cache_system.Shard.{Shard}
use cache_system.Shard.Settled.{IsSettled}
use cache_system.Cache.{Cache}
use cache_system.Cache.Access.{flush_job}
use cache_system.Cache.Flush.{dirty_jobs, tombstone_jobs, jobs_of, flush_sync_all}
use cache_system.Cache.Delivery.Jobs.{Own, stale_in}
use cache_system.Cache.Delivery.Lists.{job_for, AreApart, Ran, Delivered, flush_sync_all-Delivered}

module _ {K V : Type 0} ⦃h : Hashable K⦄ where
  -- What a flush makes of a key with this entry and this tombstone: its entry, and what the source
  -- holds of it.
  abbrev pub Landed :
      Option (Entry K V) → Option ℕ → Option (Entry K V) → Option V → Option V → Type 0
  Landed (some e) tombstone new stored now =
      (new ≡ some (record e { dirty = false })) × (now ≡ (if e.dirty then some e.value else stored))
  Landed none (some n) new stored now = (new ≡ none) × (now ≡ none)
  Landed none none new stored now = (new ≡ none) × (now ≡ stored)

  job_for-append :
      (j : K) (l m : List (FlushWriteBack K V))
      → job_for j (l ++ m) ≡ elim (job_for j l) [ none ↦ job_for j m | some x ↦ some x ]
  unfolding job_for
  job_for-append j [] m = refl
  job_for-append j (x ∷ l) m = ground (arith, job_for-append j l m)

  append-AreApart :
      (i : ℕ) (l m : List (FlushWriteBack K V))
      → ((j : K) → (job_for j l ≡ none) ⊎ (job_for j m ≡ none))
      → AreApart i l
      → AreApart i m
      → AreApart i (l ++ m)
  unfolding job_for
  append-AreApart i [] m p al am = am
  append-AreApart i (x ∷ l) m p al am = (
    al.0,
    ground (arith, job_for-append x.key l m, al.1, p x.key),
    append-AreApart i l m (λ j. ground (arith, p j)) al.2 am,
  )

  module _ (c : Cache K V) (i : ℕ) where
    -- The job of an entry, and that of a tombstone.
    abbrev entry_job : Option (Entry K V) → Option (FlushWriteBack K V)
    entry_job none = none
    entry_job (some e) =
        if e.dirty then some (flush_job c i e.key (write e.value) e.version) else none

    abbrev tombstone_job : K → Option ℕ → Option (FlushWriteBack K V)
    tombstone_job j none = none
    tombstone_job j (some n) = some (flush_job c i j delete n)

    job_for-dirty_jobs :
        (j : K) (d : Dict K (Entry K V))
        → IsDict d
        → ((k : K) (e : Entry K V) → get k d ≡ some e → e.key ≡ k)
        → job_for j (dirty_jobs c i (values d)) ≡ entry_job (get j d)
    unfolding job_for dirty_jobs get flush_job
    job_for-dirty_jobs j [] u own = refl
    job_for-dirty_jobs j ((k, e) ∷ d) u own =
        let same : e.key ≡ k = own k e (ground arith) in
        let ih = job_for-dirty_jobs j d u.1 (λ l f p. own l f (ground arith)) in
        ground (arith, same, ih, u.0)

    job_for-tombstone_jobs :
        (j : K) (d : Dict K ℕ) → job_for j (tombstone_jobs c i d) ≡ tombstone_job j (get j d)
    unfolding job_for tombstone_jobs get flush_job
    job_for-tombstone_jobs j [] = refl
    job_for-tombstone_jobs j ((k, n) ∷ d) = ground (arith, job_for-tombstone_jobs j d)

    dirty_jobs-AreApart :
        (d : Dict K (Entry K V))
        → IsDict d
        → ((k : K) (e : Entry K V) → get k d ≡ some e → e.key ≡ k)
        → AreApart i (dirty_jobs c i (values d))
    unfolding dirty_jobs get flush_job
    dirty_jobs-AreApart [] u own = tt
    dirty_jobs-AreApart ((k, e) ∷ d) u own =
        let same : e.key ≡ k = own k e (ground arith) in
        let rest = (λ (l : K) (f : Entry K V) (p : get l d ≡ some f). own l f (ground arith)) in
        ground (arith, same, dirty_jobs-AreApart d u.1 rest, job_for-dirty_jobs k d u.1 rest, u.0)

    tombstone_jobs-AreApart : (d : Dict K ℕ) → IsDict d → AreApart i (tombstone_jobs c i d)
    unfolding tombstone_jobs flush_job
    tombstone_jobs-AreApart [] u = tt
    tombstone_jobs-AreApart ((k, n) ∷ d) u =
        (refl, ground (arith, job_for-tombstone_jobs k d, u.0), tombstone_jobs-AreApart d u.1)

    module _ (s : Shard K V) (v : IsSettled s) where
      own : (k : K) (e : Entry K V) → get k s.backend ≡ some e → e.key ≡ k
      own k e n = ground (arith, n, (v.valid.key k).marks)

      jobs_of-AreApart : IsDict s.tombstones → AreApart i (jobs_of c i s)
      unfolding jobs_of
      jobs_of-AreApart u =
          append-AreApart i _ _
            (λ j. ground (
              arith,
              job_for-dirty_jobs j s.backend v.valid.backend own,
              job_for-tombstone_jobs j s.tombstones,
              (v.valid.key j).marks,
            ))
            (dirty_jobs-AreApart s.backend v.valid.backend own)
            (tombstone_jobs-AreApart s.tombstones u)

      job_for-jobs_of :
          (j : K)
          → job_for j (jobs_of c i s) ≡ elim (entry_job (get j s.backend)) [
            | none ↦ tombstone_job j (get j s.tombstones)
            | some x ↦ some x
          ]
      unfolding jobs_of
      job_for-jobs_of j = ground (
        arith,
        job_for-append j (dirty_jobs c i (values s.backend)) (tombstone_jobs c i s.tombstones),
        job_for-dirty_jobs j s.backend v.valid.backend own,
        job_for-tombstone_jobs j s.tombstones,
      )

      buried-fresh :
          (j : K) (n : ℕ)
          → get j s.backend ≡ none
          → get j s.tombstones ≡ some n
          → stale_in (flush_job c i j delete n) s ≡ false
      unfolding flush_job is_stale_write_back
      buried-fresh j n absent buried = ground (arith, absent, buried, (v.valid.key j).marks)

      module _ (t : Shard K V) (d f : Dict K V) (j : K) (e : Entry K V) where
        clean-Landed :
            (tombstone : Option ℕ)
            → get j s.backend ≡ some e
            → get j s.tombstones ≡ tombstone
            → e.dirty ≡ false
            → Ran (tombstone_job j tombstone) s t d f j
            → (get j t.backend ≡ some (record e { dirty = false })) × (get j f ≡ get j d)
        clean-Landed none n m clean r = (r.0.entry ∙ n ∙ ground (arith, clean), r.1)
        clean-Landed (some x) n m clean r = absurd (ground (arith, n, m, (v.valid.key j).marks))

        entry-Landed :
            (tombstone : Option ℕ) (dirty : Bool)
            → get j s.backend ≡ some e
            → get j s.tombstones ≡ tombstone
            → e.dirty ≡ dirty
            → Ran
                (elim (if dirty
                  then some (flush_job c i e.key (write e.value) e.version)
                  else none) [ none ↦ tombstone_job j tombstone | some x ↦ some x ])
                s
                t
                d
                f
                j
            → (get j t.backend ≡ some (record e { dirty = false }))
              × (get j f ≡ (if dirty then some e.value else get j d))
        unfolding flush_job
        entry-Landed tombstone true n m p r =
            (subst
                (λ o.
                  Own (write e.value) e.version
                    (stale_in (flush_job c i e.key (write e.value) e.version) s) o (get j t.backend)
                    (get j f))
                n r)
              refl
        entry-Landed tombstone false n m p r = clean-Landed tombstone n m p r

      -- What a job made of its key.
      Ran-Landed :
          (t : Shard K V) (d f : Dict K V) (j : K) (old : Option (Entry K V)) (tombstone : Option ℕ)
          → get j s.backend ≡ old
          → get j s.tombstones ≡ tombstone
          → Ran
              (elim (entry_job old) [ none ↦ tombstone_job j tombstone | some x ↦ some x ])
              s
              t
              d
              f
              j
          → Landed old tombstone (get j t.backend) (get j d) (get j f)
      unfolding flush_job
      Ran-Landed t d f j none none n m r = (r.0.entry ∙ n, r.1)
      Ran-Landed t d f j none (some x) n m r = (r.0 ∙ n, r.1 (buried-fresh j x n m))
      Ran-Landed t d f j (some e) tombstone n m r =
          entry-Landed t d f j e tombstone e.dirty n m refl r

  -- A shutdown flush that reports no failure has delivered the whole shard. In a settled shard, let
  -- the jobs of its dirty entries and of its tombstones all be tried, retries and stale jobs
  -- included, with no job reported as failed. Then each key that had an entry still has it, no
  -- longer dirty, and the source holds the value of each entry that was dirty; each deleted key
  -- with a tombstone is gone from the source; and of every other key the source holds what it did.
  pub flush_sync_all-jobs_of :
      (i : ℕ) (s : Shard K V) (c : Cache K V)
      → IsSettled s
      → IsDict s.tombstones
      → get_elem? c.shards i ≡ some s
      → (flush_sync_all (jobs_of c i s) c).0 ≡ ok false
      → (t : Shard K V) × (get_elem? (flush_sync_all (jobs_of c i s) c).1.shards i ≡ some t)
        × IsSettled t
        × ((j : K)
            → Landed
                (get j s.backend)
                (get j s.tombstones)
                (get j t.backend)
                (get j c.source_backend.entries)
                (get j (flush_sync_all (jobs_of c i s) c).1.source_backend.entries))
  flush_sync_all-jobs_of i s c v u found e = (
    end.shard,
    end.found,
    end.settled,
    λ j.
        Ran-Landed c i s v end.shard c.source_backend.entries final j (get j s.backend)
          (get j s.tombstones) refl refl
          (subst (λ o. Ran o s end.shard c.source_backend.entries final j)
            (job_for-jobs_of c i s v j) (end.keys j)),
  )
    where
      final : Dict K V
      final = (flush_sync_all (jobs_of c i s) c).1.source_backend.entries

      end :
          Delivered i
            (jobs_of c i s)
            s
            c.source_backend.entries
            (flush_sync_all (jobs_of c i s) c).1
      end =
          flush_sync_all-Delivered i (jobs_of c i s) s c.source_backend.entries c v
            (jobs_of-AreApart c i s v u) (found, refl) e
