-- ===== src/Cache/Delivery/Jobs.antt =====
-- The synchronous flush of one job, and of a list of jobs.
use cache_system.Prelude.{
  ℕ, ◌+◌, ◌≡◌, ◌≢◌, refl, inl, inr, Bool, true, false, ◌||◌, Option, none, some, List, ◌∷◌, arith,
  get_elem?, get_elem?-some, get_elem?-set_self, set, Bool-cases, ◌∙◌, sym, subst, ap,
}
use cache_system.Exec.{Result, ok, err, continue, ◌>>=◌, ◌>>◌, pure}
use cache_system.Dict.{Hashable, Dict, get}
use cache_system.Dict.Laws.{get-put, get-pop, get-put_self}
use cache_system.Entry.{Entry}
use cache_system.Jobs.{FlushWriteBack, Operation, write, delete, unknown}
use cache_system.WriteBack.{is_stale_write_back}
use cache_system.WriteBack.Cleaning.{other_kept}
use cache_system.Shard.{Shard, clear_pending_flushes, prune_marks}
use cache_system.Shard.Settled.{IsSettled, clear_pending_flushes-IsSettled}
use cache_system.Shard.Staleness.{is_stale_write_back_lem}
use cache_system.Cache.{Cache, with_shard, change_shard}
use cache_system.Cache.Flush.{clean_operation, mark_clean, end_flush, flush_sync, flush_sync_all}
use cache_system.Cache.Rounds.{clean_operation-IsSettled}
use cache_system.Cache.Delivery.Tries.{At, Tried, cleaned, wrote, try_flush-Tried}

module _ {K V : Type 0} ⦃h : Hashable K⦄ where
  clear-backend : (k : K) (s : Shard K V) → (clear_pending_flushes k s).backend ≡ s.backend
  unfolding clear_pending_flushes prune_marks
  clear-backend k s = ground arith

  clear-version_marks :
      (k j : K) (s : Shard K V)
      → k ≢ j
      → get j (clear_pending_flushes k s).version_marks ≡ get j s.version_marks
  unfolding clear_pending_flushes prune_marks
  clear-version_marks k j s other = ground (arith, get-pop k j s.version_marks)

  clear-tombstones :
      (k j : K) (s : Shard K V)
      → k ≢ j
      → get j (clear_pending_flushes k s).tombstones ≡ get j s.tombstones
  unfolding clear_pending_flushes prune_marks
  clear-tombstones k j s other = ground (arith, get-pop k j s.tombstones)

  wrote-others : (o : Operation V) (k j : K) (d : Dict K V) → k ≢ j → get j (wrote o k d) ≡ get j d
  wrote-others (write v) k j d other = ground (arith, get-put k j v d)
  wrote-others delete k j d other = ground (arith, get-pop k j d)
  wrote-others (unknown x) k j d other = refl

  mark_clean-own :
      (k : K) (s : Shard K V) (e : Entry K V)
      → get k s.backend ≡ some e
      → get k (mark_clean k e.version s).backend ≡ some (record e { dirty = false })
  unfolding mark_clean
  mark_clean-own k s e n =
      rw (n, mark_clean) (ground (arith, get-put_self k (record e { dirty = false }) s.backend))

  -- What a job makes of the entry of its key, and of the key in the source.
  abbrev pub Own :
      Operation V → ℕ → Bool → Option (Entry K V) → Option (Entry K V) → Option V → Type 0
  Own (write v) version stale (some e) new stored =
      version ≡ e.version → (new ≡ some (record e { dirty = false })) × (stored ≡ some v)
  Own (write v) version stale none new stored = Unit
  Own delete version stale old new stored = (new ≡ old) × (stale ≡ false → stored ≡ none)
  Own (unknown x) version stale old new stored = new ≡ old

  -- A shard whose key has the entry and the marks that it had.
  pub record Same (s t : Shard K V) (j : K) : Type 0 where
    pub entry : get j t.backend ≡ get j s.backend
    pub mark : get j t.version_marks ≡ get j s.version_marks
    pub tombstone : get j t.tombstones ≡ get j s.tombstones

  abbrev pub stale_in : FlushWriteBack K V → Shard K V → Bool
  stale_in job s = is_stale_write_back s.version_marks s.tombstones job

  -- The cache after a job that did not fail.
  pub record Ended (job : FlushWriteBack K V) (s : Shard K V) (d : Dict K V) (c : Cache K V)
      : Type 0 where
    pub shard : Shard K V
    pub found : get_elem? c.shards job.shard_index ≡ some shard
    pub settled : IsSettled shard
    pub others : (j : K) → job.key ≢ j → Same s shard j
    pub sources : (j : K) → job.key ≢ j → get j c.source_backend.entries ≡ get j d
    pub own :
        Own job.operation job.version
          (stale_in job s)
          (get job.key s.backend)
          (get job.key shard.backend)
          (get job.key c.source_backend.entries)

  abbrev pub Ends : FlushWriteBack K V → Shard K V → Dict K V → Result Bool × Cache K V → Type 0
  Ends job s d (ok false, c) = Ended job s d c
  Ends job s d (ok true, c) = Unit
  Ends job s d (err e, c) = Unit

  module _ (job : FlushWriteBack K V) (s : Shard K V) (d : Dict K V) (v : IsSettled s) where
    clean_operation-Same :
        (o : Operation V) (k : K) (n : ℕ) (t : Shard K V) (j : K)
        → k ≢ j
        → Same t (clean_operation o k n t) j
    unfolding mark_clean
    clean_operation-Same (write x) k n t j other = record {
      entry = other_kept k n t j other;
      mark = ground arith;
      tombstone = ground arith;
    }
    clean_operation-Same delete k n t j other = record {
      entry = refl;
      mark = refl;
      tombstone = refl;
    }
    clean_operation-Same (unknown x) k n t j other = record {
      entry = refl;
      mark = refl;
      tombstone = refl;
    }

    Own-stale :
        (o : Operation V) (old : Option (Entry K V)) (stored : Option V)
        → get job.key s.backend ≡ old
        → job.operation ≡ o
        → stale_in job s ≡ true
        → Own o job.version (stale_in job s) old old stored
    Own-stale (write x) none stored n e stale = tt
    Own-stale (write x) (some f) stored n e stale =
        λ p. absurd (ground (arith, is_stale_write_back_lem s job f v.valid n, e, p, stale))
    Own-stale delete old stored n e stale = (refl, λ p. absurd (ground (arith, p, stale)))
    Own-stale (unknown x) old stored n e stale = refl

    Own-cleaned :
        (o : Operation V) (old : Option (Entry K V))
        → get job.key s.backend ≡ old
        → Own o job.version
            (stale_in job s)
            old
            (get job.key (clean_operation o job.key job.version s).backend)
            (get job.key (wrote o job.key d))
    Own-cleaned (write x) none n = tt
    Own-cleaned (write x) (some f) n = λ p. (
      subst (λ u. get job.key (mark_clean job.key u s).backend ≡ some (record f { dirty = false }))
          (sym p) (mark_clean-own job.key s f n),
      get-put_self job.key x d,
    )
    Own-cleaned delete old n = (n, λ p. ground (arith, get-pop job.key job.key d))
    Own-cleaned (unknown x) old n = n

    -- The end of a job: its key has no flush under way any more.
    cleared :
        (t : Shard K V) (f : Dict K V) (c : Cache K V)
        → IsSettled t
        → At job.shard_index t f c
        → ((j : K) → job.key ≢ j → Same s t j)
        → ((j : K) → job.key ≢ j → get j f ≡ get j d)
        → Own job.operation job.version
            (stale_in job s)
            (get job.key s.backend)
            (get job.key t.backend)
            (get job.key f)
        → Ended job s d
            (record c { shards = set c.shards job.shard_index (clear_pending_flushes job.key t) })
    cleared t f c w at others sources own = record {
      shard = clear_pending_flushes job.key t;
      found =
          get_elem?-set_self c.shards job.shard_index _
            (get_elem?-some c.shards job.shard_index t at.0);
      settled = clear_pending_flushes-IsSettled t job.key w;
      others = λ j o. record {
        entry = ap (get j) (clear-backend job.key t) ∙ (others j o).entry;
        mark = clear-version_marks job.key j t o ∙ (others j o).mark;
        tombstone = clear-tombstones job.key j t o ∙ (others j o).tombstone;
      };
      sources = λ j o. ap (get j) at.1 ∙ sources j o;
      own = rw (clear-backend job.key t, at.1) own;
    }

    Tried-Ends :
        (r : Result Bool) (c : Cache K V)
        → Tried job s d (r, c)
        → Ends job s d (continue r (end_flush job) c)
    unfolding ◌>>=◌ ◌>>◌ change_shard with_shard
    Tried-Ends (ok true) c at =
        rw (at.0, with_shard)
          (cleared (cleaned job s d) (wrote job.operation job.key d) c
            (clean_operation-IsSettled job.operation job.key job.version s v) at
            (clean_operation-Same job.operation job.key job.version s)
            (λ j o. wrote-others job.operation job.key j d o)
            (Own-cleaned job.operation (get job.key s.backend) refl))
    Tried-Ends (ok false) c at = rw (at.0, with_shard) tt
    Tried-Ends (err e) c at = tt

    skipped-Ends :
        (c : Cache K V)
        → At job.shard_index s d c
        → is_stale_write_back s.version_marks s.tombstones job ≡ true
        → Ends job s d
            ((change_shard job.shard_index (clear_pending_flushes job.key) >> pure false) c)
    unfolding ◌>>◌ change_shard with_shard
    skipped-Ends c at stale =
        rw (at.0, with_shard)
          (cleared s d c v at (λ j o. record { entry = refl; mark = refl; tombstone = refl })
            (λ j o. refl)
            (Own-stale job.operation (get job.key s.backend) (get job.key d) refl refl stale))

    pub flush_sync-Ends :
        (c : Cache K V) → At job.shard_index s d c → Ends job s d (flush_sync job c)
    unfolding flush_sync ◌>>=◌ ◌>>◌ with_shard
    flush_sync-Ends c at =
        elim (Bool-cases (is_stale_write_back s.version_marks s.tombstones job)) [
          | inl stale ↦ rw (at.0, with_shard, stale) (skipped-Ends _ looked stale)
          | inr fresh ↦
              rw (at.0, with_shard, fresh)
                (Tried-Ends _ _ (try_flush-Tried job s d (job.retries_left + 1) _ looked))
        ]
      where
        looked : At job.shard_index s d (record c { shards = set c.shards job.shard_index s })
        looked = (
          get_elem?-set_self c.shards job.shard_index s
              (get_elem?-some c.shards job.shard_index s at.0),
          at.1,
        )

  -- A loop over the jobs that ends with no failure, after its first job.
  pub flush_sync_all-first :
      (job : FlushWriteBack K V) (jobs : List (FlushWriteBack K V)) (c : Cache K V)
      → (flush_sync_all (job ∷ jobs) c).0 ≡ ok false
      → ((flush_sync job c).0 ≡ ok false)
        × ((flush_sync_all jobs (flush_sync job c).1).0 ≡ ok false)
        × ((flush_sync_all (job ∷ jobs) c).1 ≡ (flush_sync_all jobs (flush_sync job c).1).1)
  unfolding flush_sync_all ◌>>=◌
  flush_sync_all-first job jobs c e = go (flush_sync job c).0 e
    where
      last :
          (b : Bool) (r : Result Bool) (d : Cache K V)
          → (continue r (λ rest. pure (b || rest)) d).0 ≡ ok false
          → (b ≡ false) × (r ≡ ok false) × ((continue r (λ rest. pure (b || rest)) d).1 ≡ d)
      last false (ok false) d p = (refl, refl, refl)
      last false (ok true) d p = absurd (ground arith)
      last true (ok b) d p = absurd (ground arith)
      last b (err x) d p = absurd (ground arith)

      go :
          (r : Result Bool)
          → (continue r
              (λ failed. flush_sync_all jobs >>= λ rest. pure (failed || rest))
              (flush_sync job c).1).0
            ≡ ok false
          → (r ≡ ok false)
            × ((flush_sync_all jobs (flush_sync job c).1).0 ≡ ok false)
            × ((continue r
                  (λ failed. flush_sync_all jobs >>= λ rest. pure (failed || rest))
                  (flush_sync job c).1).1
                ≡ (flush_sync_all jobs (flush_sync job c).1).1)
      go (ok b) p =
          let (x, y, z) =
            last b (flush_sync_all jobs (flush_sync job c).1).0
              (flush_sync_all jobs (flush_sync job c).1).1 p in
          (ap ok x, y, z)
      go (err x) p = absurd (ground arith)
