-- ===== src/Cache/ReadBack.antt =====
-- `put` and then `get` of the same key.
pub mod Stored
use cache_system.Prelude.{
  ℕ, ◌<◌, ◌%◌, ◌≡◌, refl, inl, inr, Bool, true, false, Option, some, List, [], ◌∷◌, All,
  All-get_elem?, All-set, arith, length, length-set, get_elem?, get_elem?-set_self,
  get_elem?-set_ne, get_elem?-some, set, ℕ_discrete, Option-cases, ◌∙◌, sym, subst, ap,
}
use cache_system.Prelude.Int.{ℤ}
use cache_system.Exec.{
  Exec, Result, ok, err, runtime_error, modify, pure, lift, with_state, ◌>>=◌, ◌>>◌,
}
use cache_system.Exec.Keeps.{
  Keeps, raise_if_same, Keeps-bind, Keeps-then, Keeps-pure, Keeps-raise, Keeps-attempt, Keeps-lift,
  keeps_rules,
}
use cache_system.Exec.Triple.{
  Outcome, Triple, Yields, Triple-Keeps, Triple-bind, Triple-then, Triple-Yields, Triple-frame,
}
use cache_system.Dict.{Hashable, get}
use cache_system.Entry.{Entry}
use cache_system.Jobs.{Ttl, Job, FlushWriteBack, flush_write_back}
use cache_system.Config.{WriteMode, cache_only, write_through, write_back}
use cache_system.Shard.{Shard, resolve_pending, next_version}
use cache_system.Shard.Writes.{existing_entry, put_entry, new_entry}
use cache_system.Shard.Settled.{IsSettled, existing_entry-IsSettled}
use cache_system.Shard.Placement.{is_ordered, put_entry-get}
use cache_system.Shard.View.{
  IsLive, live_value, view, existing_entry-IsLive, new_entry-IsLive, read_value-view,
}
use cache_system.WriteBack.Kind.{existing_entry-SameKind}
use cache_system.WriteBack.Sound.{backend-resolve_pending}
use cache_system.Cache.{
  Cache, StableHash, now, is_closed, is_write_back, shard_for, validate_ttl, with_shard,
  change_shard, with_source, require_not_closed, warn_not_started, enqueue_job, enqueue_critical,
  release_pending, enqueue_flush_jobs, after_enqueue,
}
use cache_system.Cache.Access.{write_source, put_locked, get_value, put_value, or_default}
use cache_system.Cache.Values.Reads.{get_value-found}
use cache_system.Cache.ReadBack.Stored.{
  IsReady, Ready, Shown, Any, check-Ready, warn-Ready, source-Ready, lift-Ready,
  existing_entry-Yields, put_entry-Triple,
}

module _ {K V : Type 0} ⦃h : Hashable K⦄ ⦃stable : StableHash K⦄ where
  module _ (n t : ℕ) (k : K) (v : V) where
    -- What follows the section leaves the value in view.
    Shown-backend :
        (s t' : Shard K V) → t'.backend ≡ s.backend → view t s k ≡ some v → view t t' k ≡ some v
    Shown-backend s t' e w = ap (λ b. live_value t (get k b)) e ∙ w

    release-Shown : (i : ℕ) (j : K) → Keeps (Shown n t k v) (change_shard i (resolve_pending j))
    unfolding change_shard with_shard
    release-Shown i j = record {
      at = λ c x. elim (Option-cases (get_elem? c.shards i)) [
        | inl e ↦ rw (e, with_shard) x
        | inr (s, e) ↦
            rw (e, with_shard)
              (record {
                running = x.running;
                clock = x.clock;
                size = length-set c.shards i _ ∙ x.size;
                shown = elim (ℕ_discrete i (stable.stable_hash k % n)) [
                  | no other ↦
                      (x.shown.0, get_elem?-set_ne c.shards i _ _ other ∙ x.shown.1, x.shown.2)
                  | yes same ↦ (
                    resolve_pending j s,
                    subst
                        (λ l.
                          get_elem? (set c.shards i (resolve_pending j s)) l
                          ≡ some (resolve_pending j s))
                        same (get_elem?-set_self c.shards i _ (get_elem?-some c.shards i s e)),
                    Shown-backend x.shown.0 (resolve_pending j s)
                        (backend-resolve_pending s j ∙ ground (arith, same, e, x.shown.1))
                        x.shown.2,
                  )
                ];
              })
      ];
    }

    enqueue_job-Shown : (job : Job K V) → Keeps (Shown n t k v) (enqueue_job job)
    unfolding enqueue_job
    enqueue_job-Shown job = record {
      at = λ c x. record { running = x.running; clock = x.clock; size = x.size; shown = x.shown };
    }

    enqueue_critical-Shown : (job : Job K V) → Keeps (Shown n t k v) (enqueue_critical job)
    unfolding enqueue_critical
    enqueue_critical-Shown job = search (keeps_rules, enqueue_job-Shown)

    release_pending-Shown :
        (jobs : List (FlushWriteBack K V)) → Keeps (Shown n t k v) (release_pending jobs)
    unfolding release_pending
    release_pending-Shown [] = Keeps-pure tt
    release_pending-Shown (job ∷ jobs) =
        Keeps-then _ _ (release-Shown job.shard_index job.key) (release_pending-Shown jobs)

    enqueue_flush_jobs-Shown :
        (jobs : List (FlushWriteBack K V)) → Keeps (Shown n t k v) (enqueue_flush_jobs jobs)
    unfolding enqueue_flush_jobs
    enqueue_flush_jobs-Shown [] = Keeps-pure tt
    enqueue_flush_jobs-Shown (job ∷ jobs) =
        Keeps-bind _ _ (Keeps-attempt _ (enqueue_critical-Shown (flush_write_back job)))
          (λ r. after r (enqueue_flush_jobs-Shown jobs) (release_pending-Shown (job ∷ jobs)))
      where
        after :
            (r : Result (Unit {0})) {next release : Exec (Cache K V) (Unit {0})}
            → Keeps (Shown n t k v) next
            → Keeps (Shown n t k v) release
            → Keeps (Shown n t k v) (after_enqueue r next release)
        after (ok _) kn kr = kn
        after (err e) kn kr = Keeps-then _ _ kr (Keeps-raise e)

    put_locked-Triple :
        (ttl : Ttl) (c : Cache K V)
        → (Ready n t k v) c
        → Outcome
            (Shown n t k v)
            (Any n t k v)
            (put_locked (stable.stable_hash k % n) k v ttl c).0
            (put_locked (stable.stable_hash k % n) k v ttl c).1
    unfolding put_locked with_state
    put_locked-Triple ttl c r =
        (subst
            (λ (u : ℕ).
              Triple (Ready n t k v)
                (with_shard i (existing_entry k u) >>= λ old.
                  write_source c.write_mode k v
                  >> with_shard i
                      (put_entry k v ttl (is_write_back c.write_mode) u c.config.default_ttl old))
                (Shown n t k v) (Any n t k v))
            (sym r.clock)
            (Triple-Yields _ _ ((existing_entry-Yields n t k v) i) (λ old.
              Triple-then _ _ (Triple-frame (IsLive t old) _ ((source-Ready n t k v) c.write_mode))
                ((put_entry-Triple n t k v) ttl (is_write_back c.write_mode) c.config.default_ttl
                  old)))).at
          c r
      where
        i : ℕ
        i = stable.stable_hash k % n

    put_value-Triple :
        (ttl : Ttl) → Triple (Ready n t k v) (put_value k v ttl) (Shown n t k v) (Any n t k v)
    unfolding put_value with_state shard_for
    put_value-Triple ttl = record {
      at = λ c r.
          (Triple-then _ _ (check-Ready n t k v) (
              Triple-then _ _ (warn-Ready n t k v) (
                Triple-then _ _ ((lift-Ready n t k v) (validate_ttl ttl)) (
                  Triple-bind _ _
                    (record {
                      at = λ e x.
                          subst
                            (λ l.
                              Outcome (Shown n t k v) (Any n t k v)
                                (put_locked (stable.stable_hash k % l) k v ttl e).0
                                (put_locked (stable.stable_hash k % l) k v ttl e).1)
                            (sym r.size) (put_locked-Triple ttl e x);
                    })
                    (λ version. Triple-Keeps _ (enqueue_flush_jobs-Shown _) (λ e x. tt)))))).at
            c r;
    }

    get_value-Shown : (d : V) (c : Cache K V) → (Shown n t k v) c → (get_value k d c).0 ≡ ok v
    unfolding shard_for
    get_value-Shown d c x =
        get_value-found k d c x.shown.0 x.running
          (ap (λ l. get_elem? c.shards (stable.stable_hash k % l)) x.size ∙ x.shown.1)
        ∙ ap (λ o. ok (or_default o d))
            ((read_value-view x.shown.0 k true true (now c)).0
              ∙ ap (λ u. view u x.shown.0 k) x.clock
              ∙ x.shown.2)

    returned :
        {r : Result (Unit {0})} {c : Cache K V}
        → r ≡ ok tt
        → Outcome (Shown n t k v) (Any n t k v) r c
        → (Shown n t k v) c
    returned {r} {c} e o = subst (λ u. Outcome (Shown n t k v) (Any n t k v) u c) e o

  -- What was put is read back, in every write mode, whatever was in the cache: in a running cache
  -- whose shards are valid, have room for an entry, and evict by LRU or FIFO, a `get` right after a
  -- `put` that returned, of whatever lifetime, returns the value that was put.
  pub get_value-put_value :
      (k : K) (v d : V) (ttl : Ttl) (c : Cache K V)
      → is_closed c.state ≡ false
      → All IsReady c.shards
      → (put_value k v ttl c).0 ≡ ok tt
      → (get_value k d (put_value k v ttl c).1).0 ≡ ok v
  get_value-put_value k v d ttl c running ready e =
      get_value-Shown (length c.shards) (now c) k v d (put_value k v ttl c).1 (
        returned (length c.shards) (now c) k v e (
          (put_value-Triple (length c.shards) (now c) k v ttl).at c
            (record { running = running; clock = refl; size = refl; shards = ready })))
