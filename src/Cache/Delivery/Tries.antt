-- ===== src/Cache/Delivery/Tries.antt =====
-- The attempts of the synchronous flush at one job.
use cache_system.Prelude.{
  ℕ, zero, suc, ◌≡◌, refl, inl, inr, Bool, true, false, some, arith, get_elem?, get_elem?-some,
  get_elem?-set_self, ltb, Bool-cases, ◌∙◌, ap,
}
use cache_system.Exec.{Exec, Result, ok, err, ◌>>=◌, ◌>>◌}
use cache_system.Dict.{Hashable, Dict, put, pop}
use cache_system.Jobs.{FlushWriteBack, Operation, write, delete, unknown}
use cache_system.Source
use cache_system.Source.{SlowDict, delay_and_fail, delay_only}
use cache_system.WriteBack.{apply_write_back, apply_operation}
use cache_system.WriteBack.Effects.{after, failed_kept}
use cache_system.Shard.{Shard}
use cache_system.Cache.{Cache, with_source, with_shard, change_shard}
use cache_system.Cache.Flush.{clean_operation, after_try, try_flush}

module _ {K V : Type 0} ⦃h : Hashable K⦄ where
  -- The source after a call that returned.
  abbrev pub wrote : Operation V → K → Dict K V → Dict K V
  wrote (write v) k d = put k v d
  wrote delete k d = pop k d
  wrote (unknown s) k d = d

  applied_wrote :
      (src : SlowDict K V) (k : K) (o : Operation V)
      → (apply_operation o k src).0 ≡ ok tt
      → (after src k o).entries ≡ wrote o k src.entries
  unfolding Source.put_value Source.delete_value delay_and_fail ◌>>◌
  applied_wrote src k (write v) e = ground arith
  applied_wrote src k delete e = ground arith
  applied_wrote src k (unknown s) e = refl

  -- A shard of a cache, and its source.
  abbrev pub At : ℕ → Shard K V → Dict K V → Cache K V → Type 0
  At i s d c = (get_elem? c.shards i ≡ some s) × (c.source_backend.entries ≡ d)

  module _ (job : FlushWriteBack K V) (s : Shard K V) (d : Dict K V) where
    abbrev pub cleaned : Shard K V
    cleaned = clean_operation job.operation job.key job.version s

    -- The last attempt succeeded, or none did.
    abbrev pub Tried : Result Bool × Cache K V → Type 0
    Tried (ok true, c) = At job.shard_index cleaned (wrote job.operation job.key d) c
    Tried (ok false, c) = At job.shard_index s d c
    Tried (err e, c) = Unit

    abbrev Called : Result (Unit {0}) → Cache K V → Type 0
    Called (ok _) c = At job.shard_index s (wrote job.operation job.key d) c
    Called (err e) c = At job.shard_index s d c

    after_try-Tried :
        (n : ℕ) (again : Exec (Cache K V) Bool) (r : Result (Unit {0})) (c : Cache K V)
        → ((b : Cache K V) → At job.shard_index s d b → Tried (again b))
        → Called r c
        → Tried (after_try job n again r c)
    unfolding after_try change_shard with_shard ◌>>◌
    after_try-Tried n again (ok _) c ih called =
        rw (called.0, with_shard)
          (
            get_elem?-set_self c.shards job.shard_index cleaned
                (get_elem?-some c.shards job.shard_index s called.0),
            called.1,
          )
    after_try-Tried n again (err e) c ih called = elim (Bool-cases (ltb 0 n)) [
      | inl more ↦ rw more (ih _ called)
      | inr last ↦ rw last (ih c called)
    ]

    called :
        (c : Cache K V)
        → At job.shard_index s d c
        → Called
            (apply_write_back job c.source_backend).0
            (record c { source_backend = (apply_write_back job c.source_backend).1 })
    unfolding apply_write_back
    called c at = go (apply_operation job.operation job.key c.source_backend).0 refl
      where
        go :
            (r : Result (Unit {0}))
            → (apply_operation job.operation job.key c.source_backend).0 ≡ r
            → Called r (record c { source_backend = after c.source_backend job.key job.operation })
        go (ok u) e = (
          at.0,
          applied_wrote c.source_backend job.key job.operation e
              ∙ ap (wrote job.operation job.key) at.1,
        )
        go (err x) e = (at.0, failed_kept c.source_backend job.key job.operation x e ∙ at.1)

    pub try_flush-Tried :
        (n : ℕ) (c : Cache K V) → At job.shard_index s d c → Tried (try_flush job n c)
    unfolding try_flush with_source ◌>>=◌
    try_flush-Tried zero c at = at
    try_flush-Tried (suc n) c at =
        after_try-Tried n (try_flush job n) _ _ (try_flush-Tried n) (called c at)
