-- ===== src/Cache/Clear.antt =====
-- `clear`, which a call of the source may leave half-way, and the invariant of the cache.
use cache_system.Prelude.{
  ℕ, zero, suc, ◌+◌, ◌≡◌, Bool, true, some, List, [], ◌∷◌, All-get_elem?, All-set, get_elem?, set,
  arith, Option-cases, inl, inr, get_elem?-set_self, get_elem?-some, ◌∙◌, sym, subst,
}
use cache_system.Exec.{Exec, ◌>>=◌}
use cache_system.Exec.Keeps.{Keeps, Keeps-pure, keeps_rules}
use cache_system.Exec.Triple.{
  Outcome, Triple, Triple-Keeps, Triple-bind, Triple-then, Triple-with_state, Triple-after,
}
use cache_system.Dict.{Hashable, keys, contains}
use cache_system.Dict.Laws.{listed, listed-keys, get-pop}
use cache_system.Source
use cache_system.Config.{WriteMode, cache_only, write_through, write_back}
use cache_system.Policy
use cache_system.Policy.Contract.{clear-IsValid, tracks-clear}
use cache_system.Shard.{Shard}
use cache_system.Shard.Writes.{delete_marked}
use cache_system.Shard.Settled.{IsSettled, delete_marked-IsSettled, backend-delete_marked}
use cache_system.Cache.{Cache, with_shard, change_shard, with_source, is_write_back}
use cache_system.Cache.Access.{delete_source, clear_keys, clear_shards, clear}
use cache_system.Cache.Invariant.{
  IsValid, with_source-Keeps, require_not_closed-Keeps, enqueue_flush_jobs-Keeps,
}

module _ {K V : Type 0} ⦃h : Hashable K⦄ where
  -- Every entry of the shard is one that the loop has yet to visit.
  Covered : List K → Shard K V → Type 0
  Covered ks s = (k : K) → contains k s.backend ≡ true → listed k ks ≡ true

  record Clearing (i : ℕ) (ks : List K) (c : Cache K V) : Type 0 where
    valid : IsValid c
    covered : (s : Shard K V) → get_elem? c.shards i ≡ some s → Covered ks s

  delete_marked-Covered :
      (s : Shard K V) (b : Bool) (k : K) (ks : List K)
      → Covered (k ∷ ks) s
      → Covered ks (delete_marked b k s).1
  unfolding Covered listed
  delete_marked-Covered s b k ks v j e =
      ground (arith, v j, backend-delete_marked s b k, get-pop k j s.backend)

  delete_source-Clearing :
      (i : ℕ) (ks : List K) (m : WriteMode) (k : K)
      → Keeps (Clearing i ks) (delete_source {V = V} m k)
  unfolding delete_source with_source
  delete_source-Clearing i ks write_through k = record {
    at = λ c v. record {
      valid = (with_source-Keeps (Source.delete_value k)).at c v.valid;
      covered = v.covered;
    };
  }
  delete_source-Clearing i ks cache_only k = Keeps-pure tt
  delete_source-Clearing i ks write_back k = Keeps-pure tt

  with_shard-Clearing :
      {A : Type 0} (i : ℕ) (ks js : List K) (f : Shard K V → A × Shard K V)
      → ((s : Shard K V) → IsSettled s → Covered ks s → IsSettled (f s).1 × Covered js (f s).1)
      → Triple (Clearing i ks) (with_shard i f) (Clearing i js) IsValid
  with_shard-Clearing {A} i ks js f k = record { at = λ c v. go c v }
    where
      some-inj : {x y : Shard K V} → some x ≡ some y → x ≡ y
      some-inj e = cc

      go :
          (c : Cache K V)
          → Clearing i ks c
          → Outcome (Clearing i js) IsValid (with_shard {A = A} i f c).0 (with_shard i f c).1
      go c v = elim (Option-cases (get_elem? c.shards i)) [
        | inl n ↦ unfold with_shard in rw (n, with_shard) v.valid
        | inr (s, n) ↦
            let (settled, rest) =
              k s (All-get_elem? IsSettled c.shards i s v.valid.shards n) (v.covered s n) in
            let here = get_elem?-set_self c.shards i (f s).1 (get_elem?-some c.shards i s n) in
            unfold with_shard in
            rw (n, with_shard)
              (record {
                valid = record {
                  shards = All-set IsSettled c.shards i (f s).1 v.valid.shards settled;
                  queue = v.valid.queue;
                };
                covered = λ t e. subst (Covered js) (some-inj (sym here ∙ e)) rest;
              })
      ]

  clear_keys-Clearing :
      (i : ℕ) (ks : List K)
      → Triple (Clearing i ks) (clear_keys {V = V} i ks) (Clearing i []) IsValid
  unfolding clear_keys
  clear_keys-Clearing i [] = Triple-Keeps _ (Keeps-pure []) (λ c v. v.valid)
  clear_keys-Clearing i (k ∷ ks) = Triple-with_state _ (λ c.
      Triple-then _ _
        (Triple-Keeps _ (delete_source-Clearing i (k ∷ ks) c.write_mode k) (λ d v. v.valid))
        (Triple-bind _ _
          (with_shard-Clearing i (k ∷ ks) ks (delete_marked (is_write_back c.write_mode) k)
            (λ s v w. (
              delete_marked-IsSettled s (is_write_back c.write_mode) k v,
              delete_marked-Covered s (is_write_back c.write_mode) k ks w,
            )))
          (λ r.
            Triple-bind _ _ (clear_keys-Clearing i ks)
              (λ rest. Triple-Keeps _ (Keeps-pure _) (λ d v. v.valid)))))

  -- The keys of the shard are those that the loop is given.
  keys-Clearing :
      {A : Type 0} (i : ℕ) (f : List K → Exec (Cache K V) A)
      → ((ks : List K) → Triple (Clearing i ks) (f ks) IsValid IsValid)
      → Triple IsValid (with_shard i (λ s. (keys s.backend, s)) >>= f) IsValid IsValid
  unfolding ◌>>=◌
  keys-Clearing {A} i f k = record { at = λ c v. go c v }
    where
      some-inj : {x y : Shard K V} → some x ≡ some y → x ≡ y
      some-inj e = cc

      go :
          (c : Cache K V)
          → IsValid c
          → let m : Exec (Cache K V) A = with_shard i (λ s. (keys s.backend, s)) >>= f in
            Outcome IsValid IsValid (m c).0 (m c).1
      go c v = elim (Option-cases (get_elem? c.shards i)) [
        | inl n ↦ unfold with_shard in rw (n, with_shard) v
        | inr (s, n) ↦
            let here = get_elem?-set_self c.shards i s (get_elem?-some c.shards i s n) in
            unfold with_shard in
            rw (n, with_shard)
              ((k (keys s.backend)).at (record c { shards = set c.shards i s })
                (record {
                  valid = record {
                    shards =
                        All-set IsSettled c.shards i s v.shards
                          (All-get_elem? IsSettled c.shards i s v.shards n);
                    queue = v.queue;
                  };
                  covered = λ t e.
                      subst (Covered (keys s.backend)) (some-inj (sym here ∙ e))
                        (unfold Covered in λ j p. listed-keys j s.backend ∙ p);
                }))
      ]

  emptied-IsSettled :
      (s : Shard K V)
      → IsSettled s
      → Covered [] s
      → IsSettled (record s { policy = Policy.clear s.policy; singleflight = [] })
  unfolding Covered listed
  emptied-IsSettled s v w = record {
    valid = record {
      backend = v.valid.backend;
      policy = clear-IsValid s.policy;
      key = λ k. ground (arith, w k, tracks-clear k s.policy, v.valid.key k);
    };
    bounded = v.bounded;
  }

  emptied-Clearing :
      (i : ℕ)
      → Triple
          (Clearing i [])
          (change_shard {V = V} i
            (λ s. record s { policy = Policy.clear s.policy; singleflight = [] }))
          (Clearing i [])
          IsValid
  unfolding change_shard
  emptied-Clearing i =
      with_shard-Clearing i [] []
        (λ s. (tt, record s { policy = Policy.clear s.policy; singleflight = [] }))
        (λ s v w. (emptied-IsSettled s v w, unfold Covered in w))

  kept : (c : Cache K V) → IsValid c → IsValid c
  kept c v = v

  clear_shard-Triple :
      (i n : ℕ)
      → Keeps IsValid (clear_shards {K = K} {V = V} (i + 1) n)
      → Triple IsValid (clear_shards {K = K} {V = V} i (suc n)) IsValid IsValid
  unfolding clear_shards
  clear_shard-Triple i n ih = keys-Clearing i _ (λ ks.
      Triple-bind _ _ (clear_keys-Clearing i ks) (λ jobs.
        Triple-then _ _ (emptied-Clearing i) (record {
          at = λ c v.
              (Triple-bind {P = IsValid} {Q = IsValid} {E = IsValid} _ _ (Triple-Keeps _ ih kept)
                  (λ rest. Triple-Keeps _ (Keeps-pure _) kept)).at
                c v.valid;
        })))

  clear_shards-Keeps : (i n : ℕ) → Keeps IsValid (clear_shards {K = K} {V = V} i n)
  clear_shards-Keeps i zero = unfold clear_shards in Keeps-pure []
  clear_shards-Keeps i (suc n) = record {
    at = Triple-after _ (clear_shard-Triple i n (clear_shards-Keeps (i + 1) n)) kept;
  }

  pub clear-Keeps : Keeps IsValid (clear {K = K} {V = V})
  unfolding clear
  clear-Keeps =
      search (keeps_rules, require_not_closed-Keeps, clear_shards-Keeps, enqueue_flush_jobs-Keeps)
        depth 12
