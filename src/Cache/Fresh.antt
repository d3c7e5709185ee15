-- ===== src/Cache/Fresh.antt =====
-- The constructor, with whatever policy it was given.
use cache_system.Prelude.{
  ℕ, ◌+◌, ◌≡◌, refl, false, String, inl, inr, List, [], ◌∷◌, All, arith, Bool-cases, length, sum,
  map, ap, sym, subst, ◌∙◌, ◌<◌,
}
use text.Mathlib.Text.{◌==◌}
use cache_system.Exec.{Result, ok, err}
use cache_system.Dict
use cache_system.Dict.{Hashable}
use cache_system.Clock.{FakeClock}
use cache_system.Source.{SlowDict}
use cache_system.Policy.{Policy, lru, fifo, lfu, tracks, clear}
use cache_system.Policy.Ordered
use cache_system.Policy.Lfu
use cache_system.Policy.Contract
use cache_system.Policy.Contract.{clear-IsValid, tracks-clear}
use cache_system.Config.{CacheConfig, WriteMode, parse_write_mode, post_init, make_policy}
use cache_system.Prelude.Int.{pos, pos_part}
use cache_system.Config.Laws.{post_init_sizes}
use cache_system.Shard.Capacities.{
  shard_capacities, sum-shard_capacities, length-shard_capacities, shard_capacities-rooms,
}
use cache_system.Shard.Settled.{IsSettled}
use cache_system.Cache.{Cache}
use cache_system.Cache.Init.{init, build, new_cache, new_shard, new_shards}
use cache_system.Cache.Invariant.{IsValid}

module _ {K : Type 0} (V : Type 0) ⦃h : Hashable K⦄ where
  pub new_shard-IsSettled :
      (i n : ℕ) (p : Policy K)
      → Contract.IsValid p
      → ((k : K) → tracks k p ≡ false)
      → IsSettled (new_shard {V = V} i n p)
  new_shard-IsSettled i n p v e = record {
    valid = record {
      backend = tt;
      policy = v;
      key = λ k.
          unfold Dict.get in record { tracked = e k; marks = inl refl; pruned = inr (inl refl) };
    };
    bounded = omega arith;
  }

  new_shards-All :
      (i : ℕ) (sizes : List ℕ) (p : Policy K)
      → Contract.IsValid p
      → ((k : K) → tracks k p ≡ false)
      → All IsSettled (new_shards {V = V} i sizes p)
  unfolding new_shards
  new_shards-All i [] p v e = tt
  new_shards-All i (n ∷ sizes) p v e =
      (new_shard-IsSettled i n p v e, new_shards-All (i + 1) sizes p v e)

module _ (K : Type 0) ⦃h : Hashable K⦄ where
  -- What `make_policy` returns is valid and tracks no key.
  abbrev IsFresh : Result (Policy K) → Type 0
  IsFresh (ok p) = Contract.IsValid p × ((k : K) → tracks k p ≡ false)
  IsFresh (err e) = Unit

  cleared : (p : Policy K) → IsFresh (ok (clear p))
  cleared p = (clear-IsValid p, λ k. tracks-clear k p)

  make_policy-IsFresh :
      (lower : String → String) (name : String) → IsFresh (make_policy lower {K = K} name)
  unfolding make_policy clear
  make_policy-IsFresh lower name = elim (Bool-cases (lower name == "fifo")) [
    | inl a ↦ rw (a, make_policy) (cleared (fifo Ordered.clear))
    | inr a ↦ elim (Bool-cases (lower name == "lru")) [
      | inl b ↦ rw (a, b, make_policy) (cleared (lru Ordered.clear))
      | inr b ↦ elim (Bool-cases (lower name == "lfu")) [
        | inl c ↦ rw (a, b, c, make_policy) (cleared (lfu Lfu.clear))
        | inr c ↦ rw (a, b, c, make_policy) tt
      ]
    ]
  ]

module _ {K : Type 0} (V : Type 0) where
  capacities-new_shards :
      (i : ℕ) (sizes : List ℕ) (p : Policy K)
      → map (λ s. s.capacity) (new_shards {V = V} i sizes p) ≡ sizes
  unfolding new_shards
  capacities-new_shards i [] p = refl
  capacities-new_shards i (n ∷ sizes) p = ap (λ l. n ∷ l) (capacities-new_shards (i + 1) sizes p)

  length-new_shards :
      (i : ℕ) (sizes : List ℕ) (p : Policy K) → length (new_shards {V = V} i sizes p) ≡ length sizes
  unfolding new_shards
  length-new_shards i [] p = refl
  length-new_shards i (n ∷ sizes) p = omega (arith, length-new_shards (i + 1) sizes p)

  rooms-new_shards :
      (i : ℕ) (sizes : List ℕ) (p : Policy K)
      → All (λ n. 0 < n) sizes
      → All (λ s. 0 < s.capacity) (new_shards {V = V} i sizes p)
  unfolding new_shards
  rooms-new_shards i [] p a = tt
  rooms-new_shards i (n ∷ sizes) p a = (a.0, rooms-new_shards (i + 1) sizes p a.1)

module _ {K V : Type 0} ⦃h : Hashable K⦄ (lower : String → String) where
  -- The shards of a cache divide its capacity, and each has room for an entry.
  abbrev pub HasSizes : CacheConfig → Cache K V → Type 0
  HasSizes config c =
      (config.capacity ≡ pos (sum (map (λ s. s.capacity) c.shards)))
      × (config.shard_count ≡ pos (length c.shards))
      × All (λ s. 0 < s.capacity) c.shards

  abbrev SizedResult : CacheConfig → Result (Cache K V) → Type 0
  SizedResult config (ok c) = HasSizes config c
  SizedResult config (err e) = Unit

  new_cache-HasSizes :
      (config : CacheConfig) (source : SlowDict K V) (clock : FakeClock) (mode : WriteMode)
      (p : Policy K)
      → post_init lower config ≡ ok tt
      → HasSizes config (new_cache config source clock mode p)
  new_cache-HasSizes config source clock mode p e =
      let (positive, fits, capacity, count) = post_init_sizes lower config e in
      let total = pos_part config.capacity in
      let n = pos_part config.shard_count in
      (
        capacity
            ∙ ap pos (
                sym (sum-shard_capacities total n positive)
                ∙ ap sum (sym (capacities-new_shards V 0 (shard_capacities total n) p))),
        count
            ∙ ap pos (
                sym (length-shard_capacities total n)
                ∙ sym (length-new_shards V 0 (shard_capacities total n) p)),
        rooms-new_shards V 0 (shard_capacities total n) p
            (shard_capacities-rooms total n positive fits),
      )

  sized :
      (config : CacheConfig) (source : SlowDict K V) (clock : FakeClock)
      (checked : Result (Unit {0})) (mode : Result WriteMode) (policy : Result (Policy K))
      → post_init lower config ≡ checked
      → SizedResult config (build config source clock checked mode policy)
  sized config source clock (err e) mode policy p = tt
  sized config source clock (ok _) (err e) policy p = tt
  sized config source clock (ok _) (ok mode) (err e) p = tt
  sized config source clock (ok _) (ok mode) (ok policy) p =
      new_cache-HasSizes config source clock mode policy p

  -- The constructor divides the capacity of a configuration that it accepts with nothing lost: the
  -- cache has as many shards as were asked for, their capacities add up to the capacity that was
  -- asked for, and every shard has room for at least one entry.
  pub init-HasSizes :
      (config : CacheConfig) (source : SlowDict K V) (clock : FakeClock) (c : Cache K V)
      → init lower config source clock ≡ ok c
      → (config.capacity ≡ pos (sum (map (λ s. s.capacity) c.shards)))
        × (config.shard_count ≡ pos (length c.shards))
        × All (λ s. 0 < s.capacity) c.shards
  unfolding init
  init-HasSizes config source clock c e = subst (SizedResult config) e (
      sized config source clock (post_init lower config) (parse_write_mode config.write_mode)
        (make_policy lower config.policy) refl)

  -- `Cache.__init__` builds a valid cache, if it accepts the configuration.
  abbrev pub IsValidResult : Result (Cache K V) → Type 0
  IsValidResult (ok c) = IsValid c
  IsValidResult (err e) = Unit

  built :
      (config : CacheConfig) (source : SlowDict K V) (clock : FakeClock)
      (checked : Result (Unit {0})) (mode : Result WriteMode) (policy : Result (Policy K))
      → IsFresh K policy
      → IsValidResult (build config source clock checked mode policy)
  built config source clock (err e) mode policy f = tt
  built config source clock (ok _) (err e) policy f = tt
  built config source clock (ok _) (ok mode) (err e) f = tt
  built config source clock (ok _) (ok mode) (ok p) (v, e) = record {
    shards = new_shards-All V 0 _ p v e;
    queue = record { bounded = ground arith };
  }

  -- The constructor raises, or builds a valid cache.
  pub init-IsValid :
      (config : CacheConfig) (source : SlowDict K V) (clock : FakeClock)
      → IsValidResult (init lower config source clock)
  unfolding init
  init-IsValid config source clock =
      built config source clock (post_init lower config) (parse_write_mode config.write_mode)
        (make_policy lower config.policy) (make_policy-IsFresh K lower config.policy)
