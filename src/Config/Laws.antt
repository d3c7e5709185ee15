-- ===== src/Config/Laws.antt =====
-- What an accepted configuration guarantees to the cache that is built from it.
use text.Mathlib.Text.{◌==◌}
use cache_system.Prelude.{◌≤◌, ◌<◌, ◌≡◌, refl, inl, inr, true, ◌||◌, String, arith, Bool-cases}
use cache_system.Prelude.Int.{pos, pos_part}
use cache_system.Exec.{ok}
use cache_system.Policy.{Policy, lru, fifo, lfu}
use cache_system.Policy.Ordered
use cache_system.Policy.Lfu
use cache_system.Config.{
  CacheConfig, WriteMode, cache_only, write_through, write_back, parse_write_mode, post_init,
  make_policy,
}

module _ (lower : String → String) where
  -- In an accepted configuration the shard count is positive and at most the capacity, and both
  -- are what the cache reads them as.
  pub post_init_sizes :
      (c : CacheConfig)
      → post_init lower c ≡ ok tt
      → (0 < pos_part c.shard_count)
        × (pos_part c.shard_count ≤ pos_part c.capacity)
        × (c.capacity ≡ pos (pos_part c.capacity))
        × (c.shard_count ≡ pos (pos_part c.shard_count))
  unfolding post_init
  post_init_sizes c h = (ground arith, ground arith, ground arith, ground arith)

  accepted_mode :
      (s : String)
      → (s == "cache-only" || s == "write-through" || s == "write-back") ≡ true
      → (mode : WriteMode) × (parse_write_mode s ≡ ok mode)
  unfolding parse_write_mode
  accepted_mode s e = elim (Bool-cases (s == "cache-only")) [
    | inl a ↦ (cache_only, rw (a, parse_write_mode) refl)
    | inr a ↦ elim (Bool-cases (s == "write-through")) [
      | inl b ↦ (write_through, rw (a, b, parse_write_mode) refl)
      | inr b ↦ elim (Bool-cases (s == "write-back")) [
        | inl d ↦ (write_back, rw (a, b, d, parse_write_mode) refl)
        | inr d ↦ absurd (ground arith)
      ]
    ]
  ]

  accepted_policy :
      (K : Type 0) (s : String)
      → (lower s == "lru" || lower s == "lfu" || lower s == "fifo") ≡ true
      → (policy : Policy K) × (make_policy lower {K = K} s ≡ ok policy)
  unfolding make_policy
  accepted_policy K s e = elim (Bool-cases (lower s == "fifo")) [
    | inl a ↦ (fifo Ordered.clear, rw (a, make_policy) refl)
    | inr a ↦ elim (Bool-cases (lower s == "lru")) [
      | inl b ↦ (lru Ordered.clear, rw (a, b, make_policy) refl)
      | inr b ↦ elim (Bool-cases (lower s == "lfu")) [
        | inl d ↦ (lfu Lfu.clear, rw (a, b, d, make_policy) refl)
        | inr d ↦ absurd (ground arith)
      ]
    ]
  ]

  -- Of an accepted configuration, the write mode and the policy are known to the two functions that
  -- read them after the check: neither raises.
  pub post_init_names :
      (K : Type 0) (c : CacheConfig)
      → post_init lower c ≡ ok tt
      → ((mode : WriteMode) × (parse_write_mode c.write_mode ≡ ok mode))
        × ((policy : Policy K) × (make_policy lower {K = K} c.policy ≡ ok policy))
  unfolding post_init
  post_init_names K c e =
      (accepted_mode c.write_mode (ground arith), accepted_policy K c.policy (ground arith))
