-- ===== src/Shard.antt =====
-- src/cachelab/concurrency/shards.py, and the methods of core/cache.py that work on one shard
-- under its lock.
pub mod Capacities
pub mod Writes
pub mod Invariant
pub mod Eviction
pub mod Preserves
pub mod Settled
pub mod Reads
pub mod View
pub mod LeastUsed
pub mod Staleness
pub mod Placement
pub mod Expiry
use cache_system.Prelude.{
  ℕ, zero, suc, ◌+◌, ◌-◌, Bool, true, false, Option, none, some, List, [], ◌∷◌, map, ltb, is_some,
  ◌&&◌, if◌then◌else◌,
}
use cache_system.Prelude.Int.{ℤ, pos_part, is_nonpositive}
use cache_system.Dict.{Hashable, Dict, get, put, pop, contains, values, size}
use cache_system.Entry.{Entry, is_expired, touch}
use cache_system.Stats.{MutableStats}
use cache_system.Policy
use cache_system.Policy.{Policy}
use cache_system.Jobs.{Ttl, unset, never, seconds}
use cache_system.WriteBack.{or_zero}

pub record Shard (K V : Type 0) : Type 0 where
  pub index : ℕ
  pub capacity : ℕ
  pub backend : Dict K (Entry K V)
  pub policy : Policy K
  -- the counter of the lock, which other threads advance
  pub contentions : ℕ
  pub stats : MutableStats
  -- the flights under way, by their place in the store of flights
  pub singleflight : Dict K ℕ
  pub version_marks : Dict K ℕ
  pub tombstones : Dict K ℕ
  pub pending_flushes : Dict K ℕ

pub data Reason : Type 0 where
  evict expire delete : Reason

-- The counter of a removal; a deletion is counted by its caller.
abbrev pub count_removal : Reason → MutableStats → MutableStats
count_removal evict s = record s { evictions = s.evictions + 1 }
count_removal expire s = record s { expirations = s.expirations + 1 }
count_removal delete s = s

abbrev pub count_hit : Bool → MutableStats → MutableStats
count_hit counted s = if counted then record s { hits = s.hits + 1 } else s

abbrev pub count_miss : Bool → MutableStats → MutableStats
count_miss counted s = if counted then record s { misses = s.misses + 1 } else s

module _ {K V : Type 0} ⦃h : Hashable K⦄ where
  unfoldable pub next_version : K → Shard K V → ℕ × Shard K V
  next_version k s =
      let version : ℕ = or_zero (get k s.version_marks) + 1 in
      (version, record s { version_marks = put k version s.version_marks })

  -- `_maybe_prune_marks_locked`
  unfoldable pub prune_marks : K → Shard K V → Shard K V
  prune_marks k s =
      if ltb 0 (or_zero (get k s.pending_flushes))
      then s
      else if contains k s.backend
      then s
      else record s { version_marks = pop k s.version_marks; tombstones = pop k s.tombstones }

  -- `_register_pending_locked`
  unfoldable pub register_pending : K → Shard K V → Shard K V
  register_pending k s = record s {
    pending_flushes = put k (or_zero (get k s.pending_flushes) + 1) s.pending_flushes;
  }

  abbrev count_flush : K → ℕ → Shard K V → Shard K V
  count_flush k zero s = record s { pending_flushes = pop k s.pending_flushes }
  count_flush k (suc n) s = record s { pending_flushes = put k (suc n) s.pending_flushes }

  -- `_resolve_pending_locked`
  unfoldable pub resolve_pending : K → Shard K V → Shard K V
  resolve_pending k s = prune_marks k (count_flush k (or_zero (get k s.pending_flushes) - 1) s)

  -- `_clear_pending_flushes_locked`
  unfoldable pub clear_pending_flushes : K → Shard K V → Shard K V
  clear_pending_flushes k s = prune_marks k (count_flush k 0 s)

  -- `_remove_entry_locked`
  unfoldable pub remove_entry : K → Reason → Shard K V → Bool × Shard K V
  remove_entry k reason s =
      let removed : Bool = contains k s.backend in
      (
        removed,
        prune_marks k (record s {
          backend = pop k s.backend;
          policy = Policy.on_delete k s.policy;
          stats = if removed then count_removal reason s.stats else s.stats;
        }),
      )

  -- `_read_value_locked`
  unfoldable pub read_value : K → Bool → Bool → ℕ → Shard K V → Option V × Shard K V
  read_value k touched counted now s = elim (get k s.backend) [
    | none ↦ (none, record s { stats = count_miss counted s.stats })
    | some e ↦
        if is_expired e now
        then (let gone : Shard K V = (remove_entry k expire s).1 in
            (none, record gone { stats = count_miss counted gone.stats }))
        else (
          some e.value,
          record s {
            backend = if touched then put k (touch e now) s.backend else s.backend;
            policy = if touched then Policy.on_get k s.policy else s.policy;
            stats = count_hit counted s.stats;
          },
        )
  ]

  -- `_enforce_capacity_locked`: each round removes an entry, so as many rounds as there are entries
  -- are enough.
  unfoldable pub enforce_capacity : ℕ → Shard K V → Shard K V
  enforce_capacity zero s = s
  enforce_capacity (suc fuel) s =
      if ltb s.capacity (size s.backend)
      then elim (Policy.evict_candidate s.policy) [
        | none ↦ s
        | some k ↦ enforce_capacity fuel (remove_entry k evict s).1
      ]
      else s
