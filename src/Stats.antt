-- ===== src/Stats.antt =====
-- src/cachelab/core/stats.py: the counters of a shard, and the snapshots that `stats()` returns.
use cache_system.Prelude.{ℕ, String, List}

pub record MutableStats : Type 0 where
  pub hits : ℕ
  pub misses : ℕ
  pub puts : ℕ
  pub deletes : ℕ
  pub evictions : ℕ
  pub expirations : ℕ

abbrev pub zero_stats : MutableStats
zero_stats = record { hits = 0; misses = 0; puts = 0; deletes = 0; evictions = 0; expirations = 0 }

pub record PolicyStatsSnapshot : Type 0 where
  pub name : String
  pub evictions : ℕ
  pub tracked_keys : ℕ
  pub metadata_size : ℕ

pub record ShardStatsSnapshot : Type 0 where
  pub index : ℕ
  pub size : ℕ
  pub capacity : ℕ
  pub hits : ℕ
  pub misses : ℕ
  pub puts : ℕ
  pub deletes : ℕ
  pub evictions : ℕ
  pub expirations : ℕ
  pub lock_contention : ℕ
  pub policy : PolicyStatsSnapshot

-- The ratio of hits is kept as the two numbers that it is the quotient of.
pub record CacheStatsSnapshot : Type 0 where
  pub hits : ℕ
  pub misses : ℕ
  pub hit_ratio : ℕ × ℕ
  pub puts : ℕ
  pub deletes : ℕ
  pub evictions : ℕ
  pub expirations : ℕ
  pub size : ℕ
  pub capacity : ℕ
  pub queue_depth : ℕ
  pub queue_dropped : ℕ
  pub worker_jobs_completed : ℕ
  pub worker_jobs_failed : ℕ
  pub write_back_retries : ℕ
  pub stale_write_back_jobs_skipped : ℕ
  pub flush_failures : ℕ
  pub shutdown_flush_failures : ℕ
  pub shards : List ShardStatsSnapshot
