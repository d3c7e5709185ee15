-- ===== src/Cache/Stats.antt =====
-- `stats()`: one snapshot of each shard, and their sums.
use cache_system.Prelude.{ℕ, ◌+◌, List, map, sum}
use cache_system.Dict.{size}
use cache_system.Stats.{ShardStatsSnapshot, CacheStatsSnapshot}
use cache_system.Policy
use cache_system.Queue
use cache_system.Shard.{Shard}
use cache_system.Cache.{Cache}

abbrev total : (ShardStatsSnapshot → ℕ) → List ShardStatsSnapshot → ℕ
total f l = sum (map f l)

module _ {K V : Type 0} where
  unfoldable pub shard_snapshot : Shard K V → ShardStatsSnapshot
  shard_snapshot s = record {
    index = s.index;
    size = size s.backend;
    capacity = s.capacity;
    hits = s.stats.hits;
    misses = s.stats.misses;
    puts = s.stats.puts;
    deletes = s.stats.deletes;
    evictions = s.stats.evictions;
    expirations = s.stats.expirations;
    lock_contention = s.contentions;
    policy = record {
      name = Policy.name s.policy;
      evictions = s.stats.evictions;
      tracked_keys = Policy.len s.policy;
      metadata_size = Policy.metadata_size s.policy;
    };
  }

  unfoldable pub stats : Cache K V → CacheStatsSnapshot
  stats c =
      let shards : List ShardStatsSnapshot = map shard_snapshot c.shards in
      let hits : ℕ = total (λ s. s.hits) shards in
      record {
        hits = hits;
        misses = total (λ s. s.misses) shards;
        hit_ratio = (hits, hits + total (λ s. s.misses) shards);
        puts = total (λ s. s.puts) shards;
        deletes = total (λ s. s.deletes) shards;
        evictions = total (λ s. s.evictions) shards;
        expirations = total (λ s. s.expirations) shards;
        size = total (λ s. s.size) shards;
        capacity = total (λ s. s.capacity) shards;
        queue_depth = Queue.depth c.job_queue;
        queue_dropped = c.job_queue.dropped;
        worker_jobs_completed = c.runtime.worker_jobs_completed;
        worker_jobs_failed = c.runtime.worker_jobs_failed;
        write_back_retries = c.runtime.write_back_retries;
        stale_write_back_jobs_skipped = c.runtime.stale_write_back_jobs_skipped;
        flush_failures = c.runtime.flush_failures;
        shutdown_flush_failures = c.runtime.shutdown_flush_failures;
        shards = shards;
      }
