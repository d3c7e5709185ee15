-- ===== src/Cache/Init.antt =====
-- `Cache.__init__` with an accepted configuration.
use cache_system.Prelude.{ℕ, ◌+◌, false, String, none, List, [], ◌∷◌}
use cache_system.Prelude.Int.{pos_part}
use cache_system.Exec.{Result, ok, err}
use cache_system.Clock.{FakeClock}
use cache_system.Stats.{zero_stats}
use cache_system.Queue
use cache_system.Source.{SlowDict}
use cache_system.Policy.{Policy}
use cache_system.Config.{CacheConfig, WriteMode, parse_write_mode, post_init, make_policy}
use cache_system.Shard.{Shard}
use cache_system.Shard.Capacities.{shard_capacities}
use cache_system.Cache.{Cache, RuntimeStats, created}

abbrev pub zero_runtime : RuntimeStats
zero_runtime = record {
  worker_jobs_completed = 0;
  worker_jobs_failed = 0;
  write_back_retries = 0;
  stale_write_back_jobs_skipped = 0;
  flush_failures = 0;
  shutdown_flush_failures = 0;
}

module _ {K V : Type 0} where
  abbrev pub new_shard : ℕ → ℕ → Policy K → Shard K V
  new_shard index capacity policy = record {
    index = index;
    capacity = capacity;
    backend = [];
    policy = policy;
    contentions = 0;
    stats = zero_stats;
    singleflight = [];
    version_marks = [];
    tombstones = [];
    pending_flushes = [];
  }

  -- One shard for each capacity, with indices from `i` on.
  unfoldable pub new_shards : ℕ → List ℕ → Policy K → List (Shard K V)
  new_shards i [] p = []
  new_shards i (capacity ∷ rest) p = new_shard i capacity p ∷ new_shards (i + 1) rest p

  abbrev pub new_cache : CacheConfig → SlowDict K V → FakeClock → WriteMode → Policy K → Cache K V
  new_cache config source clock mode policy = record {
    config = config;
    write_mode = mode;
    clock = clock;
    source_backend = source;
    shards =
        new_shards 0 (shard_capacities (pos_part config.capacity) (pos_part config.shard_count))
          policy;
    job_queue = Queue.empty (pos_part config.queue_size);
    runtime = zero_runtime;
    last_snapshot = none;
    state = created;
    warned = false;
    workers_started = false;
    scheduler_started = false;
    flights = [];
  }

  -- The three checks in their order; the first that fails raises.
  abbrev pub build :
      CacheConfig
      → SlowDict K V
      → FakeClock
      → Result (Unit {0})
      → Result WriteMode
      → Result (Policy K)
      → Result (Cache K V)
  build config source clock (err e) mode policy = err e
  build config source clock (ok _) (err e) policy = err e
  build config source clock (ok _) (ok mode) (err e) = err e
  build config source clock (ok _) (ok mode) (ok policy) =
      ok (new_cache config source clock mode policy)

  module _ (lower : String → String) where
    unfoldable pub init : CacheConfig → SlowDict K V → FakeClock → Result (Cache K V)
    init config source clock =
        build config source clock (post_init lower config) (parse_write_mode config.write_mode)
          (make_policy lower config.policy)
