-- ===== src/Tests.antt =====
-- Runs of the theorems on a small cache, a queue and a policy.
mod Shards
mod Flushing
mod Commands
mod Locks
mod Requests
mod Reading
mod Callers
mod Tables
use cache_system.Prelude.{
  ℕ, ◌+◌, ◌*◌, ◌%◌, ◌≤◌, ◌<◌, ◌≡◌, ◌⊎◌, refl, inl, inr, Bool, true, false, String, Option, none,
  some, List, [], ◌∷◌, ◌++◌, arith, ite, sum, All, get_elem?, map, length, ℕ_discrete,
  if◌then◌else◌, ltb, ◌/◌,
}
use cache_system.Prelude.Int.{ℤ, pos, pos_part}
use cache_system.Dict
use cache_system.Dict.{◌≟◌, size, pop}
use cache_system.Exec.{Result, ok}
use cache_system.Clock.{FakeClock}
use cache_system.Entry.{Entry, is_expired}
use cache_system.Jobs.{Ttl, unset, seconds, Job, FlushWriteBack, write, delete, snapshot_stats}
use cache_system.Source.{SlowDict}
use cache_system.Queue
use cache_system.Queue.{JobQueue, depth}
use cache_system.Queue.Laws.{put_lem, drain_lem}
use cache_system.WriteBack.{or_zero, is_stale_write_back}
use cache_system.Policy
use cache_system.Policy.{Policy, lru, lfu}
use cache_system.Policy.Contract.{clear-IsValid, tracks-clear}
use cache_system.Policy.Ordered
use cache_system.Policy.Lfu
use cache_system.Policy.Lfu.{Lfu, nat_hashable}
use cache_system.Policy.Lfu.Spec.{least_used, key_of}
use cache_system.Policy.Lfu.History.{
  Event, read, written, removed, after, specified, after-least_used,
}
use cache_system.Shard.{Shard, read_value, enforce_capacity, next_version, register_pending}
use cache_system.Shard.Writes.{
  put_entry, store_entry, new_entry, resolve_ttl, delete_marked, expire_shard,
}
use cache_system.Shard.Capacities.{shard_capacities, shard_capacities-fair}
use cache_system.Shard.Settled.{IsSettled, put_entry-IsSettled, read_value-IsSettled}
use cache_system.Shard.View.{
  view, read_value-view, delete_marked-view, new_entry-lifetime, live_value,
}
use cache_system.Shard.Expiry.{expire_shard_lem, unless_expired}
use cache_system.Shard.LeastUsed.{put_entry-lost}
use cache_system.Config.{
  CacheConfig, WriteMode, write_back, post_init, parse_write_mode, make_policy,
}
use cache_system.Config.Laws.{post_init_names}
use cache_system.Cache.{Cache, StableHash}
use cache_system.Cache.Fresh.{init-HasSizes}
use cache_system.Cache.Init.{init, new_shard, new_cache}
use cache_system.Cache.Invariant
use cache_system.Cache.Flush.{flush_write_back_job}
use cache_system.Cache.Run.{Call, get, put, work, wait, run, run-init}
use cache_system.Hashing.{
  Key, Canonical, bool, int, SameNumber, stable_hash, canonical, stable_hash-SameNumber,
}

instance abbrev small_hash : StableHash ℕ
small_hash = record { stable_hash = λ k. k }

abbrev lfu_config : CacheConfig
lfu_config = record {
  capacity = pos 3;
  default_ttl = none;
  policy = "lfu";
  shard_count = pos 2;
  worker_count = pos 1;
  backend = "memory";
  write_mode = "write-back";
  scheduler_interval = pos 1;
  queue_size = pos 4;
  write_back_retry_count = pos 1;
  write_back_retry_delay = pos 1;
  shutdown_flush = true;
  active_expiration = true;
}

abbrev as_is : String → String
as_is s = s

abbrev clock0 : FakeClock
clock0 = record { now = 0 }

abbrev source0 : SlowDict ℕ ℕ
source0 = record { delay = pos 0; clock = clock0; entries = []; failures_remaining = 1 }

abbrev pub cache0 : Cache ℕ ℕ
cache0 = new_cache lfu_config source0 clock0 write_back (lfu Lfu.clear)

abbrev calls0 : List (Call ℕ ℕ)
calls0 =
    put 1 10 unset
    ∷ get 1 0
    ∷ put 3 30 (seconds (pos 2))
    ∷ wait (pos 3)
    ∷ work
    ∷ put 5 50 unset
    ∷ work
    ∷ []

init0 : init as_is lfu_config source0 clock0 ≡ ok cache0
unfolding init post_init parse_write_mode make_policy
init0 = refl

run-init_example : Invariant.IsValid (run calls0 cache0)
run-init_example = run-init as_is lfu_config source0 clock0 cache0 calls0 init0

post_init0 : post_init as_is lfu_config ≡ ok tt
unfolding post_init
post_init0 = refl

abbrev events0 : List (Event ℕ)
events0 = written 1 ∷ written 2 ∷ read 1 ∷ removed 2 ∷ written 3 ∷ []

post_init_names_example :
    ((mode : WriteMode) × (parse_write_mode "write-back" ≡ ok mode))
    × ((policy : Policy ℕ) × (make_policy as_is {K = ℕ} "lfu" ≡ ok policy))
post_init_names_example = post_init_names as_is ℕ lfu_config post_init0

after-least_used_example :
    Lfu.evict_candidate {K = ℕ} (after events0 Lfu.clear)
    ≡ key_of (least_used (specified events0 []))
after-least_used_example = after-least_used events0

abbrev repr0 : Canonical → String
repr0 c = "int"

abbrev encode0 : String → List ℕ
encode0 s = 1 ∷ []

abbrev digest0 : List ℕ → ℕ
digest0 l = sum l

shard_capacities-fair_example :
    (sum (shard_capacities 7 3) ≡ 7)
    × (length (shard_capacities 7 3) ≡ 3)
    × ((i j x y : ℕ)
        → i ≤ j
        → get_elem? (shard_capacities 7 3) i ≡ some x
        → get_elem? (shard_capacities 7 3) j ≡ some y
        → (y ≤ x) × (x ≤ y + 1))
shard_capacities-fair_example = shard_capacities-fair 7 3 (omega arith)

init-HasSizes_example :
    (pos 3 ≡ pos (sum (map (λ s. s.capacity) cache0.shards)))
    × (pos 2 ≡ pos (length cache0.shards))
    × All (λ s. 0 < s.capacity) cache0.shards
init-HasSizes_example = init-HasSizes as_is lfu_config source0 clock0 cache0 init0

stable_hash-SameNumber_example :
    (SameNumber (bool true) (int (pos 1))
      → stable_hash repr0 encode0 digest0 (bool true) % 4
        ≡ stable_hash repr0 encode0 digest0 (int (pos 1)) % 4)
    × (canonical (bool true) ≡ canonical (int (pos 1)) → SameNumber (bool true) (int (pos 1)))
stable_hash-SameNumber_example =
    stable_hash-SameNumber repr0 encode0 digest0 (bool true) (int (pos 1)) 4

-- A queue with room for one job, which it holds.
abbrev full_queue : JobQueue ℕ ℕ
full_queue = record {
  maxsize = 1;
  items = snapshot_stats "first" ∷ [];
  unfinished_tasks = 1;
  dropped = 0;
}

abbrev next_job : Job ℕ ℕ
next_job = snapshot_stats "second"

put_lem_example :
    ((Queue.put next_job full_queue).0 ≡ false)
      × (0 < 1)
      × (1 ≤ depth full_queue)
      × ((Queue.put next_job full_queue).1 ≡ record full_queue { dropped = 0 + 1 })
    ⊎ ((Queue.put next_job full_queue).0 ≡ true)
      × ((full_queue.maxsize ≡ 0) ⊎ (depth full_queue < 1))
      × ((Queue.put next_job full_queue).1.items ≡ full_queue.items ++ next_job ∷ [])
      × ((Queue.put next_job full_queue).1.dropped ≡ 0)
      × ((Queue.put next_job full_queue).1.unfinished_tasks ≡ 1 + 1)
put_lem_example = put_lem next_job full_queue

drain_lem_example :
    ((Queue.drain full_queue).0 ≡ depth full_queue)
    × ((Queue.drain full_queue).1.items ≡ [])
    × ((Queue.drain full_queue).1.dropped ≡ full_queue.dropped)
    × ((Queue.drain full_queue).1.unfinished_tasks + depth full_queue ≡ 1)
drain_lem_example = drain_lem full_queue (omega arith)
