-- ===== src/Tests/Reading.antt =====
-- Runs of the theorems about what `get` returns and about the flush at shutdown.
use cache_system.Prelude.{
  ℕ, ◌≡◌, ◌⊎◌, refl, true, false, none, some, List, [], ◌∷◌, arith, get_elem?, ℕ_discrete,
}
use cache_system.Prelude.Int.{pos}
use cache_system.Dict
use cache_system.Dict.{Hashable, Dict, IsDict}
use cache_system.Queue
use cache_system.Source
use cache_system.Source.{delay_and_fail, delay_only}
use cache_system.Clock.{sleep}
use cache_system.Policy.Ordered
use cache_system.Policy.Lfu
use cache_system.WriteBack.{apply_write_back, is_stale_write_back}
use cache_system.Exec.{ok, with_state, ◌>>◌, ◌>>=◌, pure, raise, attempt, modify}
use cache_system.Entry.{is_expired}
use cache_system.Jobs.{unset, seconds}
use cache_system.Policy
use cache_system.Policy.{lru}
use cache_system.Policy.Lfu.{nat_hashable}
use cache_system.Config.{write_back}
use cache_system.Shard.{
  Shard, read_value, next_version, register_pending, enforce_capacity, remove_entry, prune_marks,
  clear_pending_flushes,
}
use cache_system.Shard.Writes.{
  put_entry, delete_marked, store_entry, existing_entry, new_entry, resolve_ttl, delete_entry, bury,
}
use cache_system.Shard.Settled.{IsSettled, put_entry-IsSettled, delete_marked-IsSettled}
use cache_system.Shard.Capacities.{shard_capacities}
use cache_system.Cache.{
  Cache, require_not_closed, validate_ttl, with_shard, warn_not_started, shard_for,
  enqueue_flush_jobs, enqueue_critical, change_shard, with_source,
}
use cache_system.Cache.Access.{get_value, put_value, put_locked, write_source, flush_job}
use cache_system.Cache.Fresh.{new_shard-IsSettled}
use cache_system.Cache.Flush.{
  jobs_of, flush_sync_all, dirty_jobs, tombstone_jobs, flush_sync, try_flush, after_try, mark_clean,
}
use cache_system.Cache.Init.{new_shard, new_shards, new_cache}
use cache_system.Cache.Run.{Call, put, run, step}
use cache_system.Cache.Values.{IsOneOf}
use cache_system.Cache.Values.Reads.{possible, get_value-possible}
use cache_system.Cache.ReadBack.{get_value-put_value}
use cache_system.Cache.Delivery.Shards.{Landed, flush_sync_all-jobs_of}
use cache_system.Tests.{as_is, lfu_config, source0, clock0, small_hash, cache0, init0}

abbrev calls0 : List (Call ℕ ℕ)
calls0 = put 1 10 unset ∷ put 3 30 (seconds (pos 2)) ∷ put 1 11 unset ∷ []

get_value0 : (get_value 1 0 (run calls0 cache0)).0 ≡ ok 11
unfolding get_value run step put_value with_state ◌>>◌ require_not_closed validate_ttl put_locked
    with_shard warn_not_started shard_for write_source enqueue_flush_jobs enqueue_critical Queue.put
    new_shards shard_capacities read_value Dict.get put_entry store_entry next_version
    register_pending Policy.on_put Policy.on_get existing_entry new_entry resolve_ttl is_expired
    Dict.put ℕ_discrete enforce_capacity Policy.evict_candidate Lfu.evict_candidate Lfu.on_put
    Lfu.clear remove_entry prune_marks Dict.pop Policy.on_delete Lfu.on_delete Lfu.drop Lfu.store
get_value0 = refl

get_value-possible_example : ◌≡◌ {A = ℕ} 11 0 ⊎ IsOneOf 11 (possible calls0 cache0 (λ j. []) 1)
get_value-possible_example =
    get_value-possible as_is lfu_config source0 clock0 cache0 calls0 1 0 11 init0
      (refl, (refl, (refl, tt))) get_value0

-- A cache of one shard with room for two entries, and the same with a dirty entry and a tombstone.
abbrev empty_shard : Shard ℕ ℕ
empty_shard = new_shard 0 2 (lru [])

empty_shard-IsSettled : IsSettled empty_shard
unfolding Policy.tracks Dict.get
empty_shard-IsSettled = new_shard-IsSettled ℕ 0 2 (lru []) tt (λ k. refl)

abbrev lru_cache : Cache ℕ ℕ
lru_cache = record (new_cache lfu_config source0 clock0 write_back (lru [])) {
  shards = empty_shard ∷ [];
}

put_value0 : (put_value 7 5 (seconds (pos 2)) lru_cache).0 ≡ ok tt
unfolding put_value with_state ◌>>◌ require_not_closed validate_ttl put_locked with_shard
    warn_not_started shard_for write_source enqueue_flush_jobs enqueue_critical Queue.put
put_value0 = refl

get_value-put_value_example : (get_value 7 0 (put_value 7 5 (seconds (pos 2)) lru_cache).1).0 ≡ ok 5
get_value-put_value_example =
    get_value-put_value 7 5 0 (seconds (pos 2)) lru_cache refl
      (record { settled = empty_shard-IsSettled; ordered = refl; room = omega arith }, tt)
      put_value0

abbrev dirty_shard : Shard ℕ ℕ
dirty_shard = (put_entry 7 5 unset true 0 none none (delete_marked true 8 empty_shard).1).1

dirty_shard-IsSettled : IsSettled dirty_shard
dirty_shard-IsSettled =
    put_entry-IsSettled (delete_marked true 8 empty_shard).1 7 5 unset true 0 none none
      (delete_marked-IsSettled empty_shard true 8 empty_shard-IsSettled).valid

abbrev dirty_cache : Cache ℕ ℕ
dirty_cache = record lru_cache { shards = dirty_shard ∷ [] }

tombstones0 : IsDict dirty_shard.tombstones
unfolding put_entry register_pending enforce_capacity store_entry Dict.put next_version
    delete_marked delete_entry remove_entry Dict.get bury prune_marks ℕ_discrete Dict.pop
tombstones0 = (refl, tt)

flushed0 : (flush_sync_all (jobs_of dirty_cache 0 dirty_shard) dirty_cache).0 ≡ ok false
unfolding flush_sync_all jobs_of dirty_jobs tombstone_jobs flush_job flush_sync try_flush after_try
    mark_clean put_entry register_pending enforce_capacity store_entry Dict.put next_version
    delete_marked delete_entry remove_entry Dict.get bury prune_marks ℕ_discrete Dict.pop new_entry
    resolve_ttl existing_entry ◌>>=◌ ◌>>◌ pure raise attempt modify change_shard with_shard
    with_source sleep clear_pending_flushes delay_and_fail delay_only Source.put_value
    Source.delete_value apply_write_back is_stale_write_back Policy.evict_candidate Policy.on_delete
    Policy.on_put Ordered.lru_on_put Ordered.on_delete Ordered.evict_candidate
flushed0 = refl

flush_sync_all-jobs_of_example :
    (t : Shard ℕ ℕ) × (get_elem?
        (flush_sync_all (jobs_of dirty_cache 0 dirty_shard) dirty_cache).1.shards
        0
      ≡ some t)
    × IsSettled t
    × ((j : ℕ)
        → Landed
            (Dict.get j dirty_shard.backend)
            (Dict.get j dirty_shard.tombstones)
            (Dict.get j t.backend)
            (Dict.get j dirty_cache.source_backend.entries)
            (Dict.get j
              (flush_sync_all
                (jobs_of dirty_cache 0 dirty_shard)
                dirty_cache).1.source_backend.entries))
flush_sync_all-jobs_of_example =
    flush_sync_all-jobs_of 0 dirty_shard dirty_cache dirty_shard-IsSettled tombstones0 refl flushed0
