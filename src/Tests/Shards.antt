-- ===== src/Tests/Shards.antt =====
-- Runs of the theorems about one shard.
use cache_system.Prelude.{
  ℕ, ◌+◌, ◌-◌, get_elem?, ◌<◌, ◌≡◌, refl, true, none, some, [], ◌∷◌, arith, ite, ℕ_discrete,
  if◌then◌else◌, ltb,
}
use cache_system.Prelude.Int.{pos}
use cache_system.Dict
use cache_system.Dict.{◌≟◌, size, pop}
use cache_system.Exec.{ok}
use cache_system.Entry.{Entry, is_expired}
use cache_system.Jobs.{unset, seconds, FlushWriteBack, write, delete}
use cache_system.WriteBack.{or_zero, is_stale_write_back}
use cache_system.Policy
use cache_system.Policy.{Policy, lru, lfu}
use cache_system.Policy.Contract.{clear-IsValid, tracks-clear}
use cache_system.Policy.Ordered
use cache_system.Policy.Lfu
use cache_system.Policy.Lfu.{Lfu, nat_hashable}
use cache_system.Shard.{Shard, read_value, enforce_capacity, next_version, register_pending}
use cache_system.Shard.Writes.{
  put_entry, store_entry, new_entry, resolve_ttl, delete_marked, expire_shard,
}
use cache_system.Shard.Settled.{IsSettled, put_entry-IsSettled, read_value-IsSettled}
use cache_system.Shard.View.{
  view, read_value-view, delete_marked-view, new_entry-lifetime, live_value,
}
use cache_system.Shard.Expiry.{expire_shard_lem, unless_expired}
use cache_system.Shard.Placement.{put_entry_lem, put_entry-get, without}
use cache_system.Shard.Staleness.{is_stale_write_back_lem, delete_marked-stale, superseded, buried}
use cache_system.Shard.LeastUsed.{put_entry-lost}
use cache_system.Cache.{Cache}
use cache_system.Cache.Init.{new_shard}
use cache_system.Cache.Flush.{flush_write_back_job}
use cache_system.Cache.Stale.{flush_write_back_job-superseded}
use cache_system.Cache.Fresh.{new_shard-IsSettled}
use cache_system.Tests.{cache0}

-- A shard with room for one entry, before and after a `put`.
abbrev shard0 : Shard ℕ ℕ
shard0 = new_shard 0 1 (lru [])

shard0-IsSettled : IsSettled shard0
unfolding Policy.tracks Dict.get
shard0-IsSettled = new_shard-IsSettled ℕ 0 1 (lru []) tt (λ k. refl)

abbrev shard1 : Shard ℕ ℕ
shard1 = (put_entry 1 10 (seconds (pos 2)) true 0 none none shard0).1

put_entry-IsSettled_example : IsSettled shard1
put_entry-IsSettled_example =
    put_entry-IsSettled shard0 1 10 (seconds (pos 2)) true 0 none none shard0-IsSettled.valid

put_entry_lem_example :
    (e : Entry ℕ ℕ) × (e.key ≡ 2)
    × (e.value ≡ 20)
    × (e.version ≡ or_zero (Dict.get 2 shard1.version_marks) + 1)
    × (e.dirty ≡ true)
    × ((put_entry 2 20 unset true 1 none none shard1).1.backend ≡ (
        if ltb shard1.capacity (size (Dict.put 2 e shard1.backend))
        then without
            (Policy.evict_candidate (Policy.on_put 2 shard1.policy))
            (Dict.put 2 e shard1.backend)
        else Dict.put 2 e shard1.backend))
put_entry_lem_example = put_entry_lem shard1 2 20 unset true 1 none none put_entry-IsSettled_example

put_entry-get_example :
    Dict.get 2 (put_entry 2 20 unset true 1 none none shard1).1.backend
    ≡ some (new_entry 2 20 unset true 1 none none (next_version 2 shard1).0)
unfolding put_entry store_entry next_version register_pending enforce_capacity Policy.on_put
    Ordered.lru_on_put Dict.get Dict.put Dict.pop ℕ_discrete is_expired new_entry resolve_ttl
put_entry-get_example =
    put_entry-get shard1 2 20 unset true 1 none none put_entry-IsSettled_example (omega arith) refl

read_value-view_example :
    ((read_value 1 true true 3 shard1).0 ≡ view 3 shard1 1)
    × ((j : ℕ) → view 3 (read_value 1 true true 3 shard1).1 j ≡ view 3 shard1 j)
read_value-view_example = read_value-view shard1 1 true true 3

delete_marked-view_example :
    view 1 (delete_marked true 1 shard1).1 1 ≡ ite (◌≟◌ {K = ℕ} 1 1) none (view 1 shard1 1)
delete_marked-view_example = delete_marked-view shard1 true 1 1 1

new_entry-lifetime_example :
    live_value {K = ℕ} {V = ℕ} 3 (some (new_entry 1 10 (seconds (pos 2)) true 1 none none 1))
    ≡ (if ltb 3 (1 + 2) then some 10 else none)
new_entry-lifetime_example = new_entry-lifetime 1 10 true 1 2 3 none none 1 (omega arith)

expire_shard_lem_example :
    ((k : ℕ)
      → Dict.get k (expire_shard 2 shard1).1.backend ≡ unless_expired 2 (Dict.get k shard1.backend))
    × ((expire_shard 2 shard1).0 + size (expire_shard 2 shard1).1.backend ≡ size shard1.backend)
expire_shard_lem_example = expire_shard_lem shard1 2 put_entry-IsSettled_example.valid

abbrev older_job : FlushWriteBack ℕ ℕ
older_job = record {
  shard_index = 0;
  key = 1;
  operation = write 9;
  version = 0;
  retries_left = 1;
  attempt = 0;
}

abbrev delete_job : FlushWriteBack ℕ ℕ
delete_job = record older_job { operation = delete; version = 2 }

abbrev entry1 : Entry ℕ ℕ
entry1 = new_entry 1 10 (seconds (pos 2)) true 0 none none 1

entry1-found : Dict.get 1 shard1.backend ≡ some entry1
unfolding put_entry store_entry next_version register_pending enforce_capacity Dict.get Dict.put
    ℕ_discrete is_expired new_entry resolve_ttl
entry1-found = refl

is_stale_write_back_lem_example :
    is_stale_write_back shard1.version_marks shard1.tombstones older_job
    ≡ superseded older_job.operation 0 entry1.version
is_stale_write_back_lem_example =
    is_stale_write_back_lem shard1 older_job entry1 put_entry-IsSettled_example.valid entry1-found

delete_marked-stale_example :
    ((delete_marked true 1 shard1).0.0 ≡ or_zero (Dict.get 1 shard1.version_marks) + 1)
    × (is_stale_write_back
          (delete_marked true 1 shard1).1.version_marks
          (delete_marked true 1 shard1).1.tombstones
          delete_job
        ≡ buried delete_job.operation 2 (delete_marked true 1 shard1).0.0)
delete_marked-stale_example = delete_marked-stale shard1 delete_job

abbrev cache1 : Cache ℕ ℕ
cache1 = record cache0 { shards = shard1 ∷ [] }

flush_write_back_job-superseded_example :
    ((flush_write_back_job older_job cache1).0 ≡ ok true)
    × ((flush_write_back_job older_job cache1).1.source_backend ≡ cache1.source_backend)
    × ((flush_write_back_job older_job cache1).1.job_queue ≡ cache1.job_queue)
    × ((flush_write_back_job older_job cache1).1.runtime.stale_write_back_jobs_skipped ≡ 0 + 1)
    × (t : Shard ℕ ℕ) × (get_elem? (flush_write_back_job older_job cache1).1.shards 0 ≡ some t)
    × (t.backend ≡ shard1.backend)
    × (or_zero (Dict.get 1 t.pending_flushes) ≡ or_zero (Dict.get 1 shard1.pending_flushes) - 1)
unfolding new_entry
flush_write_back_job-superseded_example =
    flush_write_back_job-superseded cache1 older_job shard1 entry1 refl
      put_entry-IsSettled_example.valid entry1-found refl

-- A shard with room for one entry, whose key was written and read.
abbrev empty_lfu : Shard ℕ ℕ
empty_lfu = new_shard 0 1 (Policy.clear (lfu Lfu.clear))

empty_lfu-IsSettled : IsSettled empty_lfu
empty_lfu-IsSettled =
    new_shard-IsSettled ℕ 0 1 (Policy.clear (lfu Lfu.clear)) (clear-IsValid (lfu Lfu.clear))
      (λ k. tracks-clear k (lfu Lfu.clear))

abbrev used_shard : Shard ℕ ℕ
used_shard = (read_value 1 true true 0 (put_entry 1 10 unset true 0 none none empty_lfu).1).1

abbrev used_lfu : Lfu ℕ
used_lfu = record { key_to_freq = (1, 2) ∷ []; freq_to_keys = (2, (1, tt) ∷ []) ∷ []; min_freq = 2 }

used_shard-policy : used_shard.policy ≡ lfu used_lfu
unfolding put_entry read_value store_entry next_version register_pending enforce_capacity
    Policy.on_put Policy.on_get Policy.clear Lfu.clear Lfu.on_put Lfu.on_get Lfu.bump Lfu.store
    Dict.get Dict.put Dict.pop ℕ_discrete is_expired new_entry resolve_ttl
used_shard-policy = refl

used_shard-absent : Dict.get 2 used_shard.backend ≡ none
unfolding put_entry read_value store_entry next_version register_pending enforce_capacity Dict.get
    Dict.put ℕ_discrete is_expired new_entry resolve_ttl
used_shard-absent = refl

used_shard-full : size used_shard.backend ≡ used_shard.capacity
unfolding put_entry read_value store_entry next_version register_pending enforce_capacity Dict.get
    Dict.put ℕ_discrete is_expired new_entry resolve_ttl
used_shard-full = refl

used_twice : (j n : ℕ) → Dict.get j used_lfu.key_to_freq ≡ some n → 1 < n
unfolding Dict.get
used_twice j n e = ground arith

used_shard-IsSettled : IsSettled used_shard
used_shard-IsSettled =
    read_value-IsSettled (put_entry 1 10 unset true 0 none none empty_lfu).1 1 true true 0
      (put_entry-IsSettled empty_lfu 1 10 unset true 0 none none empty_lfu-IsSettled.valid)

put_entry-lost_example :
    Dict.get 2 (put_entry 2 20 unset true 1 none none used_shard).1.backend ≡ none
unfolding read_value put_entry store_entry next_version register_pending enforce_capacity Dict.get
    Dict.put ℕ_discrete is_expired new_entry resolve_ttl
put_entry-lost_example =
    put_entry-lost used_shard 2 20 unset true 1 none none used_lfu used_shard-IsSettled
      used_shard-policy used_twice used_shard-absent used_shard-full
