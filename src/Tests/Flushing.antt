-- ===== src/Tests/Flushing.antt =====
-- Runs of the theorems about the sections of the write-back workers.
use cache_system.Prelude.{ℕ, ◌≡◌, refl, true, false, none, some, [], ◌∷◌, arith, ℕ_discrete}
use cache_system.Prelude.Int.{pos}
use cache_system.Exec.{◌>>◌}
use cache_system.Dict
use cache_system.Dict.{Hashable, Dict, get, size}
use cache_system.Entry.{Entry, is_expired}
use cache_system.Jobs.{unset, FlushWriteBack, write}
use cache_system.Source
use cache_system.Source.{SlowDict, delay_and_fail, delay_only}
use cache_system.Policy
use cache_system.Policy.{lru}
use cache_system.Policy.Lfu.{nat_hashable}
use cache_system.WriteBack.{is_stale_write_back, apply_write_back}
use cache_system.WriteBack.Steps.{
  idle, applied, System, job_for, put_system, finished, put, take, apply, finish, Reach, here, next,
}
use cache_system.WriteBack.OneWorker.{start, clean_in_source}
use cache_system.WriteBack.TwoWorkers.{lost_in_source, opened}
use cache_system.Shard.{
  next_version, register_pending, enforce_capacity, resolve_pending, prune_marks,
}
use cache_system.Shard.Writes.{put_entry, store_entry, new_entry, existing_entry, resolve_ttl}
use cache_system.Cache.Flush.{mark_clean}
use cache_system.Tests.{clock0}

abbrev source0 : SlowDict ℕ ℕ
source0 = record { delay = pos 0; clock = clock0; entries = []; failures_remaining = 0 }

abbrev opened0 : System ℕ ℕ
opened0 = start 0 1 (lru []) source0 (idle ∷ [])

abbrev job0 : FlushWriteBack ℕ ℕ
job0 = job_for 0 7 (write 5) 1 0

-- A put, and its job from the queue to the end.
abbrev put0 : System ℕ ℕ
put0 = put_system 7 5 unset 0 none 0 opened0

abbrev applied0 : System ℕ ℕ
applied0 = record put0 {
  source = (apply_write_back job0 source0).1;
  queue = [];
  workers = applied job0 ∷ [];
}

abbrev finished0 : System ℕ ℕ
finished0 = record applied0 { workers = idle ∷ []; shard = finished job0 put0.shard }

abbrev entry0 : Entry ℕ ℕ
entry0 = record (new_entry 7 5 unset true 0 none none 1) { dirty = false }

tests0 :
    (put0.queue ≡ job0 ∷ [])
    × (is_stale_write_back put0.shard.version_marks put0.shard.tombstones job0 ≡ false)
    × (get 7 finished0.shard.backend ≡ some entry0)
unfolding put_entry store_entry next_version register_pending enforce_capacity existing_entry
    is_stale_write_back Policy.on_put Policy.evict_candidate Dict.get Dict.put Dict.pop ℕ_discrete
    is_expired new_entry resolve_ttl mark_clean resolve_pending prune_marks
tests0 = (refl, refl, refl)

runs0 : Reach opened0 finished0
unfolding apply_write_back Source.put_value delay_and_fail ◌>>◌
runs0 =
    next
      (next (next (next here (put 7 5 unset 0 none 0)) (take 0 job0 [] refl tests0.0 tests0.1))
        (apply 0 job0 refl refl))
      (finish 0 job0 refl)

clean_in_source_example : get 7 finished0.source.entries ≡ some 5
unfolding new_entry Policy.tracks Dict.get
clean_in_source_example =
    clean_in_source 0 1 (lru []) source0 finished0 7 entry0 tt (λ k. refl) refl (omega arith) runs0
      tests0.2 refl

lost_in_source_example :
    (t : System ℕ ℕ) × (e : Entry ℕ ℕ) × Reach (opened 3 4 [] (pos 0) clock0) t
    × (get 0 t.shard.backend ≡ some e)
    × (e.dirty ≡ false)
    × (e.value ≡ 4)
    × (get 0 t.source.entries ≡ some 3)
lost_in_source_example = lost_in_source 3 4 [] (pos 0) clock0
