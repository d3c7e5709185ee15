-- ===== src/WriteBack/TwoWorkers.antt =====
-- Two workers of one shard, of which one is slow to call the source of truth.
use cache_system.Prelude.{ℕ, ◌≡◌, refl, false, none, some, [], ◌∷◌, ℕ_discrete}
use cache_system.Prelude.Int.{ℤ}
use cache_system.Exec.{◌>>◌}
use cache_system.Dict
use cache_system.Dict.{Hashable, ◌≟◌, Dict, get, size}
use cache_system.Dict.Laws.{get-put_self}
use cache_system.Clock.{FakeClock}
use cache_system.Entry.{Entry, is_expired}
use cache_system.Jobs.{unset, FlushWriteBack, write}
use cache_system.Source
use cache_system.Source.{SlowDict, delay_and_fail, delay_only}
use cache_system.Policy
use cache_system.Policy.{lru}
use cache_system.Policy.Lfu.{nat_hashable}
use cache_system.WriteBack.{is_stale_write_back, apply_write_back}
use cache_system.WriteBack.Steps.{
  idle, checked, applied, System, job_for, put_system, finished, put, take, apply, finish, Reach,
  here, next,
}
use cache_system.WriteBack.OneWorker.{start}
use cache_system.Shard.{
  next_version, register_pending, enforce_capacity, resolve_pending, prune_marks,
}
use cache_system.Shard.Writes.{put_entry, store_entry, new_entry, existing_entry, resolve_ttl}
use cache_system.Cache.Flush.{mark_clean}

module _ {V : Type 0} (x y : V) (d : Dict ℕ V) (delay : ℤ) (clock : FakeClock) where
  -- A source that does not fail.
  abbrev source : SlowDict ℕ V
  source = record { delay = delay; clock = clock; entries = d; failures_remaining = 0 }

  abbrev pub opened : System ℕ V
  opened = start 0 1 (lru []) source (idle ∷ idle ∷ [])

  abbrev older : FlushWriteBack ℕ V
  older = job_for 0 0 (write x) 1 0

  abbrev newer : FlushWriteBack ℕ V
  newer = job_for 0 0 (write y) 2 0

  abbrev put_older : System ℕ V
  put_older = put_system 0 x unset 0 none 0 opened

  abbrev took_older : System ℕ V
  took_older = record put_older { queue = []; workers = checked older ∷ idle ∷ [] }

  abbrev put_newer : System ℕ V
  put_newer = put_system 0 y unset 0 none 0 took_older

  abbrev took_newer : System ℕ V
  took_newer = record put_newer { queue = []; workers = checked older ∷ checked newer ∷ [] }

  abbrev applied_newer : System ℕ V
  applied_newer = record took_newer {
    source = (apply_write_back newer took_newer.source).1;
    workers = checked older ∷ applied newer ∷ [];
  }

  abbrev finished_newer : System ℕ V
  finished_newer = record applied_newer {
    workers = checked older ∷ idle ∷ [];
    shard = finished newer applied_newer.shard;
  }

  abbrev applied_older : System ℕ V
  applied_older = record finished_newer {
    source = (apply_write_back older finished_newer.source).1;
    workers = applied older ∷ idle ∷ [];
  }

  -- The two puts, and what the workers test: neither job is stale when it is taken.
  tests :
      (put_older.queue ≡ older ∷ [])
      × (is_stale_write_back put_older.shard.version_marks put_older.shard.tombstones older ≡ false)
      × (put_newer.queue ≡ newer ∷ [])
      × (is_stale_write_back put_newer.shard.version_marks put_newer.shard.tombstones newer ≡ false)
  unfolding put_entry store_entry next_version register_pending enforce_capacity existing_entry
      is_stale_write_back Policy.on_put Policy.evict_candidate Dict.get Dict.put Dict.pop ℕ_discrete
      is_expired new_entry resolve_ttl
  tests = (refl, refl, refl, refl)

  clean_entry :
      (e : Entry ℕ V) × (get 0 applied_older.shard.backend ≡ some e)
      × (e.dirty ≡ false)
      × (e.value ≡ y)
  unfolding put_entry store_entry next_version register_pending enforce_capacity existing_entry
      is_stale_write_back Policy.on_put Policy.evict_candidate Dict.get Dict.put Dict.pop ℕ_discrete
      is_expired new_entry resolve_ttl mark_clean resolve_pending prune_marks
  clean_entry = (_, refl, refl, refl)

  runs : Reach opened applied_older
  unfolding apply_write_back Source.put_value delay_and_fail ◌>>◌
  runs =
      next
        (next
          (next
            (next
              (next
                (next (next here (put 0 x unset 0 none 0)) (take 0 older [] refl tests.0 tests.1))
                (put 0 y unset 0 none 0))
              (take 1 newer [] refl tests.2 tests.3))
            (apply 1 newer refl refl))
          (finish 1 newer refl))
        (apply 0 older refl refl)

  -- Two workers break the promise that one keeps, whatever values are put and whatever the source
  -- holds, with no call that fails: after two puts of a key the source may keep the first value
  -- while the entry, no longer dirty, has the second.
  pub lost_in_source :
      (t : System ℕ V) × (e : Entry ℕ V) × Reach opened t
      × (get 0 t.shard.backend ≡ some e)
      × (e.dirty ≡ false)
      × (e.value ≡ y)
      × (get 0 t.source.entries ≡ some x)
  unfolding apply_write_back Source.put_value delay_and_fail ◌>>◌
  lost_in_source =
      let (e, found, clean, value) = clean_entry in
      (applied_older, e, runs, found, clean, value, get-put_self 0 x (Dict.put 0 y d))
