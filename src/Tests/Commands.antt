-- ===== src/Tests/Commands.antt =====
-- Runs of the theorems about the commands and their state file.
use cache_system.Prelude.{ℕ, ◌≡◌, refl, false, none, some, [], ◌∷◌, ◌⊎◌}
use cache_system.Prelude.Int.{pos}
use cache_system.Exec.{ok, err, os_error}
use cache_system.Entry.{Entry, is_expired, snapshot}
use cache_system.Jobs.{Ttl}
use cache_system.Policy.Lfu.{nat_hashable}
use cache_system.Shard.Writes.{new_entry}
use cache_system.Shard.View.{live_value}
use cache_system.Cache.{Cache}
use cache_system.Cli.{
  number, absent, SavedState, keep, Args, ttl_from_state_item, item_of, load_cache_state,
}
use cache_system.Cli.Commands.{put, run_basic}
use cache_system.Cli.Laws.{item_of-lifetime}
use cache_system.Cli.Saving.{Untouched, Replaced, run_basic_lem}
use cache_system.Tests.{as_is, clock0, source0, small_hash}

abbrev entry0 : Entry ℕ ℕ
entry0 = record {
  key = 1;
  value = 7;
  created_at = 0;
  last_accessed_at = 2;
  hit_count = 3;
  expires_at = some 10;
  ttl = some 10;
  version = 4;
  dirty = false;
}

-- Of ten ticks four are left at tick 6.
item_of-lifetime_example :
    (ttl : Ttl) × (ttl_from_state_item (item_of (snapshot entry0 6)) 500 ≡ keep ttl)
    × (live_value {K = ℕ} 103 (some (new_entry 1 7 ttl false 100 none none 1))
        ≡ live_value 9 (some entry0))
item_of-lifetime_example =
    item_of-lifetime entry0 6 500 100 3 1 false none (unfold is_expired in refl)

abbrev args0 : Args
args0 = record {
  config = none;
  capacity = pos 2;
  policy = "lru";
  shards = pos 1;
  default_ttl = none;
}

abbrev state0 : SavedState ℕ ℕ
state0 = record {
  config = none;
  entries =
      none
      ∷ some (record {
        key = 1;
        value = 7;
        ttl_remaining = number (pos 4);
        expires_wall = absent;
        hit_count = some (pos 3);
      })
      ∷ [];
}

-- A put, after which the printing fails.
run_basic_lem_example :
    let run =
      run_basic as_is 1 source0 clock0 500
        (λ o. err os_error)
        0
        args0
        (put (ok 1) (ok 8) (some (pos 5)) false)
        state0 in
    Untouched
      (λ o. err os_error)
      0
      (put (ok 1) (ok 8) (some (pos 5)) false)
      state0
      (load_cache_state as_is 1 source0 clock0 500 args0 state0)
      run.0
      run.1
    ⊎ ((c : Cache ℕ ℕ) × (load_cache_state as_is 1 source0 clock0 500 args0 state0 ≡ ok c)
        × Replaced
            (λ o. err os_error)
            0
            (put (ok 1) (ok 8) (some (pos 5)) false)
            state0
            c
            run.0
            run.1)
run_basic_lem_example =
    run_basic_lem as_is 1 source0 clock0 500 (λ o. err os_error) 0 args0
      (put (ok 1) (ok 8) (some (pos 5)) false) state0
