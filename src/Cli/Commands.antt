-- ===== src/Cli/Commands.antt =====
-- The commands of src/cachelab/cli/commands/basic.py. What is printed is the command's result; the
-- printing itself is a parameter, which may raise.
use cache_system.Prelude.{
  ℕ, Bool, true, false, ◌&&◌, Option, none, some, List, map, String, is_some,
}
use cache_system.Prelude.Int.{ℤ}
use cache_system.Exec.{
  Exec, Result, ok, err, value_error, pure, lift, gets, modify, raise_if, ◌>>=◌, ◌>>◌,
}
use cache_system.Dict.{Hashable}
use cache_system.Clock.{FakeClock}
use cache_system.Entry.{Snapshot}
use cache_system.Jobs.{Ttl, unset, never, seconds}
use cache_system.Source.{SlowDict}
use cache_system.Stats.{CacheStatsSnapshot}
use cache_system.Cache.{Cache, StableHash}
use cache_system.Cache.Access
use cache_system.Cache.Access.{get_value, put_value, delete_value, size_all, restore_entry_metadata}
use cache_system.Cache.Stats
use cache_system.Cli.{SavedState, saved_config, item_of, Args, load_cache_state}

-- A command of `run_basic`; a key or a value is what `parse_cli` made of it.
pub data Command (K V : Type 0) : Type 0 where
  put : Result K → Result V → Option ℤ → Bool → Command K V
  get delete contains inspect : Result K → Command K V
  dump : Option ℤ → Command K V
  clear stats : Command K V

-- What a command prints.
pub data Output (K V : Type 0) : Type 0 where
  stored cleared : Output K V
  found : V → Output K V
  deleted present : Bool → Output K V
  details : Option (Snapshot K V) → Output K V
  rows : List (Snapshot K V) → Output K V
  counters : CacheStatsSnapshot → Output K V

abbrev pub ttl_of : Option ℤ → Bool → Ttl
ttl_of ttl true = never
ttl_of (some z) false = seconds z
ttl_of none false = unset

-- A command at work: the cache that was loaded, and the state file.
pub record Session (K V : Type 0) : Type 0 where
  pub cache : Cache K V
  pub file : SavedState K V

module _ {K V A : Type 0} where
  -- A call of the cache, which leaves the file alone.
  abbrev pub called : Session K V → Result A × Cache K V → Result A × Session K V
  called s (r, c) = (r, record s { cache = c })

  unfoldable pub on_cache : Exec (Cache K V) A → Exec (Session K V) A
  on_cache m s = called s (m s.cache)

module _ {K V : Type 0} where
  -- What `_save_cache_state` writes of the snapshots of a cache.
  abbrev pub saved_state : Cache K V → List (Snapshot K V) → SavedState K V
  saved_state c snaps = record {
    config = some (saved_config c.config);
    entries = map (λ s. some (item_of s)) snaps;
  }

module _ {K V : Type 0} ⦃h : Hashable K⦄ where
  unfoldable pub save_cache_state : Exec (Session K V) (Unit {0})
  save_cache_state = do
    snaps ← on_cache (Access.dump none)
    modify (λ s. record s { file = saved_state s.cache snaps })

  module _ ⦃stable : StableHash K⦄ where
    -- What a command does with the cache, and what it is about to print.
    unfoldable pub perform : V → Command K V → Exec (Cache K V) (Output K V)
    perform miss (put key value ttl no_ttl) = do
      k ← lift key
      raise_if (no_ttl && is_some ttl) value_error
      v ← lift value
      put_value k v (ttl_of ttl no_ttl)
      pure stored
    perform miss (get key) = do k ← lift key; v ← get_value k miss; pure (found v)
    perform miss (delete key) = do k ← lift key; existed ← delete_value k; pure (deleted existed)
    perform miss (contains key) = do k ← lift key; b ← Access.contains k; pure (present b)
    perform miss (inspect key) = do k ← lift key; snap ← Access.inspect k; pure (details snap)
    perform miss (dump limit) = do snaps ← Access.dump limit; pure (rows snaps)
    perform miss clear = Access.clear >> pure cleared
    perform miss stats = do s ← gets Stats.stats; pure (counters s)

    -- `print`, with the layout of what is printed, is a parameter, and may raise.
    module _ (print : Output K V → Result (Unit {0})) where
      abbrev pub printing : Output K V → Exec (Session K V) (Output K V)
      printing o = lift (print o) >> pure o

      -- A command that saves the cache before it prints, and one that only prints.
      unfoldable pub changing : Exec (Cache K V) (Output K V) → Exec (Session K V) (Output K V)
      changing m = do o ← on_cache m; save_cache_state; printing o

      unfoldable pub reading : Exec (Cache K V) (Output K V) → Exec (Session K V) (Output K V)
      reading m = do o ← on_cache m; printing o

      unfoldable pub run_command : V → Command K V → Exec (Session K V) (Output K V)
      run_command miss (put key value ttl no_ttl) =
          changing (perform miss (put key value ttl no_ttl))
      run_command miss (get key) = reading (perform miss (get key))
      run_command miss (delete key) = changing (perform miss (delete key))
      run_command miss (contains key) = reading (perform miss (contains key))
      run_command miss (inspect key) = reading (perform miss (inspect key))
      run_command miss (dump limit) = reading (perform miss (dump limit))
      run_command miss clear = changing (perform miss clear)
      run_command miss stats = reading (perform miss stats)

      -- What the run returns or raises, and the file after it.
      abbrev pub run_on :
          V
          → Command K V
          → SavedState K V
          → Result (Cache K V)
          → Result (Output K V) × SavedState K V
      run_on miss command state (ok c) =
          let (r, s) = run_command miss command (record { cache = c; file = state }) in (r, s.file)
      run_on miss command state (err e) = (err e, state)

  module _ ⦃stable : StableHash K⦄ (lower : String → String) (hundredth : ℕ) (source : SlowDict K V)
      (clock : FakeClock) (wall_now : ℕ) where
    -- `run_basic`, with the file before and after it; `miss` is the sentinel `_CLI_MISS`.
    unfoldable pub run_basic :
        (Output K V → Result (Unit {0}))
        → V
        → Args
        → Command K V
        → SavedState K V
        → Result (Output K V) × SavedState K V
    run_basic print miss args command state =
        run_on print miss command state
          (load_cache_state lower hundredth source clock wall_now args state)
