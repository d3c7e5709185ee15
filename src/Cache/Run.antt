-- ===== src/Cache/Run.antt =====
-- Histories: any sequence of calls, worker rounds and ticks of the clock, from a new cache.
use cache_system.Prelude.{ℕ, Option, Bool, ◌≡◌, String, List, [], ◌∷◌, subst}
use cache_system.Prelude.Int.{ℤ}
use cache_system.Exec.{Result, ok}
use cache_system.Dict.{Hashable}
use cache_system.Clock.{FakeClock, sleep}
use cache_system.Jobs.{Ttl}
use cache_system.Source.{SlowDict}
use cache_system.Config.{CacheConfig}
use cache_system.Cache.{Cache, StableHash}
use cache_system.Cache.Access
use cache_system.Cache.Access.{
  get_value, put_value, delete_value, expire_all, restore_entry_metadata,
}
use cache_system.Cache.Flights.{get_or_compute}
use cache_system.Cache.Jobs
use cache_system.Cache.Init.{init}
use cache_system.Cache.Invariant.{IsValid}
use cache_system.Cache.Fresh.{IsValidResult, init-IsValid}
use cache_system.Cache.Calls.{
  get_value-Keeps, contains-Keeps, put_value-Keeps, delete_value-Keeps, expire_all-Keeps,
  restore_entry_metadata-Keeps,
}
use cache_system.Cache.Lifecycle
use cache_system.Cache.Clear.{clear-Keeps}
use cache_system.Cache.Closing.{dump-Keeps, scheduler_tick-Keeps, request_snapshot-Keeps}
use cache_system.Cache.Shutdown.{start-IsValid, inspect-Keeps, preload-Keeps, close-IsValid}
use cache_system.Cache.Rounds.{get_or_compute-Keeps, work-IsValid}

pub data Call (K V : Type 0) : Type 0 where
  get : K → V → Call K V
  put : K → V → Ttl → Call K V
  delete contains : K → Call K V
  compute : K → Result V → Ttl → Call K V
  expire : Call K V
  restore : K → ℕ → Call K V
  inspect : K → Call K V
  dump : Option ℤ → Call K V
  clear : Call K V
  preload : K → Result V → Ttl → Call K V
  request_snapshot : String → Call K V
  start : Call K V
  -- whether to flush, and how many jobs the workers take in the two waits
  close : Bool → ℕ → ℕ → Call K V
  -- a tick of the scheduler
  tick : Call K V
  -- a worker takes the next job
  work : Call K V
  -- time passes
  wait : ℤ → Call K V

module _ {K V : Type 0} ⦃h : Hashable K⦄ where
  module _ ⦃stable : StableHash K⦄ where
    -- A call that raises leaves what it has written.
    unfoldable pub step : Call K V → Cache K V → Cache K V
    step (get k d) c = (get_value k d c).1
    step (put k v ttl) c = (put_value k v ttl c).1
    step (delete k) c = (delete_value k c).1
    step (contains k) c = (Access.contains k c).1
    step (compute k loader ttl) c = (get_or_compute k loader ttl c).1
    step expire c = (expire_all c).1
    step (restore k n) c = (restore_entry_metadata k n c).1
    step (inspect k) c = (Access.inspect k c).1
    step (dump limit) c = (Access.dump limit c).1
    step clear c = (Access.clear c).1
    step (preload k loader ttl) c = (Jobs.preload k loader ttl c).1
    step (request_snapshot id) c = (Jobs.request_snapshot id c).1
    step start c = (Lifecycle.start c).1
    step (close flush m n) c = (Lifecycle.close flush m n c).1
    step tick c = (Jobs.scheduler_tick c).1
    step work c = Jobs.work c
    step (wait z) c = record c { clock = sleep z c.clock }

    unfoldable pub run : List (Call K V) → Cache K V → Cache K V
    run [] c = c
    run (call ∷ calls) c = run calls (step call c)

    step-IsValid : (call : Call K V) (c : Cache K V) → IsValid c → IsValid (step call c)
    unfolding step
    step-IsValid (get k d) c v = (get_value-Keeps k d).at c v
    step-IsValid (put k x ttl) c v = (put_value-Keeps k x ttl).at c v
    step-IsValid (delete k) c v = (delete_value-Keeps k).at c v
    step-IsValid (contains k) c v = (contains-Keeps k).at c v
    step-IsValid (compute k loader ttl) c v = (get_or_compute-Keeps k loader ttl).at c v
    step-IsValid expire c v = expire_all-Keeps.at c v
    step-IsValid (restore k n) c v = (restore_entry_metadata-Keeps k n).at c v
    step-IsValid (inspect k) c v = (inspect-Keeps k).at c v
    step-IsValid (dump limit) c v = (dump-Keeps limit).at c v
    step-IsValid clear c v = clear-Keeps.at c v
    step-IsValid (preload k loader ttl) c v = (preload-Keeps k loader ttl).at c v
    step-IsValid (request_snapshot id) c v = (request_snapshot-Keeps id).at c v
    step-IsValid start c v = start-IsValid c v
    step-IsValid (close flush m n) c v = close-IsValid flush m n c v
    step-IsValid tick c v = scheduler_tick-Keeps.at c v
    step-IsValid work c v = work-IsValid c v
    step-IsValid (wait z) c v = record { shards = v.shards; queue = v.queue }

    -- Whatever is called, and whatever the calls raise, a valid cache stays valid: in every shard
    -- the policy tracks the keys of the backend, versions, tombstones and marks agree, and the
    -- entries fit the capacity; the queue holds no more jobs than its bound.
    pub run-IsValid : (calls : List (Call K V)) (c : Cache K V) → IsValid c → IsValid (run calls c)
    unfolding run
    run-IsValid [] c v = v
    run-IsValid (call ∷ calls) c v = run-IsValid calls (step call c) (step-IsValid call c v)

module _ {K V : Type 0} ⦃h : Hashable K⦄ (lower : String → String) where
  module _ ⦃stable : StableHash K⦄ where
    -- A cache is built in a state from which no history leads out of the invariant: for a
    -- configuration that `Cache.__init__` accepts, after any history of calls of the public
    -- methods, `start` and `close` among them, scheduler ticks, worker rounds and waiting, every
    -- shard is valid and within its capacity, and the queue within its bound.
    pub run-init :
        (config : CacheConfig) (source : SlowDict K V) (clock : FakeClock) (c : Cache K V)
        (calls : List (Call K V))
        → init lower config source clock ≡ ok c
        → IsValid (run calls c)
    run-init config source clock c calls e =
        run-IsValid calls c (subst (IsValidResult lower) e (init-IsValid lower config source clock))
