-- ===== src/Cache/Flights.antt =====
-- `get_or_compute`: one loader for all callers that miss the same key.
use cache_system.Prelude.{ℕ, true, Option, none, some, [], ◌∷◌, ◌++◌, length, set, get_elem?}
use cache_system.Exec.{
  Exec, Result, ok, err, queue_backpressure_error, blocked, pure, raise, lift, gets, modify,
  attempt, with_state, ◌>>=◌, ◌>>◌,
}
use cache_system.Dict.{Hashable, get, put, pop}
use cache_system.Jobs.{Ttl}
use cache_system.Shard.{Shard, read_value}
use cache_system.Cache.{
  Cache, StableHash, now, validate_ttl, with_shard, change_shard, require_not_closed, shard_for,
}
use cache_system.Cache.Access.{put_value}

-- How a caller leaves the first section under the lock.
pub data Entered (V : Type 0) : Type 0 where
  hit : V → Entered V
  leads waits : ℕ → Entered V

module _ {K V : Type 0} ⦃h : Hashable K⦄ where
  -- The flight of a miss: the one under way, or the new one, number `fresh`.
  unfoldable pub join_flight : K → ℕ → Option V → Shard K V → Entered V × Shard K V
  join_flight k fresh (some v) s = (hit v, s)
  join_flight k fresh none s = elim (get k s.singleflight) [
    | some id ↦ (waits id, s)
    | none ↦ (leads fresh, record s { singleflight = put k fresh s.singleflight })
  ]

  unfoldable pub open_flight : Entered V → Cache K V → Cache K V
  open_flight (leads id) c = record c { flights = c.flights ++ record { outcome = none } ∷ [] }
  open_flight _ c = c

  -- The first section of `get_or_compute`, on shard `i`.
  unfoldable pub enter : K → ℕ → Exec (Cache K V) (Entered V)
  enter k i = with_state λ c. do
    found ← with_shard i (read_value k true true (now c))
    entered ← with_shard i (join_flight k (length c.flights) found)
    modify (open_flight entered)
    pure entered

  -- The result, or the exception, of a flight; its event is set, and its registration ends.
  unfoldable pub publish : K → ℕ → ℕ → Result V → Exec (Cache K V) (Unit {0})
  publish k i id r = do
    modify (λ c. record c { flights = set c.flights id (record { outcome = some r }) })
    change_shard i (λ s. record s { singleflight = pop k s.singleflight })

  -- `flight.event.wait()` and what follows it.
  unfoldable pub await_flight : ℕ → Exec (Cache K V) V
  await_flight id c = elim (get_elem? c.flights id) [
    | none ↦ (err blocked, c)
    | some f ↦ elim f.outcome [ none ↦ (err blocked, c) | some r ↦ (r, c) ]
  ]

  -- What the leader makes of the `put` of the loaded value: a flush that the queue refused is no
  -- failure of the load.
  unfoldable pub after_put : K → ℕ → ℕ → V → Result (Unit {0}) → Exec (Cache K V) V
  after_put k i id v (ok _) = publish k i id (ok v) >> pure v
  after_put k i id v (err queue_backpressure_error) = publish k i id (ok v) >> pure v
  after_put k i id v (err e) = publish k i id (err e) >> raise e

  module _ ⦃stable : StableHash K⦄ where
    unfoldable pub lead : K → Result V → Ttl → ℕ → ℕ → Exec (Cache K V) V
    lead k (err e) ttl i id = publish k i id (err e) >> raise e
    lead k (ok v) ttl i id = do r ← attempt (put_value k v ttl); after_put k i id v r

    unfoldable pub go_on : K → Result V → Ttl → ℕ → Entered V → Exec (Cache K V) V
    go_on k loader ttl i (hit v) = pure v
    go_on k loader ttl i (leads id) = lead k loader ttl i id
    go_on k loader ttl i (waits id) = await_flight id

    -- The whole method, for a caller whose flight no other thread touches in between.
    unfoldable pub get_or_compute : K → Result V → Ttl → Exec (Cache K V) V
    get_or_compute k loader ttl = do
      require_not_closed
      lift (validate_ttl ttl)
      i ← gets (shard_for k)
      entered ← enter k i
      go_on k loader ttl i entered
