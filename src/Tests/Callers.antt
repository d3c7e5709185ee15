-- ===== src/Tests/Callers.antt =====
-- Runs of the theorems about the interleavings of `get_or_compute`.
use cache_system.Prelude.{
  ℕ, ◌≡◌, ◌⊎◌, inl, inr, set, refl, Bool, ℕ_discrete, true, false, some, [], get_elem?,
}
use cache_system.Exec.{Result, err, runtime_error}
use cache_system.Dict
use cache_system.Dict.{Hashable}
use cache_system.Policy.{lru}
use cache_system.Policy.Lfu.{nat_hashable}
use cache_system.Shard.{read_value}
use cache_system.Cache.Flights.{join_flight}
use cache_system.SingleFlight.{
  System, Reach, wake, returned, waiting, entered, published, enter, load_failed, here, next,
}
use cache_system.SingleFlight.Moves.{lead_at}
use cache_system.SingleFlight.Preserves.{IsNew}
use cache_system.SingleFlight.Leaders.{one_leader, waiting-IsLed}
use cache_system.SingleFlight.Outcomes.{Returns, one_result}
use cache_system.SingleFlight.Forgotten.{idle_system, third_leader}

abbrev system0 : System ℕ ℕ
system0 = idle_system 0 1 (lru [])

system0-IsNew : IsNew system0
system0-IsNew = record { unregistered = refl; no_flights = refl; idle = (refl, (refl, (refl, tt))) }

-- Two callers of one key, and the failure of the loader.
abbrev waiting0 : System ℕ ℕ
waiting0 = entered 1 7 0 (entered 0 7 0 system0)

abbrev failed0 : System ℕ ℕ
failed0 = published 0 7 0 (err runtime_error) waiting0

runs0 : (deletes : Bool) → Reach deletes system0 waiting0
unfolding read_value Dict.get join_flight Dict.put ℕ_discrete
runs0 deletes = next (next here (enter 0 7 0 refl)) (enter 1 7 0 refl)

leads0 : lead_at waiting0.callers 0 ≡ some (7, 0)
unfolding read_value Dict.get join_flight Dict.put ℕ_discrete
leads0 = refl

waits0 : get_elem? waiting0.callers 1 ≡ some (waiting 0)
unfolding read_value Dict.get join_flight Dict.put ℕ_discrete
waits0 = refl

one_leader_example : ◌≡◌ {A = ℕ} 0 0
one_leader_example = one_leader system0 waiting0 0 0 7 0 0 system0-IsNew (runs0 false) leads0 leads0

waiting-IsLed_example :
    ((r : Result ℕ) × (get_elem? waiting0.flights 0 ≡ some (record { outcome = some r })))
    ⊎ ((j k : ℕ) × (lead_at waiting0.callers j ≡ some (k, 0)))
waiting-IsLed_example = waiting-IsLed true system0 waiting0 1 0 system0-IsNew (runs0 true) waits0

-- The leader raises, and then the waiter does.
leader-Returns : Returns true waiting0 failed0 0 0 (err runtime_error)
unfolding read_value Dict.get join_flight Dict.put ℕ_discrete
leader-Returns = record {
  part = inr (7, leads0);
  step = load_failed 0 7 0 runtime_error refl;
  result = refl;
}

abbrev woken0 : System ℕ ℕ
woken0 = record failed0 { callers = set failed0.callers 1 (returned (err runtime_error)) }

waiter-Returns : Returns true failed0 woken0 1 0 (err runtime_error)
unfolding read_value Dict.get join_flight Dict.put ℕ_discrete
waiter-Returns = record {
  part = inl refl;
  step = wake 1 0 (err runtime_error) refl refl;
  result = refl;
}

one_result_example : ◌≡◌ {A = Result ℕ} (err runtime_error) (err runtime_error)
one_result_example =
    one_result true system0 waiting0 failed0 failed0 woken0 0 1 0 (err runtime_error)
      (err runtime_error) system0-IsNew (runs0 true) leader-Returns here waiter-Returns

third_leader_example :
    (u t : System ℕ ℕ) × Reach true system0 u
    × (Dict.get 7 u.shard.singleflight ≡ some 1)
    × (lead_at u.callers 1 ≡ some (7, 1))
    × Reach false u t
    × (lead_at t.callers 1 ≡ some (7, 1))
    × (lead_at t.callers 2 ≡ some (7, 2))
third_leader_example = third_leader 0 1 (lru []) 7 runtime_error 0
