-- ===== src/Cache/Values/Loads.antt =====
-- `get_or_compute` of a key that may have the value that the loader returns.
use cache_system.Prelude.{
  ℕ, ◌≡◌, Option, none, some, Option-cases, inl, inr, List, arith, subst, sym,
}
use cache_system.Exec.{Result, ok, err, queue_backpressure_error, modify}
use cache_system.Exec.Keeps.{
  Keeps, Keeps-modify, Keeps-then, Keeps-bind, Keeps-attempt, Keeps-lift, Keeps-gets, keeps_rules,
}
use cache_system.Dict.{Hashable, get}
use cache_system.Jobs.{Ttl}
use cache_system.Shard.{Shard}
use cache_system.Shard.Reads.{singleflight-IsSettled}
use cache_system.Cache.{Cache, StableHash, with_shard}
use cache_system.Cache.Flights.{
  Entered, hit, leads, waits, join_flight, open_flight, enter, publish, await_flight, after_put,
  lead, go_on, get_or_compute,
}
use cache_system.Cache.Rounds.{join_flight-IsSettled}
use cache_system.Cache.Values.{IsOneOf, Kept, Agrees, with_shard-Keeps}
use cache_system.Cache.Values.Sections.{Kept-refl}
use cache_system.Cache.Values.Calls.{change_shard-Keeps, require_not_closed-Keeps, read_value-Keeps}
use cache_system.Cache.Values.Writes.{put_value-Keeps}

abbrev pub Loads : {V : Type 0} → Result V → List V → Type 0
Loads (ok v) vs = IsOneOf v vs
Loads (err e) vs = Unit

module _ {K V : Type 0} ⦃h : Hashable K⦄ ⦃stable : StableHash K⦄ (n : ℕ) (m : K → List V) where
  join_flight-Kept :
      (k : K) (fresh : ℕ) (found : Option V) (s : Shard K V) (j : K)
      → Kept (get j s.backend) (get j (join_flight k fresh found s).1.backend)
  unfolding join_flight
  join_flight-Kept k fresh (some x) s j = Kept-refl (get j s.backend)
  join_flight-Kept k fresh none s j = elim (Option-cases (get k s.singleflight)) [
    | inl e ↦ rw (e, join_flight) (Kept-refl (get j s.backend))
    | inr (id, e) ↦ rw (e, join_flight) (Kept-refl (get j s.backend))
  ]

  open_flight-Keeps : (e : Entered V) → Keeps (Agrees n m) (modify (open_flight e))
  unfolding open_flight
  open_flight-Keeps (leads id) = Keeps-modify _ (λ c a. a)
  open_flight-Keeps _ = Keeps-modify _ (λ c a. a)

  join_flight-Keeps :
      (i : ℕ) (k : K) (fresh : ℕ) (found : Option V)
      → Keeps (Agrees n m) (with_shard i (join_flight k fresh found))
  join_flight-Keeps i k fresh found =
      with_shard-Keeps n i (join_flight k fresh found) m (join_flight-IsSettled k fresh found)
        (join_flight-Kept k fresh found)

  enter-Keeps : (k : K) (i : ℕ) → Keeps (Agrees n m) (enter k i)
  unfolding enter
  enter-Keeps k i =
      search (keeps_rules, read_value-Keeps n m, join_flight-Keeps, open_flight-Keeps) depth 12

  publish-Keeps : (k : K) (i id : ℕ) (r : Result V) → Keeps (Agrees n m) (publish k i id r)
  unfolding publish
  publish-Keeps k i id r = Keeps-then _ _ (Keeps-modify _ (λ c a. a)) (
      change_shard-Keeps n m i _ (λ s. singleflight-IsSettled s _)
        (λ s j. Kept-refl (get j s.backend)))

  await_flight-Keeps : (id : ℕ) → Keeps (Agrees n m) (await_flight id)
  await_flight-Keeps id = record { at = λ c a. subst (Agrees n m) (sym (same c)) a }
    where
      same : (c : Cache K V) → (await_flight id c).1 ≡ c
      same c = unfold await_flight in ground arith

  after_put-Keeps :
      (k : K) (i id : ℕ) (x : V) (r : Result (Unit {0})) → Keeps (Agrees n m) (after_put k i id x r)
  unfolding after_put
  after_put-Keeps k i id x (ok _) = search (keeps_rules, publish-Keeps)
  after_put-Keeps k i id x (err queue_backpressure_error) = search (keeps_rules, publish-Keeps)
  after_put-Keeps k i id x (err _) = search (keeps_rules, publish-Keeps)

  lead-Keeps :
      (k : K) (loader : Result V) (ttl : Ttl) (i id : ℕ)
      → Loads loader (m k)
      → Keeps (Agrees n m) (lead k loader ttl i id)
  unfolding lead
  lead-Keeps k (err e) ttl i id p = search (keeps_rules, publish-Keeps)
  lead-Keeps k (ok x) ttl i id p =
      Keeps-bind _ _ (Keeps-attempt _ (put_value-Keeps n k x ttl m p)) (after_put-Keeps k i id x)

  go_on-Keeps :
      (k : K) (loader : Result V) (ttl : Ttl) (i : ℕ) (e : Entered V)
      → Loads loader (m k)
      → Keeps (Agrees n m) (go_on k loader ttl i e)
  unfolding go_on
  go_on-Keeps k loader ttl i (hit x) p = search keeps_rules
  go_on-Keeps k loader ttl i (leads id) p = lead-Keeps k loader ttl i id p
  go_on-Keeps k loader ttl i (waits id) p = await_flight-Keeps id

  pub get_or_compute-Keeps :
      (k : K) (loader : Result V) (ttl : Ttl)
      → Loads loader (m k)
      → Keeps (Agrees n m) (get_or_compute k loader ttl)
  unfolding get_or_compute
  get_or_compute-Keeps k loader ttl p = Keeps-then _ _ (require_not_closed-Keeps n m) (
      Keeps-then _ _ (Keeps-lift _) (
        Keeps-bind _ _ (Keeps-gets _)
          (λ i. Keeps-bind _ _ (enter-Keeps k i) (λ e. go_on-Keeps k loader ttl i e p))))
