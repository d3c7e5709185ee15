-- ===== src/SingleFlight.antt =====
-- `get_or_compute` of core/cache.py, a section at a time: callers of one shard, interleaved in any
-- order with each other and with what else is done to the shard. A caller enters under the lock,
-- loads without it, stores what was loaded, and publishes it under the lock again; a caller that
-- finds a flight under way waits for its event. Each section of `clear` is a step of its own.
mod Sections
pub mod Moves
mod Reached
pub mod Preserves
pub mod Leaders
pub mod Outcomes
pub mod Forgotten
use cache_system.Prelude.{
  ℕ, ◌≡◌, Bool, true, Option, none, some, List, [], ◌∷◌, ◌++◌, length, get_elem?, set,
}
use cache_system.Prelude.Int.{ℤ}
use cache_system.Exec.{Error, Result, ok, err}
use cache_system.Dict.{Hashable, pop}
use cache_system.Jobs.{Ttl}
use cache_system.Policy
use cache_system.Shard.{Shard, read_value}
use cache_system.Shard.Writes.{existing_entry, put_entry, delete_marked}
use cache_system.Cache.{Flight}
use cache_system.Cache.Access.{drop_flight}
use cache_system.Cache.Flights.{Entered, hit, leads, waits, join_flight}

-- Where a thread stands in `get_or_compute`.
pub data Caller (K V : Type 0) : Type 0 where
  outside : Caller K V
  -- the leader of a flight, in its loader
  loading : K → ℕ → Caller K V
  -- the leader, with what was loaded, after the section of `put`
  storing : K → ℕ → V → Caller K V
  -- `flight.event.wait()`
  waiting : ℕ → Caller K V
  returned : Result V → Caller K V

pub record System (K V : Type 0) : Type 0 where
  pub shard : Shard K V
  pub flights : List (Flight V)
  pub callers : List (Caller K V)

-- A flight that a new leader opens.
abbrev pub opened : {V : Type 0} → Entered V → List (Flight V) → List (Flight V)
opened (leads id) l = l ++ record { outcome = none } ∷ []
opened _ l = l

module _ {K V : Type 0} where
  abbrev pub caller_of : K → Entered V → Caller K V
  caller_of k (hit v) = returned (ok v)
  caller_of k (leads id) = loading k id
  caller_of k (waits id) = waiting id

module _ {K V : Type 0} ⦃h : Hashable K⦄ where
  -- The first section, under the lock.
  abbrev pub entered : ℕ → K → ℕ → System K V → System K V
  entered i k now s =
      let (found, t) = read_value k true true now s.shard in
      let (e, u) = join_flight k (length s.flights) found t in
      record { shard = u; flights = opened e s.flights; callers = set s.callers i (caller_of k e) }

  -- The section of `put` under the lock.
  abbrev pub put_section : K → V → Ttl → Bool → ℕ → Option ℤ → Shard K V → Shard K V
  put_section k v ttl write_back now default_ttl s =
      (put_entry k v ttl write_back now default_ttl (existing_entry k now s).0
        (existing_entry k now s).1).1

  -- The last section of a leader, or `_fail_flight_locked`, and the end of its call.
  abbrev pub published : ℕ → K → ℕ → Result V → System K V → System K V
  published i k id r s = record {
    shard = record s.shard { singleflight = pop k s.shard.singleflight };
    flights = set s.flights id (record { outcome = some r });
    callers = set s.callers i (returned r);
  }

  -- One section of a thread; the flag says whether there are deletions.
  pub data Step (deletes : Bool) (s : System K V) : System K V → Type 0 where
    enter :
        (i : ℕ) (k : K) (now : ℕ)
        → get_elem? s.callers i ≡ some outside
        → Step deletes s (entered i k now s)
    load_failed :
        (i : ℕ) (k : K) (id : ℕ) (e : Error)
        → get_elem? s.callers i ≡ some (loading k id)
        → Step deletes s (published i k id (err e) s)
    load :
        (i : ℕ) (k : K) (id : ℕ) (v : V) (ttl : Ttl) (write_back : Bool) (now : ℕ)
        (default_ttl : Option ℤ)
        → get_elem? s.callers i ≡ some (loading k id)
        → Step deletes s (record s {
          shard = put_section k v ttl write_back now default_ttl s.shard;
          callers = set s.callers i (storing k id v);
        })
    -- what follows the section of `put` raised, and not because the queue is full
    put_failed :
        (i : ℕ) (k : K) (id : ℕ) (v : V) (e : Error)
        → get_elem? s.callers i ≡ some (storing k id v)
        → Step deletes s (published i k id (err e) s)
    publish :
        (i : ℕ) (k : K) (id : ℕ) (v : V)
        → get_elem? s.callers i ≡ some (storing k id v)
        → Step deletes s (published i k id (ok v) s)
    wake :
        (i id : ℕ) (r : Result V)
        → get_elem? s.callers i ≡ some (waiting id)
        → get_elem? s.flights id ≡ some (record { outcome = some r })
        → Step deletes s (record s { callers = set s.callers i (returned r) })
    leave :
        (i : ℕ) (r : Result V)
        → get_elem? s.callers i ≡ some (returned r)
        → Step deletes s (record s { callers = set s.callers i outside })
    -- any section that leaves the registered flights alone
    other :
        (t : Shard K V)
        → t.singleflight ≡ s.shard.singleflight
        → Step deletes s (record s { shard = t })
    delete :
        (k : K) (write_back : Bool)
        → deletes ≡ true
        → Step deletes s (record s { shard = drop_flight k (delete_marked write_back k s.shard).1 })
    clear :
        deletes ≡ true
        → Step deletes s (record s {
          shard = record s.shard { policy = Policy.clear s.shard.policy; singleflight = [] };
        })

  pub data Reach (deletes : Bool) (s : System K V) : System K V → Type 0 where
    here : Reach deletes s s
    next : {t u : System K V} → Reach deletes s t → Step deletes t u → Reach deletes s u
