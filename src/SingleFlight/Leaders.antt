-- ===== src/SingleFlight/Leaders.antt =====
-- Leaders and waiters in every interleaving of the sections of `get_or_compute`.
use cache_system.Prelude.{
  ℕ, ◌≡◌, ◌⊎◌, refl, inl, inr, Bool, false, some, arith, get_elem?, Option-cases,
}
use cache_system.Exec.{Result}
use cache_system.Dict.{Hashable}
use cache_system.SingleFlight.{Reach, System, waiting}
use cache_system.SingleFlight.Moves.{lead_at, pending}
use cache_system.SingleFlight.Preserves.{IsNew, new-Holds, Reach-Holds}

module _ {K V : Type 0} ⦃h : Hashable K⦄ where
  -- With no deletion at most one caller leads for a key: in every interleaving of the sections of
  -- `get_or_compute` with each other and with other sections of the shard, two callers that are
  -- loading or storing the same key are one and the same.
  pub one_leader :
      (s t : System K V) (i j : ℕ) (k : K) (n m : ℕ)
      → IsNew s
      → Reach false s t
      → lead_at t.callers i ≡ some (k, n)
      → lead_at t.callers j ≡ some (k, m)
      → i ≡ j
  one_leader s t i j k n m new r p q =
      let v = Reach-Holds false s t (new-Holds false s new) r in
      v.valid.alone i j k k n p (ground (arith, q, v.marked refl i k n p, v.marked refl j k m q))

  -- No waiter is abandoned, deletions included: whenever a caller waits for a flight, the flight is
  -- over, so that the waiter returns its result, or a caller still leads that flight.
  pub waiting-IsLed :
      (deletes : Bool) (s t : System K V) (i id : ℕ)
      → IsNew s
      → Reach deletes s t
      → get_elem? t.callers i ≡ some (waiting id)
      → ((r : Result V) × (get_elem? t.flights id ≡ some (record { outcome = some r })))
        ⊎ ((j : ℕ) × (k : K) × (lead_at t.callers j ≡ some (k, id)))
  waiting-IsLed deletes s t i id new r p =
      let (f, found, led) =
        (Reach-Holds deletes s t (new-Holds deletes s new) r).valid.awaited i id p in
      elim (Option-cases f.outcome) [
        | inl pending ↦ inr (led pending)
        | inr (x, e) ↦ inl (x, ground (arith, found, e))
      ]
