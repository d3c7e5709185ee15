-- ===== src/SingleFlight/Forgotten.antt =====
-- What becomes of a flight when another leader of its key ends.
use cache_system.Prelude.{
  ℕ, ◌≡◌, refl, true, false, none, some, [], ◌∷◌, ◌++◌, length, set, subst, ap,
}
use cache_system.Exec.{Error, err}
use cache_system.Dict.{Hashable, get, put}
use cache_system.Dict.Laws.{get-put_self, get-pop_self}
use cache_system.Policy
use cache_system.Policy.{Policy}
use cache_system.Shard.{read_value, count_miss}
use cache_system.Cache.Init.{new_shard}
use cache_system.Cache.Flights.{join_flight}
use cache_system.SingleFlight.{
  System, outside, loading, entered, published, Reach, here, next, enter, clear, load_failed,
}
use cache_system.SingleFlight.Moves.{lead_at, pending}

module _ {K V : Type 0} ⦃h : Hashable K⦄ where
  -- The state after a caller has opened a flight.
  abbrev leads_at : ℕ → K → System K V → System K V
  leads_at i k s = record {
    shard = record s.shard {
      backend = [];
      stats = count_miss true s.shard.stats;
      singleflight = put k (length s.flights) s.shard.singleflight;
    };
    flights = s.flights ++ pending ∷ [];
    callers = set s.callers i (loading k (length s.flights));
  }

  entered_alone :
      (i : ℕ) (k : K) (now : ℕ) (s : System K V)
      → s.shard.backend ≡ []
      → get k s.shard.singleflight ≡ none
      → entered i k now s ≡ leads_at i k s
  unfolding read_value get join_flight
  entered_alone i k now s e n =
      rw (e, read_value, n, join_flight)
        (ap (λ b. record (leads_at i k s) { shard = record (leads_at i k s).shard { backend = b } })
          e)

  -- A cache of one shard and three callers.
  abbrev pub idle_system : ℕ → ℕ → Policy K → System K V
  idle_system index capacity policy = record {
    shard = new_shard index capacity policy;
    flights = [];
    callers = outside ∷ outside ∷ outside ∷ [];
  }

  abbrev cleared : System K V → System K V
  cleared s = record s {
    shard = record s.shard { policy = Policy.clear s.shard.policy; singleflight = [] };
  }

  module _ (index capacity : ℕ) (policy : Policy K) (k : K) (e : Error) (now : ℕ) where
    -- A leader, a `clear`, and another leader; the first one fails, and a third caller comes.
    abbrev one_leads : System K V
    one_leads = leads_at 0 k (idle_system index capacity policy)

    abbrev two_lead : System K V
    two_lead = leads_at 1 k (cleared one_leads)

    abbrev first_failed : System K V
    first_failed = published 0 k 0 (err e) two_lead

    to_two : Reach true (idle_system index capacity policy) two_lead
    unfolding get
    to_two =
        subst (Reach true (idle_system index capacity policy))
          (entered_alone 1 k now (cleared one_leads) refl refl)
          (next
            (next
              (subst (Reach true (idle_system index capacity policy))
                (entered_alone 0 k now (idle_system index capacity policy) refl refl)
                (next here (enter 0 k now refl)))
              (clear refl))
            (enter 1 k now refl))

    to_third : Reach false two_lead (leads_at 2 k first_failed)
    to_third =
        subst (Reach false two_lead)
          (entered_alone 2 k now first_failed refl (get-pop_self k two_lead.shard.singleflight))
          (next (next here (load_failed 0 k 0 e refl)) (enter 2 k now refl))

    -- A leader's end can unregister the flight of another leader. In a new shard, for any key: after a
    -- `clear` has made room for a second leader, whose flight is the registered one, the first
    -- leader's loader raises; with no further `clear` or deletion, a third caller then becomes a
    -- leader while the second one is still in its loader.
    pub third_leader :
        (u t : System K V) × Reach true (idle_system index capacity policy) u
        × (get k u.shard.singleflight ≡ some 1)
        × (lead_at u.callers 1 ≡ some (k, 1))
        × Reach false u t
        × (lead_at t.callers 1 ≡ some (k, 1))
        × (lead_at t.callers 2 ≡ some (k, 2))
    third_leader = (
      two_lead,
      leads_at 2 k first_failed,
      to_two,
      get-put_self k 1 [],
      refl,
      to_third,
      refl,
      refl,
    )
