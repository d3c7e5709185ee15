-- ===== src/SingleFlight/Preserves.antt =====
-- The sections of `get_or_compute`, one after the other, and the leaders of flights.
use cache_system.Prelude.{
  ℕ, zero, suc, ◌≡◌, ◌≢◌, ◌⊎◌, refl, inl, inr, Bool, true, false, Option, none, some, List, [], ◌∷◌,
  ◌++◌, All, arith, length, get_elem?, set, Option-cases, ◌∙◌, sym, ap,
}
use cache_system.Exec.{Result, ok, err}
use cache_system.Dict.{Hashable, Dict, get, put, pop}
use cache_system.Dict.Laws.{get-pop}
use cache_system.Shard.{Shard, read_value}
use cache_system.Cache.{Flight}
use cache_system.Cache.Flights.{join_flight}
use cache_system.SingleFlight.{
  Caller, outside, loading, storing, waiting, returned, System, caller_of, opened, Step, Reach,
  enter, load_failed, load, put_failed, publish, wake, leave, other, delete, clear, here, next,
}
use cache_system.SingleFlight.Sections.{
  singleflight-read_value, singleflight-put_section, singleflight-delete_marked,
}
use cache_system.SingleFlight.Moves.{
  lead, lead_at, pending, IsLed, IsValid, drop-IsValid, quiet-IsValid, same_lead,
}
use cache_system.SingleFlight.Reached.{
  Marked, leader-IsValid, leader-Marked, published-IsValid, published-Marked,
}

module _ {K V : Type 0} ⦃h : Hashable K⦄ where
  -- The invariant; without deletions a leader's flight stays registered.
  pub record Led (deletes : Bool) (d : Dict K ℕ) (fl : List (Flight V)) (cs : List (Caller K V))
      : Type 0 where
    pub valid : IsValid d fl cs
    pub marked : deletes ≡ false → Marked d cs

  abbrev pub Holds : Bool → System K V → Type 0
  Holds deletes s = Led deletes s.shard.singleflight s.flights s.callers

  module _ (deletes : Bool) (d : Dict K ℕ) (fl : List (Flight V)) (cs : List (Caller K V)) (i : ℕ)
      (c : Caller K V) (at : get_elem? cs i ≡ some c) (v : Led deletes d fl cs) where
    quiet-Led :
        (new : Caller K V)
        → lead (some new) ≡ lead (some c)
        → ((id : ℕ) → new ≡ waiting id → IsLed fl cs id)
        → Led deletes d fl (set cs i new)
    quiet-Led new e led = record {
      valid = quiet-IsValid d fl cs i c new at e led v.valid;
      marked = λ p j k id q. v.marked p j k id (sym (same_lead cs i c new at e j) ∙ q);
    }

    leader-Led :
        (k : K)
        → lead (some c) ≡ none
        → get k d ≡ none
        → Led deletes (put k (length fl) d) (fl ++ pending ∷ []) (set cs i (loading k (length fl)))
    leader-Led k idle new = record {
      valid = leader-IsValid d fl cs i c k at v.valid idle;
      marked = λ p. leader-Marked d fl cs i c k at v.valid idle new (v.marked p);
    }

    published-Led :
        (k : K) (n : ℕ) (r : Result V)
        → lead (some c) ≡ some (k, n)
        → Led deletes (pop k d) (set fl n (record { outcome = some r })) (set cs i (returned r))
    published-Led k n r led = record {
      valid = published-IsValid d fl cs i c k n r at led v.valid;
      marked = λ p. published-Marked d fl cs i c k n r at led v.valid (v.marked p);
    }

    -- The first section, whatever the read found.
    joined-Led :
        (k : K) (found : Option V) (t : Shard K V)
        → t.singleflight ≡ d
        → lead (some c) ≡ none
        → Led deletes
            (join_flight k (length fl) found t).1.singleflight
            (opened (join_flight k (length fl) found t).0 fl)
            (set cs i (caller_of k (join_flight k (length fl) found t).0))
    unfolding join_flight
    joined-Led k (some x) t e idle =
        rw e (quiet-Led (returned (ok x)) (sym idle) (λ id p. absurd (ground arith)))
    joined-Led k none t e idle = elim (Option-cases (get k t.singleflight)) [
      | inl new ↦ rw (new, join_flight, e) (leader-Led k idle (ap (get k) (sym e) ∙ new))
      | inr (id, under) ↦
          rw (under, join_flight, e)
            (quiet-Led (waiting id) (sym idle) (λ m p.
              let (j, q) = v.valid.registered k m (ground (arith, under, e, p)) in
              (pending, v.valid.underway j k m q, λ o. (j, k, q))))
    ]

  dropped-Led :
      (deletes : Bool) (d e : Dict K ℕ) (fl : List (Flight V)) (cs : List (Caller K V))
      → ((k : K) (id : ℕ) → get k e ≡ some id → get k d ≡ some id)
      → deletes ≡ true
      → Led deletes d fl cs
      → Led deletes e fl cs
  dropped-Led deletes d e fl cs less p v = record {
    valid = drop-IsValid d e fl cs less v.valid;
    marked = λ q. absurd (ground (arith, p, q));
  }

  step-Holds :
      (deletes : Bool) (s t : System K V) → Holds deletes s → Step deletes s t → Holds deletes t
  unfolding get
  step-Holds deletes s t v (enter i k now at) =
      joined-Led deletes s.shard.singleflight s.flights s.callers i outside at v k _
        (read_value k true true now s.shard).1 (singleflight-read_value s.shard k true true now)
        refl
  step-Holds deletes s t v (load_failed i k id e at) =
      published-Led deletes _ _ _ i _ at v k id (err e) refl
  step-Holds deletes s t v (load i k id x ttl b now d at) =
      rw (singleflight-put_section s.shard k x ttl b now d)
        (quiet-Led deletes _ _ _ i _ at v (storing k id x) refl (λ n p. absurd (ground arith)))
  step-Holds deletes s t v (put_failed i k id x e at) =
      published-Led deletes _ _ _ i _ at v k id (err e) refl
  step-Holds deletes s t v (publish i k id x at) =
      published-Led deletes _ _ _ i _ at v k id (ok x) refl
  step-Holds deletes s t v (wake i id r at found) =
      quiet-Led deletes _ _ _ i _ at v (returned r) refl (λ n p. absurd (ground arith))
  step-Holds deletes s t v (leave i r at) =
      quiet-Led deletes _ _ _ i _ at v outside refl (λ n p. absurd (ground arith))
  step-Holds deletes s t v (other u e) = rw e v
  step-Holds deletes s t v (delete k b p) =
      dropped-Led deletes s.shard.singleflight _ _ _
        (λ l id q.
          ground
            (arith, get-pop k l s.shard.singleflight, singleflight-delete_marked s.shard b k, q))
        p v
  step-Holds deletes s t v (clear p) =
      dropped-Led deletes _ [] _ _ (λ l id q. absurd (ground arith)) p v

  -- No call of `get_or_compute` has begun.
  pub record IsNew (s : System K V) : Type 0 where
    pub unregistered : s.shard.singleflight ≡ []
    pub no_flights : s.flights ≡ []
    pub idle : All (λ c. c ≡ outside) s.callers

  outside_at :
      (cs : List (Caller K V)) (i : ℕ)
      → All (λ c. c ≡ outside) cs
      → (get_elem? cs i ≡ none) ⊎ (get_elem? cs i ≡ some outside)
  outside_at [] i a = inl refl
  outside_at (c ∷ cs) zero a = inr (ap some a.0)
  outside_at (c ∷ cs) (suc i) a = outside_at cs i a.1

  pub new-Holds : (deletes : Bool) (s : System K V) → IsNew s → Holds deletes s
  unfolding get
  new-Holds deletes s n = record {
    valid = record {
      underway = λ i k id p. absurd (idle i k id p);
      alone = λ i j k l id p q. absurd (idle i k id p);
      registered = λ k id p. absurd (ground (arith, n.unregistered, p));
      awaited = λ i id p. absurd (ground (arith, outside_at s.callers i n.idle, p));
    };
    marked = λ p i k id q. absurd (idle i k id q);
  }
    where
      idle : (i : ℕ) (k : K) (id : ℕ) → lead_at s.callers i ≢ some (k, id)
      idle i k id p = ground (arith, outside_at s.callers i n.idle, p)

  pub Reach-Holds :
      (deletes : Bool) (s t : System K V) → Holds deletes s → Reach deletes s t → Holds deletes t
  Reach-Holds deletes s t v here = v
  Reach-Holds deletes s t v (next {t = u} r step) =
      step-Holds deletes u t (Reach-Holds deletes s u v r) step
