-- ===== src/SingleFlight/Outcomes.antt =====
-- What the callers of one flight return.
use cache_system.Prelude.{
  ℕ, ◌≡◌, ◌⊎◌, refl, inl, inr, Bool, true, some, arith, length, get_elem?, set, get_elem?-set_ne,
  ◌∙◌, ap, ◌≢◌, sym, get_elem?-set_self, get_elem?-some, ℕ_discrete, subst,
}
use cache_system.Exec.{Result}
use cache_system.Dict.{Hashable}
use cache_system.Shard.{read_value}
use cache_system.Cache.{Flight}
use cache_system.Cache.Flights.{Entered, hit, leads, waits, join_flight}
use cache_system.SingleFlight.{
  Caller, Reach, Step, System, clear, delete, enter, here, leave, load, load_failed, next, opened,
  other, outside, publish, put_failed, returned, storing, waiting, wake,
}
use cache_system.SingleFlight.Moves.{lead, lead_at, IsValid, get_elem?-append}
use cache_system.SingleFlight.Preserves.{Holds, IsNew, new-Holds, Reach-Holds}

module _ {K V : Type 0} ⦃h : Hashable K⦄ where
  module _ (s : System K V) (v : IsValid s.shard.singleflight s.flights s.callers) (id : ℕ)
      (f : Flight V) where
    -- A flight that is over is not published again.
    published-kept :
        (i : ℕ) (k : K) (n : ℕ) (r x : Result V)
        → f.outcome ≡ some x
        → lead_at s.callers i ≡ some (k, n)
        → get_elem? s.flights id ≡ some f
        → get_elem? (set s.flights n (record { outcome = some r })) id ≡ some f
    published-kept i k n r x over led e =
        get_elem?-set_ne s.flights n id _
          (λ same. ground (arith, over, e, same, v.underway i k n led))
        ∙ e

    step-kept :
        (deletes : Bool) (t : System K V) (x : Result V)
        → f.outcome ≡ some x
        → get_elem? s.flights id ≡ some f
        → Step deletes s t
        → get_elem? t.flights id ≡ some f
    step-kept deletes t x over e (enter i k now at) =
        joined (join_flight k (length s.flights) _ (read_value k true true now s.shard).1).0
      where
        joined : (b : Entered V) → get_elem? (opened b s.flights) id ≡ some f
        joined (hit y) = e
        joined (waits n) = e
        joined (leads n) = get_elem?-append s.flights _ id f e
    step-kept deletes t x over e (load_failed i k n y at) =
        published-kept i k n _ x over (ap lead at) e
    step-kept deletes t x over e (load i k n y ttl b now d at) = e
    step-kept deletes t x over e (put_failed i k n y z at) =
        published-kept i k n _ x over (ap lead at) e
    step-kept deletes t x over e (publish i k n y at) = published-kept i k n _ x over (ap lead at) e
    step-kept deletes t x over e (wake i n r at found) = e
    step-kept deletes t x over e (leave i r at) = e
    step-kept deletes t x over e (other u p) = e
    step-kept deletes t x over e (delete k b p) = e
    step-kept deletes t x over e (clear p) = e

  outcome-kept :
      (deletes : Bool) (t u : System K V) (id : ℕ) (r : Result V)
      → Holds deletes t
      → get_elem? t.flights id ≡ some (record { outcome = some r })
      → Reach deletes t u
      → get_elem? u.flights id ≡ some (record { outcome = some r })
  outcome-kept deletes t u id r v e here = e
  outcome-kept deletes t u id r v e (next {t = w} more step) =
      step-kept w (Reach-Holds deletes t w v more).valid id (record { outcome = some r }) deletes u
        r refl (outcome-kept deletes t w id r v e more) step

  -- A caller that leads a flight or waits for it.
  abbrev pub TakesPart : System K V → ℕ → ℕ → Type 0
  TakesPart s i id =
      (get_elem? s.callers i ≡ some (waiting id)) ⊎ ((k : K) × (lead_at s.callers i ≡ some (k, id)))

  -- A step in which a caller of a flight returns.
  pub record Returns (deletes : Bool) (s t : System K V) (i id : ℕ) (r : Result V) : Type 0 where
    pub part : TakesPart s i id
    pub step : Step deletes s t
    pub result : get_elem? t.callers i ≡ some (returned r)

  not_returned :
      (s : System K V) (i id : ℕ) (r : Result V)
      → TakesPart s i id
      → get_elem? s.callers i ≢ some (returned r)
  not_returned s i id r (inl w) e = ground (arith, w, e)
  not_returned s i id r (inr (k, l)) e = ground (arith, l, e)

  -- Another caller's move leaves it where it was.
  moved_other :
      (s : System K V) (i j id : ℕ) (r : Result V) (c : Caller K V)
      → TakesPart s i id
      → i ≢ j
      → get_elem? (set s.callers j c) i ≢ some (returned r)
  moved_other s i j id r c part apart e =
      not_returned s i id r part (sym (get_elem?-set_ne s.callers j i c (λ p. apart (sym p))) ∙ e)

  module _ (s : System K V) (v : IsValid s.shard.singleflight s.flights s.callers) (i id : ℕ)
      (r : Result V) (part : TakesPart s i id) where
    -- A caller that returns by a step of another section was no part of the flight.
    set_other :
        (j : ℕ) (c old : Caller K V)
        → get_elem? s.callers j ≡ some old
        → ((i ≡ j) → c ≢ returned r)
        → get_elem? (set s.callers j c) i ≢ some (returned r)
    set_other j c old at n e = elim (ℕ_discrete i j) [
      | no apart ↦ moved_other s i j id r c part apart e
      | yes same ↦ n same (
          ground
            (arith, get_elem?-set_self s.callers j c, get_elem?-some s.callers j old at, same, e))
    ]

    not_outside : (j : ℕ) → i ≡ j → get_elem? s.callers j ≢ some outside
    not_outside j same at = go part
      where
        go : TakesPart s i id → ⊥
        go (inl w) = ground (arith, w, same, at)
        go (inr (l, e)) = ground (arith, e, same, at)

    waited : (j n : ℕ) → i ≡ j → get_elem? s.callers j ≡ some (waiting n) → n ≡ id
    waited j n same at = go part
      where
        go : TakesPart s i id → n ≡ id
        go (inl w) = ground (arith, w, same, at)
        go (inr (l, e)) = absurd (ground (arith, e, same, at))

    returned_self :
        (j : ℕ) (old : Caller K V) (x : Result V)
        → i ≡ j
        → get_elem? s.callers j ≡ some old
        → get_elem? (set s.callers j (returned x)) i ≡ some (returned r)
        → x ≡ r
    returned_self j old x same at e = ground (
      arith,
      get_elem?-set_self s.callers j (returned x),
      get_elem?-some s.callers j old at,
      same,
      e,
    )

    -- The leader returns what it publishes.
    -- Who leads takes part in the flight that it leads, and in no other.
    led_part : (j : ℕ) (k : K) (n : ℕ) → i ≡ j → lead_at s.callers j ≡ some (k, n) → n ≡ id
    led_part j k n same led = go part
      where
        go : TakesPart s i id → n ≡ id
        go (inl w) = absurd (ground (arith, w, same, led))
        go (inr (l, e)) = ground (arith, e, same, led)

    -- The leader returns what it publishes.
    published-Returns :
        (j : ℕ) (k : K) (n : ℕ) (x : Result V) (old : Caller K V)
        → get_elem? s.callers j ≡ some old
        → lead (some old) ≡ some (k, n)
        → get_elem? (set s.callers j (returned x)) i ≡ some (returned r)
        → get_elem? (set s.flights n (record { outcome = some x })) id
          ≡ some (record { outcome = some r })
    published-Returns j k n x old at leading e = elim (ℕ_discrete i j) [
      | no apart ↦ absurd (moved_other s i j id r (returned x) part apart e)
      | yes same ↦
          let led : lead_at s.callers j ≡ some (k, n) = ap lead at ∙ leading in
          let here_too : x ≡ r = returned_self j old x same at e in
          subst
            (λ y.
              get_elem? (set s.flights n (record { outcome = some x })) id
              ≡ some (record { outcome = some y }))
            here_too
            (subst
              (λ m.
                get_elem? (set s.flights n (record { outcome = some x })) m
                ≡ some (record { outcome = some x }))
              (led_part j k n same led)
              (get_elem?-set_self s.flights n _
                (get_elem?-some s.flights n _ (v.underway j k n led))))
    ]

    -- What a caller of a flight returns is the outcome of the flight.
    Returns-outcome :
        (deletes : Bool) (t : System K V)
        → Step deletes s t
        → get_elem? t.callers i ≡ some (returned r)
        → get_elem? t.flights id ≡ some (record { outcome = some r })
    Returns-outcome deletes t (load_failed j k n y at) e = published-Returns j k n _ _ at refl e
    Returns-outcome deletes t (put_failed j k n y z at) e = published-Returns j k n _ _ at refl e
    Returns-outcome deletes t (publish j k n y at) e = published-Returns j k n _ _ at refl e
    Returns-outcome deletes t (load j k n y ttl b now d at) e =
        absurd (set_other j (storing k n y) _ at (λ p q. ground (arith, q)) e)
    Returns-outcome deletes t (leave j x at) e =
        absurd (set_other j outside _ at (λ p q. ground (arith, q)) e)
    Returns-outcome deletes t (other u p) e = absurd (not_returned s i id r part e)
    Returns-outcome deletes t (delete k b p) e = absurd (not_returned s i id r part e)
    Returns-outcome deletes t (clear p) e = absurd (not_returned s i id r part e)
    Returns-outcome deletes t (enter j k now at) e =
        absurd (set_other j _ _ at (λ p q. not_outside j p at) e)
    Returns-outcome deletes t (wake j n x at found) e = elim (ℕ_discrete i j) [
      | no apart ↦ absurd (moved_other s i j id r (returned x) part apart e)
      | yes same ↦
          let flight : n ≡ id = waited j n same at in
          let own : x ≡ r = returned_self j (waiting n) x same at e in
          ground (arith, found, flight, own)
    ]

  -- All callers of a flight return one result. However the callers and other sections interleave,
  -- deletions included, if one caller of a flight, its leader or one that waits for it, returns, and
  -- then or later another caller of that flight returns, the two return the same value or raise
  -- the same exception.
  pub one_result :
      (deletes : Bool) (s t u t' u' : System K V) (i j id : ℕ) (x y : Result V)
      → IsNew s
      → Reach deletes s t
      → Returns deletes t u i id x
      → Reach deletes u t'
      → Returns deletes t' u' j id y
      → x ≡ y
  one_result deletes s t u t' u' i j id x y new reached first between last =
      let vt = Reach-Holds deletes s t (new-Holds deletes s new) reached in
      let vu = Reach-Holds deletes t u vt (next here first.step) in
      let vl = Reach-Holds deletes u t' vu between in
      let over = Returns-outcome t vt.valid i id x first.part deletes u first.step first.result in
      let kept = outcome-kept deletes u t' id x vu over between in
      let final =
        step-kept t' vl.valid id (record { outcome = some x }) deletes u' x refl kept last.step in
      let own = Returns-outcome t' vl.valid j id y last.part deletes u' last.step last.result in
      ground (arith, final, own)
