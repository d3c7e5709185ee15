-- ===== src/SingleFlight/Moves.antt =====
-- The leaders of flights: what holds between the registered flights, the flights and the callers,
-- and how a caller's move changes it.
use cache_system.Prelude.{
  ℕ, zero, suc, ◌⊎◌, ◌≡◌, ◌≢◌, refl, inl, inr, Option, none, some, List, [], ◌∷◌, ◌++◌, arith,
  length, get_elem?, get_elem?-set_self, get_elem?-set_ne, get_elem?-some, set, ite, ℕ_discrete,
  ◌∙◌, sym,
}
use cache_system.Dict.{Hashable, Dict, get}
use cache_system.Cache.{Flight}
use cache_system.SingleFlight.{Caller, outside, loading, storing, waiting, returned}

abbrev pub pending : {V : Type 0} → Flight V
pending = record { outcome = none }

module _ {K V : Type 0} where
  -- The key and the flight that a caller leads.
  abbrev pub lead : Option (Caller K V) → Option (K × ℕ)
  lead (some (loading k id)) = some (k, id)
  lead (some (storing k id v)) = some (k, id)
  lead (some outside) = none
  lead (some (waiting id)) = none
  lead (some (returned r)) = none
  lead none = none

  abbrev pub lead_at : List (Caller K V) → ℕ → Option (K × ℕ)
  lead_at cs i = lead (get_elem? cs i)

  -- A flight that is over, or that has a leader.
  abbrev pub IsLed : List (Flight V) → List (Caller K V) → ℕ → Type 0
  IsLed fl cs id =
      (f : Flight V) × (get_elem? fl id ≡ some f)
      × (f.outcome ≡ none → (j : ℕ) × (k : K) × (lead_at cs j ≡ some (k, id)))

  get_elem?-set :
      (cs : List (Caller K V)) (i j : ℕ) (c d : Caller K V)
      → get_elem? cs i ≡ some c
      → get_elem? (set cs i d) j ≡ ite (ℕ_discrete i j) (some d) (get_elem? cs j)
  get_elem?-set cs i j c d e =
      ground (arith, get_elem?-set_self cs i d, get_elem?-set_ne cs i j d, get_elem?-some cs i c e)

module _ {K V : Type 0} where
  module _ (cs : List (Caller K V)) (i : ℕ) (c new : Caller K V)
      (at : get_elem? cs i ≡ some c) where
    lead_at-set :
        (j : ℕ) → lead_at (set cs i new) j ≡ ite (ℕ_discrete i j) (lead (some new)) (lead_at cs j)
    lead_at-set j = rw (get_elem?-set cs i j c new at) (ground arith)

    -- A caller that leads what it led before.
    pub same_lead :
        lead (some new) ≡ lead (some c) → (j : ℕ) → lead_at (set cs i new) j ≡ lead_at cs j
    same_lead e j = lead_at-set j ∙ ground (arith, e, at)

    -- Who leads after the move: the caller that moved, or who led before it.
    pub moved :
        (j : ℕ) (l : K) (id : ℕ)
        → lead_at (set cs i new) j ≡ some (l, id)
        → ((i ≡ j) × (lead (some new) ≡ some (l, id))) ⊎ ((i ≢ j) × (lead_at cs j ≡ some (l, id)))
    moved j l id p = elim (ℕ_discrete i j) [
      | yes same ↦ inl (same, ground (arith, lead_at-set j, p, same))
      | no other ↦ inr (other, ground (arith, lead_at-set j, p, other))
    ]

    pub kept :
        (j : ℕ) (l : K) (id : ℕ)
        → i ≢ j
        → lead_at cs j ≡ some (l, id)
        → lead_at (set cs i new) j ≡ some (l, id)
    kept j l id other p = ground (arith, lead_at-set j, p, other)

    pub moved_self :
        (l : K) (id : ℕ) → lead (some new) ≡ some (l, id) → lead_at (set cs i new) i ≡ some (l, id)
    moved_self l id p = ground (arith, lead_at-set i, p)

    pub moved-waiting :
        (j id : ℕ)
        → new ≢ waiting id
        → get_elem? (set cs i new) j ≡ some (waiting id)
        → get_elem? cs j ≡ some (waiting id)
    moved-waiting j id n p = elim (ℕ_discrete i j) [
      | yes same ↦ absurd (n (ground (arith, get_elem?-set cs i j c new at, p, same)))
      | no other ↦ ground (arith, get_elem?-set cs i j c new at, p, other)
    ]

module _ {A : Type 0} where
  pub get_elem?-append :
      (xs ys : List A) (i : ℕ) (x : A) → get_elem? xs i ≡ some x → get_elem? (xs ++ ys) i ≡ some x
  get_elem?-append [] ys i x e = absurd (ground arith)
  get_elem?-append (y ∷ xs) ys zero x e = e
  get_elem?-append (y ∷ xs) ys (suc i) x e = get_elem?-append xs ys i x e

  pub get_elem?-append_last : (xs : List A) (x : A) → get_elem? (xs ++ x ∷ []) (length xs) ≡ some x
  get_elem?-append_last [] x = refl
  get_elem?-append_last (y ∷ xs) x = get_elem?-append_last xs x

module _ {K V : Type 0} ⦃h : Hashable K⦄ where
  pub record IsValid (d : Dict K ℕ) (fl : List (Flight V)) (cs : List (Caller K V)) : Type 0 where
    -- who leads a flight leads it to its end
    pub underway :
        (i : ℕ) (k : K) (id : ℕ) → lead_at cs i ≡ some (k, id) → get_elem? fl id ≡ some pending
    pub alone :
        (i j : ℕ) (k l : K) (id : ℕ)
        → lead_at cs i ≡ some (k, id)
        → lead_at cs j ≡ some (l, id)
        → i ≡ j
    pub registered : (k : K) (id : ℕ) → get k d ≡ some id → (i : ℕ) × (lead_at cs i ≡ some (k, id))
    pub awaited : (i id : ℕ) → get_elem? cs i ≡ some (waiting id) → IsLed fl cs id

  -- Fewer flights are registered.
  pub drop-IsValid :
      (d e : Dict K ℕ) (fl : List (Flight V)) (cs : List (Caller K V))
      → ((k : K) (id : ℕ) → get k e ≡ some id → get k d ≡ some id)
      → IsValid d fl cs
      → IsValid e fl cs
  drop-IsValid d e fl cs less v = record {
    underway = v.underway;
    alone = v.alone;
    registered = λ k id p. v.registered k id (less k id p);
    awaited = v.awaited;
  }

  module _ (d : Dict K ℕ) (fl : List (Flight V)) (cs : List (Caller K V)) (i : ℕ)
      (c new : Caller K V) (at : get_elem? cs i ≡ some c) where
    pub quiet-IsValid :
        lead (some new) ≡ lead (some c)
        → ((id : ℕ) → new ≡ waiting id → IsLed fl cs id)
        → IsValid d fl cs
        → IsValid d fl (set cs i new)
    quiet-IsValid e led v = record {
      underway = λ j k id p. v.underway j k id (sym (same_lead cs i c new at e j) ∙ p);
      alone = λ j l k m id p q.
          v.alone j l k m id (sym (same_lead cs i c new at e j) ∙ p)
            (sym (same_lead cs i c new at e l) ∙ q);
      registered =
          λ k id p. let (j, q) = v.registered k id p in (j, same_lead cs i c new at e j ∙ q);
      awaited = λ j id p.
          let old : IsLed fl cs id = (elim (ℕ_discrete i j) [
            | yes same ↦ led id (ground (arith, get_elem?-set cs i j c new at, p, same))
            | no other ↦ v.awaited j id (ground (arith, get_elem?-set cs i j c new at, p, other))
          ]) in
          (old.0, old.1, λ o. let (l, k, x) = old.2 o in (l, k, same_lead cs i c new at e l ∙ x));
    }
