-- ===== src/SingleFlight/Reached.antt =====
-- A new leader, and a leader that publishes what became of its flight.
use cache_system.Prelude.{
  ℕ, ◌≡◌, ◌≢◌, inl, inr, none, some, List, [], ◌∷◌, ◌++◌, arith, length, get_elem?,
  get_elem?-set_self, get_elem?-set_ne, get_elem?-some, set, ℕ_discrete, ◌∙◌, sym, subst, ap,
}
use cache_system.Exec.{Result}
use cache_system.Dict.{Hashable, ◌≟◌, Dict, get, put, pop}
use cache_system.Dict.Laws.{get-put, get-pop}
use cache_system.Cache.{Flight}
use cache_system.SingleFlight.{Caller, loading, returned}
use cache_system.SingleFlight.Moves.{
  lead, lead_at, pending, IsLed, IsValid, moved, kept, moved_self, moved-waiting, get_elem?-append,
  get_elem?-append_last,
}

module _ {K V : Type 0} ⦃h : Hashable K⦄ where
  -- Every leader's flight is the one that is registered for its key.
  abbrev pub Marked : Dict K ℕ → List (Caller K V) → Type 0
  Marked d cs = (i : ℕ) (k : K) (id : ℕ) → lead_at cs i ≡ some (k, id) → get k d ≡ some id

  module _ (d : Dict K ℕ) (fl : List (Flight V)) (cs : List (Caller K V)) (i : ℕ) (c : Caller K V)
      (k : K) (at : get_elem? cs i ≡ some c) (v : IsValid d fl cs) where
    abbrev pub leader : Caller K V
    leader = loading k (length fl)

    -- No flight under way has the number of the new one.
    fresh : (j : ℕ) (l : K) → lead_at cs j ≢ some (l, length fl)
    fresh j l p =
        ground (arith, get_elem?-some fl (length fl) pending (v.underway j l (length fl) p))

    other_than :
        lead (some c) ≡ none → (j : ℕ) (l : K) (id : ℕ) → lead_at cs j ≡ some (l, id) → i ≢ j
    other_than idle j l id p same = ground (arith, at, idle, same, p)

    pub leader-IsValid :
        lead (some c) ≡ none → IsValid (put k (length fl) d) (fl ++ pending ∷ []) (set cs i leader)
    leader-IsValid idle = record {
      underway = λ j l id p. elim (moved cs i c leader at j l id p) [
        | inl (same, q) ↦
            subst (λ n. get_elem? (fl ++ pending ∷ []) n ≡ some pending) (ground (arith, q))
              (get_elem?-append_last fl pending)
        | inr (other, q) ↦ get_elem?-append fl (pending ∷ []) id pending (v.underway j l id q)
      ];
      alone = λ j m k1 k2 id p q. elim (moved cs i c leader at j k1 id p) [
        | inl (same, x) ↦ elim (moved cs i c leader at m k2 id q) [
          | inl (also, y) ↦ sym same ∙ also
          | inr (other, y) ↦ absurd (ground (arith, fresh m k2, x, y))
        ]
        | inr (other, x) ↦ elim (moved cs i c leader at m k2 id q) [
          | inl (also, y) ↦ absurd (ground (arith, fresh j k1, x, y))
          | inr (also, y) ↦ v.alone j m k1 k2 id x y
        ]
      ];
      registered = λ l id p. elim (◌≟◌ k l) [
        | yes same ↦ (
          i,
          moved_self cs i c leader at l id (ground (arith, get-put k l (length fl) d, p, same)),
        )
        | no other ↦
            let old : (j : ℕ) × (lead_at cs j ≡ some (l, id)) =
              v.registered l id (ground (arith, get-put k l (length fl) d, p, other)) in
            (old.0, kept cs i c leader at old.0 l id (other_than idle old.0 l id old.1) old.1)
      ];
      awaited = λ j id p.
          let old : IsLed fl cs id =
            v.awaited j id (moved-waiting cs i c leader at j id (λ e. ground arith) p) in
          (
            old.0,
            get_elem?-append fl (pending ∷ []) id old.0 old.1,
            λ o.
                let (m, l, x) = old.2 o in
                (m, l, kept cs i c leader at m l id (other_than idle m l id x) x),
          );
    }

    pub leader-Marked :
        lead (some c) ≡ none
        → get k d ≡ none
        → Marked d cs
        → Marked (put k (length fl) d) (set cs i leader)
    leader-Marked idle new m j l id p = elim (moved cs i c leader at j l id p) [
      | inl (same, q) ↦ ground (arith, q, get-put k l (length fl) d)
      | inr (other, q) ↦ ground (arith, m j l id q, new, get-put k l (length fl) d)
    ]

  module _ (d : Dict K ℕ) (fl : List (Flight V)) (cs : List (Caller K V)) (i : ℕ) (c : Caller K V)
      (k : K) (n : ℕ) (r : Result V) (at : get_elem? cs i ≡ some c)
      (leads : lead (some c) ≡ some (k, n)) (v : IsValid d fl cs) where
    abbrev over : Flight V
    over = record { outcome = some r }

    led : lead_at cs i ≡ some (k, n)
    led = ap lead at ∙ leads

    -- Who led another flight still does.
    others :
        (j : ℕ) (l : K) (id : ℕ)
        → lead_at (set cs i (returned r)) j ≡ some (l, id)
        → (n ≢ id) × (i ≢ j) × (lead_at cs j ≡ some (l, id))
    others j l id p = elim (moved cs i c (returned r) at j l id p) [
      | inl (same, q) ↦ absurd (ground arith)
      | inr (other, q) ↦ (
        (λ e. other (v.alone i j k l id (subst (λ m. lead_at cs i ≡ some (k, m)) e led) q)),
        other,
        q,
      )
    ]

    pub published-IsValid : IsValid (pop k d) (set fl n over) (set cs i (returned r))
    published-IsValid = record {
      underway = λ j l id p.
          let (distinct, other, q) = others j l id p in
          get_elem?-set_ne fl n id over distinct ∙ v.underway j l id q;
      alone = λ j m k1 k2 id p q.
          let (x1, x2, x) = others j k1 id p in
          let (y1, y2, y) = others m k2 id q in v.alone j m k1 k2 id x y;
      registered = λ l id p.
          let old : (j : ℕ) × (lead_at cs j ≡ some (l, id)) =
            v.registered l id (ground (arith, get-pop k l d, p)) in
          (
            old.0,
            kept cs i c (returned r) at old.0 l id
                (λ same. ground (arith, get-pop k l d, p, led, same, old.1)) old.1,
          );
      awaited = λ j id p.
          ended id
            (v.awaited j id (moved-waiting cs i c (returned r) at j id (λ e. ground arith) p));
    }
      where
        ended : (id : ℕ) → IsLed fl cs id → IsLed (set fl n over) (set cs i (returned r)) id
        ended id (f, found, next) = elim (ℕ_discrete n id) [
          | yes same ↦ (
            over,
            subst (λ m. get_elem? (set fl n over) m ≡ some over) same
                (get_elem?-set_self fl n over (get_elem?-some fl n pending (v.underway i k n led))),
            λ o. absurd (ground arith),
          )
          | no other ↦ (
            f,
            get_elem?-set_ne fl n id over other ∙ found,
            λ o.
                let (j, l, x) = next o in
                (
                  j,
                  l,
                  kept cs i c (returned r) at j l id (λ same. other (ground (arith, led, x, same)))
                      x,
                ),
          )
        ]

    pub published-Marked : Marked d cs → Marked (pop k d) (set cs i (returned r))
    published-Marked m j l id p =
        let (distinct, other, q) = others j l id p in
        ground (arith, m j l id q, m i k n led, distinct, get-pop k l d)
