-- ===== src/Policy/Lfu/Spec.antt =====
-- What an LFU policy promises, over one list of keys with their frequencies, least recent first.
use cache_system.Prelude.{
  ℕ, ◌+◌, ◌<◌, ◌≡◌, ◌≢◌, ◌⊎◌, refl, inl, inr, Option, Option-cases, none, some, [], ◌∷◌, ◌++◌,
  arith, ◌==◌, leb, if◌then◌else◌,
}
use cache_system.Dict.{Hashable, Dict, get, pop, move_to_end, IsDict, first}
use cache_system.Dict.Laws.{pop_absent}
use cache_system.Policy.Lfu.{Bucket}

module _ {K : Type 0} where
  -- The keys of frequency `f`, in the order of the list.
  unfoldable pub select : ℕ → Dict K ℕ → Bucket K
  select f [] = []
  select f ((k, g) ∷ s) = let rest = select f s in if g == f then (k, tt) ∷ rest else rest

  -- Of a key and a candidate from later in the list, the one to evict first.
  abbrev pub earlier : K × ℕ → Option (K × ℕ) → Option (K × ℕ)
  earlier (k, f) none = some (k, f)
  earlier (k, f) (some (j, g)) = if leb f g then some (k, f) else some (j, g)

  -- The least recent of the keys with the least frequency.
  unfoldable pub least_used : Dict K ℕ → Option (K × ℕ)
  least_used [] = none
  least_used ((k, f) ∷ s) = earlier (k, f) (least_used s)

  abbrev pub key_of : Option (K × ℕ) → Option K
  key_of none = none
  key_of (some (k, f)) = some k

  -- `m` is 0 for the empty list, else the least frequency in it.
  abbrev pub IsLeast : ℕ → Dict K ℕ → Type 0
  IsLeast m s = ((s ≡ []) × (m ≡ 0)) ⊎ ((select m s ≢ []) × ((f : ℕ) → f < m → select f s ≡ []))

  pub select-append : (f : ℕ) (s t : Dict K ℕ) → select f (s ++ t) ≡ select f s ++ select f t
  unfolding select
  select-append f [] t = refl
  select-append f ((k, g) ∷ s) t = ground (arith, select-append f s t)

  least_used-none : (s : Dict K ℕ) → least_used s ≡ none → s ≡ []
  unfolding least_used
  least_used-none [] e = refl
  least_used-none ((k, f) ∷ s) e = ground arith

  pub key_of-none : (s : Dict K ℕ) → key_of (least_used s) ≡ none → s ≡ []
  key_of-none s e = ground (arith, least_used-none s)

  -- The candidate comes first among the keys of its frequency, and no frequency below is in use.
  pub least_used-first :
      (s : Dict K ℕ) (k : K) (f : ℕ) → least_used s ≡ some (k, f) → first (select f s) ≡ some k
  unfolding select least_used
  least_used-first [] k f e = cc
  least_used-first ((j, g) ∷ s) k f e = elim (Option-cases (least_used s)) [
    | inl n ↦ ground arith
    | inr ((i, w), n) ↦ ground (arith, least_used-first s i w)
  ]

  pub least_used-below :
      (s : Dict K ℕ) (k : K) (f g : ℕ) → least_used s ≡ some (k, f) → g < f → select g s ≡ []
  unfolding select least_used
  least_used-below [] k f g e l = refl
  least_used-below ((j, w) ∷ s) k f g e l = elim (Option-cases (least_used s)) [
    | inl n ↦ ground (arith, least_used-none s)
    | inr ((i, v), n) ↦ ground (arith, least_used-below s i v g)
  ]

  -- The first key of the least frequency in use is the candidate.
  pub first-select-least :
      (m : ℕ) (s : Dict K ℕ)
      → select m s ≢ []
      → ((f : ℕ) → f < m → select f s ≡ [])
      → first (select m s) ≡ key_of (least_used s)
  unfolding select
  first-select-least m s e below = elim (Option-cases (least_used s)) [
    | inl n ↦ absurd (e (rw (least_used-none s n)))
    | inr ((k, f), n) ↦ ground (arith, least_used-first s k f, least_used-below s k f m, below f)
  ]

module _ {K : Type 0} ⦃h : Hashable K⦄ where
  -- One more use of a key moves it to the end.
  unfoldable pub on_get : K → Dict K ℕ → Dict K ℕ
  on_get k s = elim (get k s) [ none ↦ s | some f ↦ move_to_end k (f + 1) s ]

  -- A new key comes to the end with frequency 1.
  unfoldable pub on_put : K → Dict K ℕ → Dict K ℕ
  on_put k s = elim (get k s) [ none ↦ s ++ (k, 1) ∷ [] | some f ↦ move_to_end k (f + 1) s ]

  unfoldable pub on_delete : K → Dict K ℕ → Dict K ℕ
  on_delete k s = pop k s

  pub select-pop : (f : ℕ) (k : K) (s : Dict K ℕ) → select f (pop k s) ≡ pop k (select f s)
  unfolding select pop
  select-pop f k [] = refl
  select-pop f k ((j, g) ∷ s) = ground (arith, select-pop f k s)

  pub get-select :
      (k : K) (f : ℕ) (s : Dict K ℕ)
      → IsDict s
      → get k (select f s)
        ≡ elim (get k s) [ none ↦ none | some g ↦ if g == f then some tt else none ]
  unfolding select get
  get-select k f [] u = refl
  get-select k f ((j, g) ∷ s) u = ground (arith, get-select k f s)

  pub pop-select :
      (k : K) (f g : ℕ) (s : Dict K ℕ)
      → IsDict s
      → get k s ≡ some g
      → g ≢ f
      → pop k (select f s) ≡ select f s
  pop-select k f g s u e n = ground (arith, get-select k f s u, pop_absent k (select f s))
