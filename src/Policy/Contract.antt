-- ===== src/Policy/Contract.antt =====
-- What the cache relies on, whichever policy it was given.
use cache_system.Prelude.{
  true, false, Option-cases, ◌+◌, none, some, [], ◌∷◌, ◌≡◌, refl, ite, arith, inl, inr, ℕ,
}
use cache_system.Dict.{Hashable, ◌≟◌, Dict, get, IsDict, put}
use cache_system.Dict.Laws.{
  get-put, get-pop, put-IsDict, pop-IsDict, move_to_end-IsDict, get-move_to_end, first-contains,
}
use cache_system.Policy.{
  Policy, lru, fifo, lfu, on_get, on_put, on_delete, evict_candidate, tracks, clear,
}
use cache_system.Policy.Ordered
use cache_system.Policy.Ordered.{Order}
use cache_system.Policy.Lfu
use cache_system.Policy.Lfu.Spec
use cache_system.Policy.Lfu.Refines
use cache_system.Policy.Lfu.Relation.{Refines}

module _ {K : Type 0} ⦃h : Hashable K⦄ where
  -- A list of distinct keys, or frequency buckets that stand for one.
  abbrev pub IsValid : Policy K → Type 0
  IsValid (lru o) = IsDict o
  IsValid (fifo o) = IsDict o
  IsValid (lfu l) = (s : Dict K ℕ) × Refines l s

  pub on_get-IsValid : (k : K) (p : Policy K) → IsValid p → IsValid (on_get k p)
  unfolding on_get Ordered.lru_on_get Ordered.fifo_on_get
  on_get-IsValid k (lru o) v = ground (arith, move_to_end-IsDict k tt o v)
  on_get-IsValid k (fifo o) v = v
  on_get-IsValid k (lfu l) (s, r) = (Spec.on_get k s, Refines.on_get-Refines l s r k)

  pub on_put-IsValid : (k : K) (p : Policy K) → IsValid p → IsValid (on_put k p)
  unfolding on_put Ordered.lru_on_put Ordered.fifo_on_put
  on_put-IsValid k (lru o) v = move_to_end-IsDict k tt (put k tt o) (put-IsDict k tt o v)
  on_put-IsValid k (fifo o) v = ground (arith, put-IsDict k tt o v)
  on_put-IsValid k (lfu l) (s, r) = (Spec.on_put k s, Refines.on_put-Refines l s r k)

  pub on_delete-IsValid : (k : K) (p : Policy K) → IsValid p → IsValid (on_delete k p)
  unfolding on_delete Ordered.on_delete
  on_delete-IsValid k (lru o) v = pop-IsDict k o v
  on_delete-IsValid k (fifo o) v = pop-IsDict k o v
  on_delete-IsValid k (lfu l) (s, r) = (Spec.on_delete k s, Refines.on_delete-Refines l s r k)

  pub clear-IsValid : (p : Policy K) → IsValid (clear p)
  unfolding clear Ordered.clear
  clear-IsValid (lru o) = tt
  clear-IsValid (fifo o) = tt
  clear-IsValid (lfu l) = ([], Refines.clear-Refines)

  pub tracks-on_get : (k j : K) (p : Policy K) → tracks j (on_get k p) ≡ tracks j p
  unfolding tracks on_get Ordered.lru_on_get Ordered.fifo_on_get Lfu.on_get Lfu.bump
  tracks-on_get k j (lru o) = ground (arith, get-move_to_end k j tt o)
  tracks-on_get k j (fifo o) = refl
  tracks-on_get k j (lfu l) = elim (Option-cases (get k l.key_to_freq)) [
    | inl n ↦ rw (n, Lfu.on_get)
    | inr (f, n) ↦ rw (n, Lfu.on_get) (ground (arith, get-put k j (f + 1) l.key_to_freq))
  ]

  pub tracks-on_put :
      (k j : K) (p : Policy K) → tracks j (on_put k p) ≡ ite (◌≟◌ k j) true (tracks j p)
  unfolding tracks on_put Ordered.lru_on_put Ordered.fifo_on_put Lfu.on_put Lfu.bump
  tracks-on_put k j (lru o) = ground (arith, get-move_to_end k j tt (put k tt o), get-put k j tt o)
  tracks-on_put k j (fifo o) = ground (arith, get-put k j tt o)
  tracks-on_put k j (lfu l) = elim (Option-cases (get k l.key_to_freq)) [
    | inl n ↦ rw (n, Lfu.on_put) (ground (arith, get-put k j 1 l.key_to_freq))
    | inr (f, n) ↦ rw (n, Lfu.on_put) (ground (arith, get-put k j (f + 1) l.key_to_freq))
  ]

  pub tracks-on_delete :
      (k j : K) (p : Policy K) → tracks j (on_delete k p) ≡ ite (◌≟◌ k j) false (tracks j p)
  unfolding tracks on_delete Ordered.on_delete Lfu.on_delete Lfu.drop
  tracks-on_delete k j (lru o) = ground (arith, get-pop k j o)
  tracks-on_delete k j (fifo o) = ground (arith, get-pop k j o)
  tracks-on_delete k j (lfu l) = elim (Option-cases (get k l.key_to_freq)) [
    | inl n ↦ rw (n, Lfu.on_delete) (ground arith)
    | inr (f, n) ↦ rw (n, Lfu.on_delete) (ground (arith, get-pop k j l.key_to_freq))
  ]

  pub tracks-clear : (k : K) (p : Policy K) → tracks k (clear p) ≡ false
  unfolding tracks clear Ordered.clear Lfu.clear get
  tracks-clear k (lru o) = refl
  tracks-clear k (fifo o) = refl
  tracks-clear k (lfu l) = refl

  -- A policy evicts a key that it tracks.
  pub tracks-evict_candidate :
      (k : K) (p : Policy K) → IsValid p → evict_candidate p ≡ some k → tracks k p ≡ true
  unfolding tracks evict_candidate Ordered.evict_candidate
  tracks-evict_candidate k (lru o) v e = first-contains k o e
  tracks-evict_candidate k (fifo o) v e = first-contains k o e
  tracks-evict_candidate k (lfu l) (s, r) e = Refines.candidate-contains l s r k e

  -- A policy that tracks a key has one to evict.
  pub evict_candidate-none :
      (k : K) (p : Policy K) → IsValid p → evict_candidate p ≡ none → tracks k p ≡ false
  unfolding tracks evict_candidate Ordered.evict_candidate get
  evict_candidate-none k (lru []) v e = refl
  evict_candidate-none k (lru (x ∷ o)) v e = ground arith
  evict_candidate-none k (fifo []) v e = refl
  evict_candidate-none k (fifo (x ∷ o)) v e = ground arith
  evict_candidate-none k (lfu l) (s, r) e = Refines.candidate-none l s r k e
