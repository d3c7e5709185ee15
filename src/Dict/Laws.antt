-- ===== src/Dict/Laws.antt =====
-- How the operations of a dictionary act on each other, and what keeps its keys apart.
use cache_system.Prelude.{
  ◌+◌, ◌≤◌, Bool, true, false, none, some, List, [], ◌∷◌, ◌++◌, ◌≡◌, refl, ite, arith,
  if◌then◌else◌,
}
use cache_system.Dict.{
  Hashable, ◌≟◌, Dict, get, put, pop, contains, move_to_end, IsDict, size, first, keys,
}

module _ {K : Type 0} ⦃h : Hashable K⦄ where
  -- `k in l`
  unfoldable pub listed : K → List K → Bool
  listed k [] = false
  listed k (j ∷ l) = ite (◌≟◌ j k) true (listed k l)

module _ {K V : Type 0} ⦃h : Hashable K⦄ where
  pub get-put :
      (k j : K) (v : V) (d : Dict K V) → get j (put k v d) ≡ ite (◌≟◌ k j) (some v) (get j d)
  unfolding get put
  get-put k j v [] = refl
  get-put k j v ((i, w) ∷ d) = ground (arith, get-put k j v d)

  pub get-pop : (k j : K) (d : Dict K V) → get j (pop k d) ≡ ite (◌≟◌ k j) none (get j d)
  unfolding get pop
  get-pop k j [] = ground arith
  get-pop k j ((i, w) ∷ d) = ground (arith, get-pop k j d)

  pub get-put_self : (k : K) (v : V) (d : Dict K V) → get k (put k v d) ≡ some v
  get-put_self k v d = ground (arith, get-put k k v d)

  pub get-pop_self : (k : K) (d : Dict K V) → get k (pop k d) ≡ none
  get-pop_self k d = ground (arith, get-pop k k d)

  pub get-append :
      (j : K) (d e : Dict K V)
      → get j (d ++ e) ≡ elim (get j d) [ none ↦ get j e | some v ↦ some v ]
  unfolding get
  get-append j [] e = refl
  get-append j ((i, w) ∷ d) e = ground (arith, get-append j d e)

  pub put-IsDict : (k : K) (v : V) (d : Dict K V) → IsDict d → IsDict (put k v d)
  unfolding get put
  put-IsDict k v [] u = (refl, tt)
  put-IsDict k v ((i, w) ∷ d) u = ground (arith, put-IsDict k v d, get-put k i v d)

  pub pop-IsDict : (k : K) (d : Dict K V) → IsDict d → IsDict (pop k d)
  unfolding get pop
  pop-IsDict k [] u = tt
  pop-IsDict k ((i, w) ∷ d) u = ground (arith, pop-IsDict k d, get-pop k i d)

  pub append-IsDict :
      (d : Dict K V) (k : K) (v : V) → IsDict d → get k d ≡ none → IsDict (d ++ (k, v) ∷ [])
  unfolding get
  append-IsDict [] k v u n = (refl, tt)
  append-IsDict ((i, w) ∷ d) k v u n =
      ground (arith, append-IsDict d k v, get-append i d ((k, v) ∷ []))

  pub pop_absent : (k : K) (d : Dict K V) → get k d ≡ none → pop k d ≡ d
  unfolding get pop
  pop_absent k [] n = refl
  pop_absent k ((i, w) ∷ d) n = ground (arith, pop_absent k d)

  -- A new key makes the dictionary longer by one, an old one keeps its length.
  pub size-put :
      (k : K) (v : V) (d : Dict K V)
      → size (put k v d) ≡ (if contains k d then size d else size d + 1)
  unfolding get put
  size-put k v [] = refl
  size-put k v ((i, w) ∷ d) = ground (arith, size-put k v d)

  pub size-pop :
      (k : K) (d : Dict K V)
      → IsDict d
      → size d ≡ (if contains k d then size (pop k d) + 1 else size (pop k d))
  unfolding get pop
  size-pop k [] u = refl
  size-pop k ((i, w) ∷ d) u = ground (arith, size-pop k d, pop_absent i d)

  pub first-contains : (k : K) (d : Dict K V) → first d ≡ some k → contains k d ≡ true
  unfolding get
  first-contains k [] e = ground arith
  first-contains k ((i, w) ∷ d) e = ground arith

  pub move_to_end-IsDict : (k : K) (v : V) (d : Dict K V) → IsDict d → IsDict (move_to_end k v d)
  move_to_end-IsDict k v d u = append-IsDict (pop k d) k v (pop-IsDict k d u) (get-pop_self k d)

  pub get-move_to_end :
      (k j : K) (v : V) (d : Dict K V)
      → get j (move_to_end k v d) ≡ ite (◌≟◌ k j) (some v) (get j d)
  unfolding get
  get-move_to_end k j v d = ground (arith, get-append j (pop k d) ((k, v) ∷ []), get-pop k j d)

  pub put_absent : (k : K) (v : V) (d : Dict K V) → get k d ≡ none → put k v d ≡ d ++ (k, v) ∷ []
  unfolding get put
  put_absent k v [] n = refl
  put_absent k v ((i, w) ∷ d) n = ground (arith, put_absent k v d)

  pub size-pop-le : (k : K) (d : Dict K V) → size (pop k d) ≤ size d
  unfolding pop
  size-pop-le k [] = omega arith
  size-pop-le k ((i, w) ∷ d) = ground (arith, size-pop-le k d)

  -- The keys of a dictionary are those that it contains.
  pub listed-keys : (k : K) (d : Dict K V) → listed k (keys d) ≡ contains k d
  unfolding listed get
  listed-keys k [] = refl
  listed-keys k ((j, v) ∷ d) = ground (arith, listed-keys k d)
