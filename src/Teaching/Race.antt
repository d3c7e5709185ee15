-- ===== src/Teaching/Race.antt =====
-- The sizes that the unsafe cache reaches.
use cache_system.Prelude.{
  ℕ, zero, suc, ◌+◌, ◌≤◌, ◌≡◌, refl, true, none, [], ◌∷◌, max, arith, ap, ◌∙◌,
}
use cache_system.Dict.{Hashable, Dict, IsDict, get, put, size, contains}
use cache_system.Dict.Laws.{get-put, put-IsDict, pop-IsDict, size-put, size-pop, first-contains}
use cache_system.Teaching.{make_room, put_alone, put_all, make_rooms, store_all, race}

module _ {K V : Type 0} ⦃h : Hashable K⦄ where
  make_rooms-empty : (capacity n : ℕ) → make_rooms {K = K} {V = V} capacity n [] ≡ []
  unfolding make_rooms make_room
  make_rooms-empty capacity zero = refl
  make_rooms-empty capacity (suc n) = make_rooms-empty capacity n

  size-store_all :
      (items d : Dict K V)
      → IsDict items
      → ((j : K) → contains j items ≡ true → get j d ≡ none)
      → size (store_all items d) ≡ size d + size items
  unfolding store_all get
  size-store_all [] d u apart = omega arith
  size-store_all ((k, v) ∷ items) d u apart =
      let new : get k d ≡ none = apart k (ground arith) in
      let ih =
        size-store_all items (put k v d) u.1
          (λ j p. ground (arith, get-put k j v d, p, u.0, apart j)) in
      ground (arith, ih, size-put k v d, new)

  make_room-IsDict : (capacity : ℕ) (d : Dict K V) → IsDict d → IsDict (make_room capacity d)
  unfolding make_room
  make_room-IsDict capacity [] u = u
  make_room-IsDict capacity ((k, v) ∷ d) u = ground (arith, pop-IsDict k ((k, v) ∷ d) u, u)

  size-make_room :
      (capacity : ℕ) (d : Dict K V)
      → IsDict d
      → size d ≤ max capacity 1
      → size (make_room capacity d) + 1 ≤ max capacity 1
  unfolding make_room
  size-make_room capacity [] u b = omega arith
  size-make_room capacity ((k, v) ∷ d) u b =
      ground (arith, size-pop k ((k, v) ∷ d) u, first-contains k ((k, v) ∷ d) refl)

  size-put_all :
      (capacity : ℕ) (items d : Dict K V)
      → IsDict d
      → size d ≤ max capacity 1
      → size (put_all capacity items d) ≤ max capacity 1
  unfolding put_all
  size-put_all capacity [] d u b = b
  size-put_all capacity ((k, v) ∷ items) d u b =
      size-put_all capacity items (put_alone capacity k v d)
        (put-IsDict k v (make_room capacity d) (make_room-IsDict capacity d u))
        (ground (arith, size-put k v (make_room capacity d), size-make_room capacity d u b))

  -- Without a lock the race loses the capacity. Threads that put different keys into an empty unsafe
  -- cache, all of which make room before any of them stores, leave all their entries, whatever the
  -- capacity; the same puts one after the other never leave more than the capacity, or one entry if
  -- that is more.
  pub size-race :
      (capacity : ℕ) (items : Dict K V)
      → IsDict items
      → (size (race capacity items) ≡ size items)
        × (size (put_all capacity items []) ≤ max capacity 1)
  unfolding race get
  size-race capacity items u = (
    ap (λ d. size (store_all items d)) (make_rooms-empty capacity (size items))
        ∙ empty (size-store_all items [] u (λ j p. refl)),
    size-put_all capacity items [] tt (omega arith),
  )
    where
      empty : {a b : ℕ} → a ≡ 0 + b → a ≡ b
      empty e = omega (arith, e)
