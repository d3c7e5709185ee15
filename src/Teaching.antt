-- ===== src/Teaching.antt =====
-- src/cachelab/teaching/unsafe_cache.py: a cache with no lock, whose `put` makes room in one section
-- and stores in another.
pub mod Race
use cache_system.Prelude.{
  ℕ, zero, suc, Bool, true, false, Option, none, some, List, [], ◌∷◌, leb, if◌then◌else◌,
}
use cache_system.Dict.{Hashable, Dict, put, pop, first, size}

module _ {K V : Type 0} ⦃h : Hashable K⦄ where
  -- The test and the removal of the oldest entry.
  unfoldable pub make_room : ℕ → Dict K V → Dict K V
  make_room capacity d = elim (first d) [
    | none ↦ d
    | some oldest ↦ if leb capacity (size d) then pop oldest d else d
  ]

  -- `put`, with no other thread between its sections.
  abbrev pub put_alone : ℕ → K → V → Dict K V → Dict K V
  put_alone capacity k v d = put k v (make_room capacity d)

  -- One `put` after the other.
  unfoldable pub put_all : ℕ → Dict K V → Dict K V → Dict K V
  put_all capacity [] d = d
  put_all capacity ((k, v) ∷ items) d = put_all capacity items (put_alone capacity k v d)

  -- The threads of `unsafe_race_demo`, which sleep between the sections: each makes room before any
  -- of them stores.
  unfoldable pub make_rooms : ℕ → ℕ → Dict K V → Dict K V
  make_rooms capacity zero d = d
  make_rooms capacity (suc threads) d = make_rooms capacity threads (make_room capacity d)

  unfoldable pub store_all : Dict K V → Dict K V → Dict K V
  store_all [] d = d
  store_all ((k, v) ∷ items) d = store_all items (put k v d)

  unfoldable pub race : ℕ → Dict K V → Dict K V
  race capacity items = store_all items (make_rooms capacity (size items) [])
