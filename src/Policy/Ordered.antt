-- ===== src/Policy/Ordered.antt =====
-- src/cachelab/policies/lru.py and fifo.py: an `OrderedDict` of keys, the next to evict first.
use cache_system.Prelude.{Option, [], if◌then◌else◌}
use cache_system.Dict.{Hashable, Dict, put, pop, contains, move_to_end, first}

abbrev pub Order : Type 0 → Type 0
Order K = Dict K (Unit {0})

module _ {K : Type 0} ⦃h : Hashable K⦄ where
  unfoldable pub lru_on_get : K → Order K → Order K
  lru_on_get k o = if contains k o then move_to_end k tt o else o

  unfoldable pub lru_on_put : K → Order K → Order K
  lru_on_put k o = move_to_end k tt (put k tt o)

  -- Reads do not affect the order of a FIFO.
  unfoldable pub fifo_on_get : K → Order K → Order K
  fifo_on_get k o = o

  unfoldable pub fifo_on_put : K → Order K → Order K
  fifo_on_put k o = if contains k o then o else put k tt o

  unfoldable pub on_delete : K → Order K → Order K
  on_delete k o = pop k o

module _ {K : Type 0} where
  unfoldable pub evict_candidate : Order K → Option K
  evict_candidate o = first o

  unfoldable pub clear : Order K
  clear = []
