-- ===== src/Policy.antt =====
-- src/cachelab/policies: the eviction policies behind one set of operations.
pub mod Ordered
pub mod Lfu
pub mod Contract
use cache_system.Prelude.{ℕ, Bool, Option, String}
use cache_system.Dict.{Hashable, Dict, contains, size}
use cache_system.Policy.Ordered
use cache_system.Policy.Ordered.{Order}
use cache_system.Policy.Lfu

-- The objects that `make_policy` returns.
pub data Policy (K : Type 0) : Type 0 where
  lru : Order K → Policy K
  fifo : Order K → Policy K
  lfu : Lfu.Lfu K → Policy K

module _ {K : Type 0} ⦃h : Hashable K⦄ where
  unfoldable pub on_get : K → Policy K → Policy K
  on_get k (lru o) = lru (Ordered.lru_on_get k o)
  on_get k (fifo o) = fifo (Ordered.fifo_on_get k o)
  on_get k (lfu l) = lfu (Lfu.on_get k l)

  unfoldable pub on_put : K → Policy K → Policy K
  on_put k (lru o) = lru (Ordered.lru_on_put k o)
  on_put k (fifo o) = fifo (Ordered.fifo_on_put k o)
  on_put k (lfu l) = lfu (Lfu.on_put k l)

  unfoldable pub on_delete : K → Policy K → Policy K
  on_delete k (lru o) = lru (Ordered.on_delete k o)
  on_delete k (fifo o) = fifo (Ordered.on_delete k o)
  on_delete k (lfu l) = lfu (Lfu.on_delete k l)

  unfoldable pub evict_candidate : Policy K → Option K
  evict_candidate (lru o) = Ordered.evict_candidate o
  evict_candidate (fifo o) = Ordered.evict_candidate o
  evict_candidate (lfu l) = Lfu.evict_candidate l

  -- Whether a policy keeps data about the key.
  unfoldable pub tracks : K → Policy K → Bool
  tracks k (lru o) = contains k o
  tracks k (fifo o) = contains k o
  tracks k (lfu l) = contains k l.key_to_freq

module _ {K : Type 0} where
  unfoldable pub clear : Policy K → Policy K
  clear (lru o) = lru Ordered.clear
  clear (fifo o) = fifo Ordered.clear
  clear (lfu l) = lfu Lfu.clear

  unfoldable pub name : Policy K → String
  name (lru o) = "lru"
  name (fifo o) = "fifo"
  name (lfu l) = "lfu"

  -- `len(policy)`
  unfoldable pub len : Policy K → ℕ
  len (lru o) = size o
  len (fifo o) = size o
  len (lfu l) = size l.key_to_freq

  unfoldable pub metadata_size : Policy K → ℕ
  metadata_size (lru o) = size o
  metadata_size (fifo o) = size o
  metadata_size (lfu l) = Lfu.metadata_size l
