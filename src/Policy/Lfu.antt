-- ===== src/Policy/Lfu.antt =====
-- src/cachelab/policies/lfu.py: frequencies by key, and the keys of each frequency by recency.
pub mod Spec
mod Least
pub mod Relation
mod Bump
mod Drop
pub mod Refines
pub mod History
use cache_system.Prelude.{
  ℕ, ◌+◌, Option, none, some, List, [], ◌∷◌, map, sum, min, if◌then◌else◌, ◌==◌, ℕ_discrete, Bool,
  true, false, ◌&&◌,
}
use cache_system.Dict.{Hashable, Dict, get, put, pop, contains, first, keys, values, size}

instance abbrev pub nat_hashable : Hashable ℕ
nat_hashable = record { eq_dec = ℕ_discrete }

abbrev pub Bucket : Type 0 → Type 0
Bucket K = Dict K (Unit {0})

pub record Lfu (K : Type 0) : Type 0 where
  pub key_to_freq : Dict K ℕ
  pub freq_to_keys : Dict ℕ (Bucket K)
  pub min_freq : ℕ

-- `min(freq_to_keys, default=0)`
unfoldable pub least_key : List ℕ → ℕ
least_key [] = 0
least_key (f ∷ []) = f
least_key (f ∷ g ∷ fs) = min f (least_key (g ∷ fs))

module _ {K : Type 0} where
  abbrev pub or_empty : Option (Bucket K) → Bucket K
  or_empty none = []
  or_empty (some b) = b

  -- `freq_to_keys[f]` of a `defaultdict`
  abbrev pub bucket : ℕ → Dict ℕ (Bucket K) → Bucket K
  bucket f d = or_empty (get f d)

  -- A bucket is stored back, or deleted if nothing is left in it.
  unfoldable pub store : ℕ → Bucket K → Dict ℕ (Bucket K) → Dict ℕ (Bucket K)
  store f [] d = pop f d
  store f (e ∷ b) d = put f (e ∷ b) d

  abbrev pub is_empty : Bucket K → Bool
  is_empty [] = true
  is_empty (e ∷ b) = false

module _ {K : Type 0} ⦃h : Hashable K⦄ where
  -- `_bump` of a key with frequency `old`
  unfoldable pub bump : K → ℕ → Lfu K → Lfu K
  bump k old l =
      let rest = pop k (bucket old l.freq_to_keys) in
      let kept = store old rest l.freq_to_keys in
      record {
        key_to_freq = put k (old + 1) l.key_to_freq;
        freq_to_keys = put (old + 1) (put k tt (bucket (old + 1) kept)) kept;
        min_freq = if is_empty rest && l.min_freq == old then old + 1 else l.min_freq;
      }

  unfoldable pub on_get : K → Lfu K → Lfu K
  on_get k l = elim (get k l.key_to_freq) [ none ↦ l | some old ↦ bump k old l ]

  unfoldable pub on_put : K → Lfu K → Lfu K
  on_put k l = elim (get k l.key_to_freq) [
    | some old ↦ bump k old l
    | none ↦ record {
      key_to_freq = put k 1 l.key_to_freq;
      freq_to_keys = put 1 (put k tt (bucket 1 l.freq_to_keys)) l.freq_to_keys;
      min_freq = 1;
    }
  ]

  -- `on_delete` of a key with frequency `freq`
  unfoldable pub drop : K → ℕ → Lfu K → Lfu K
  drop k freq l =
      let rest = pop k (bucket freq l.freq_to_keys) in
      let kept = store freq rest l.freq_to_keys in
      record {
        key_to_freq = pop k l.key_to_freq;
        freq_to_keys = kept;
        min_freq =
            if is_empty rest && l.min_freq == freq then least_key (keys kept) else l.min_freq;
      }

  unfoldable pub on_delete : K → Lfu K → Lfu K
  on_delete k l = elim (get k l.key_to_freq) [ none ↦ l | some freq ↦ drop k freq l ]

module _ {K : Type 0} where
  -- An empty bucket and a missing one have no first key.
  unfoldable pub evict_candidate : Lfu K → Option K
  evict_candidate l = if l.min_freq == 0 then none else first (bucket l.min_freq l.freq_to_keys)

  unfoldable pub clear : Lfu K
  clear = record { key_to_freq = []; freq_to_keys = []; min_freq = 0 }

  unfoldable pub metadata_size : Lfu K → ℕ
  metadata_size l = size l.key_to_freq + sum (map size (values l.freq_to_keys))
