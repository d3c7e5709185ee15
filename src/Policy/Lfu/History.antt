-- ===== src/Policy/Lfu/History.antt =====
-- Any history of the LFU policy: what it evicts is what the specification says.
use cache_system.Prelude.{ℕ, ◌≡◌, List, [], ◌∷◌}
use cache_system.Dict.{Hashable, Dict}
use cache_system.Policy.Lfu.{Lfu, on_get, on_put, on_delete, evict_candidate, clear}
use cache_system.Policy.Lfu.Spec
use cache_system.Policy.Lfu.Spec.{least_used, key_of}
use cache_system.Policy.Lfu.Relation.{Refines}
use cache_system.Policy.Lfu.Refines.{
  clear-Refines, on_get-Refines, on_put-Refines, on_delete-Refines, evict_candidate-least_used,
}

-- What the cache tells its policy.
pub data Event (K : Type 0) : Type 0 where
  read written removed : K → Event K

module _ {K : Type 0} ⦃h : Hashable K⦄ where
  unfoldable pub after : List (Event K) → Lfu K → Lfu K
  after [] l = l
  after (read k ∷ es) l = after es (on_get k l)
  after (written k ∷ es) l = after es (on_put k l)
  after (removed k ∷ es) l = after es (on_delete k l)

  -- The same history of the list that the specification keeps.
  unfoldable pub specified : List (Event K) → Dict K ℕ → Dict K ℕ
  specified [] s = s
  specified (read k ∷ es) s = specified es (Spec.on_get k s)
  specified (written k ∷ es) s = specified es (Spec.on_put k s)
  specified (removed k ∷ es) s = specified es (Spec.on_delete k s)

  after-Refines :
      (es : List (Event K)) (l : Lfu K) (s : Dict K ℕ)
      → Refines l s
      → Refines (after es l) (specified es s)
  unfolding after specified
  after-Refines [] l s r = r
  after-Refines (read k ∷ es) l s r = after-Refines es _ _ (on_get-Refines l s r k)
  after-Refines (written k ∷ es) l s r = after-Refines es _ _ (on_put-Refines l s r k)
  after-Refines (removed k ∷ es) l s r = after-Refines es _ _ (on_delete-Refines l s r k)

  -- After any sequence of reads, writes and removals from the empty policy, the buckets by
  -- frequency and the minimum that the code keeps name the same key to evict as the specification:
  -- of the keys with the least number of uses, the one used least recently.
  pub after-least_used :
      (es : List (Event K))
      → evict_candidate (after es clear) ≡ key_of (least_used (specified es []))
  after-least_used es =
      evict_candidate-least_used (after es clear) (specified es [])
        (after-Refines es clear [] clear-Refines)
