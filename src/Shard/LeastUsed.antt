-- ===== src/Shard/LeastUsed.antt =====
-- A new key in a full shard under LFU, whose frequency of 1 makes it the next to be evicted.
use cache_system.Prelude.{
  ℕ, ◌<◌, ◌≡◌, refl, Bool, Option, none, some, [], ◌∷◌, ◌++◌, arith, ◌∙◌, subst, sym, ap,
}
use cache_system.Prelude.Int.{ℤ}
use cache_system.Dict.{Hashable, Dict, get, put, contains, size, IsDict}
use cache_system.Dict.Laws.{get-pop, size-put}
use cache_system.Entry.{Entry}
use cache_system.Jobs.{Ttl}
use cache_system.Policy
use cache_system.Policy.{Policy, lfu}
use cache_system.Policy.Contract
use cache_system.Policy.Lfu
use cache_system.Policy.Lfu.Spec
use cache_system.Policy.Lfu.Spec.{least_used}
use cache_system.Policy.Lfu.Refines
use cache_system.Shard.{Shard, next_version}
use cache_system.Shard.Writes.{new_entry, store_entry, put_entry}
use cache_system.Shard.Settled.{IsSettled}
use cache_system.Shard.Placement.{put_entry-backend}

module _ {K : Type 0} ⦃h : Hashable K⦄ where
  least_used-new :
      (k : K) (s : Dict K ℕ)
      → IsDict s
      → ((j : K) (n : ℕ) → get j s ≡ some n → 1 < n)
      → least_used (s ++ (k, 1) ∷ []) ≡ some (k, 1)
  unfolding least_used get
  least_used-new k [] u above = refl
  least_used-new k ((j, n) ∷ s) (fresh, u) above =
      let more : 1 < n = above j n (ground arith) in
      let ih = least_used-new k s u (λ i m e. above i m (ground arith)) in ground (arith, ih, more)

  own_victim :
      (k : K) (l : Lfu.Lfu K)
      → Contract.IsValid (lfu l)
      → get k l.key_to_freq ≡ none
      → ((j : K) (n : ℕ) → get j l.key_to_freq ≡ some n → 1 < n)
      → Policy.evict_candidate (Policy.on_put k (lfu l)) ≡ some k
  unfolding Policy.evict_candidate Policy.on_put
  own_victim k l (s, r) absent above =
      Refines.evict_candidate-least_used (Lfu.on_put k l) (Spec.on_put k s)
        (Refines.on_put-Refines l s r k)
      ∙ (unfold Spec.on_put in
          rw (sym (r.freqs k) ∙ absent, Spec.on_put)
            (ap Spec.key_of (least_used-new k s r.distinct (λ j n e. above j n (r.freqs j ∙ e)))))

module _ {K V : Type 0} ⦃h : Hashable K⦄ where
  -- Under LFU, in a shard that is full and whose keys were all used more than once, a `put` of a
  -- new key evicts that key itself: when the lock is released the value is not in the cache.
  pub put_entry-lost :
      (s : Shard K V) (k : K) (x : V) (ttl : Ttl) (write_back : Bool) (now : ℕ)
      (default_ttl : Option ℤ) (old : Option (Entry K V)) (l : Lfu.Lfu K)
      → IsSettled s
      → s.policy ≡ lfu l
      → ((j : K) (n : ℕ) → get j l.key_to_freq ≡ some n → 1 < n)
      → get k s.backend ≡ none
      → size s.backend ≡ s.capacity
      → get k (put_entry k x ttl write_back now default_ttl old s).1.backend ≡ none
  unfolding store_entry next_version
  put_entry-lost s k x ttl write_back now default_ttl old l v is_lfu above absent full = ground (
    arith,
    put_entry-backend s k x ttl write_back now default_ttl old v,
    victim,
    get-pop k k (put k e s.backend),
    size-put k e s.backend,
  )
    where
      e : Entry K V
      e = new_entry k x ttl write_back now default_ttl old (next_version k s).0

      untracked : get k l.key_to_freq ≡ none
      untracked =
          unfold Policy.tracks in
          ground (
            arith,
            subst (λ p. Policy.tracks k p ≡ contains k s.backend) is_lfu (v.valid.key k).tracked,
          )

      victim : Policy.evict_candidate (Policy.on_put k s.policy) ≡ some k
      victim =
          rw is_lfu (own_victim k l (subst Contract.IsValid is_lfu v.valid.policy) untracked above)
