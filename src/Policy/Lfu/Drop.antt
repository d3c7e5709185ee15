-- ===== src/Policy/Lfu/Drop.antt =====
-- A key that is removed, in buckets and in the specification.
use cache_system.Prelude.{ℕ, ◌≡◌, ◌≢◌, inl, inr, some, [], arith, ◌==◌, Bool-cases, ◌&&◌, false}
use cache_system.Dict.{Hashable, Dict, get, pop}
use cache_system.Dict.Laws.{get-pop, pop-IsDict}
use cache_system.Policy.Lfu.{Lfu, Bucket, is_empty, nat_hashable, bucket, store, drop}
use cache_system.Policy.Lfu.Spec.{select, IsLeast, select-pop, pop-select}
use cache_system.Policy.Lfu.Least.{least_key-IsLeast}
use cache_system.Policy.Lfu.Relation.{Refines, bucket-store, get-store_full, select_used}

module _ {K : Type 0} ⦃h : Hashable K⦄ where
  module _ (l : Lfu K) (s : Dict K ℕ) (r : Refines l s) (k : K) (freq : ℕ)
      (e : get k s ≡ some freq) where
    drop-buckets : (f : ℕ) → bucket f (drop k freq l).freq_to_keys ≡ select f (pop k s)
    unfolding drop
    drop-buckets f = ground (
      arith,
      bucket-store freq f (pop k (bucket freq l.freq_to_keys)) l.freq_to_keys,
      r.buckets f,
      r.buckets freq,
      select-pop f k s,
      pop-select k f freq s r.distinct e,
    )

    drop-full : (f : ℕ) → get f (drop k freq l).freq_to_keys ≢ some []
    unfolding drop
    drop-full f =
        get-store_full freq f (pop k (bucket freq l.freq_to_keys)) l.freq_to_keys (r.full f)

    drop-IsLeast : IsLeast (drop k freq l).min_freq (pop k s)
    unfolding drop
    drop-IsLeast =
        let rest : Bucket K = pop k (bucket freq l.freq_to_keys) in
        let kept : Dict ℕ (Bucket K) = store freq rest l.freq_to_keys in
        elim (Bool-cases (is_empty rest && l.min_freq == freq)) [
          | inl last ↦ rw last (least_key-IsLeast kept (pop k s) drop-buckets drop-full)
          | inr other ↦ rw other (drop-kept other r.least)
        ]
      where
        drop-kept :
            is_empty (pop k (bucket freq l.freq_to_keys)) && l.min_freq == freq ≡ false
            → IsLeast l.min_freq s
            → IsLeast l.min_freq (pop k s)
        drop-kept o (inl (none_used, zero_min)) =
            absurd (select_used s k freq r.distinct e (unfold select in rw none_used))
        drop-kept o (inr (some_used, below)) = inr (
          (λ x. ground (
            arith,
            select_used s k freq r.distinct e,
            r.buckets freq,
            select-pop l.min_freq k s,
            pop-select k l.min_freq freq s r.distinct e,
          )),
          (λ f x. unfold pop in ground (arith, select-pop f k s, below f)),
        )

    pub drop-Refines : Refines (drop k freq l) (pop k s)
    unfolding drop
    drop-Refines = record {
      buckets = drop-buckets;
      full = drop-full;
      freqs = λ j. ground (arith, get-pop k j l.key_to_freq, get-pop k j s, r.freqs j);
      distinct = pop-IsDict k s r.distinct;
      positive = unfold pop in ground (arith, select-pop 0 k s, r.positive);
      least = drop-IsLeast;
    }
