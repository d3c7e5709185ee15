-- ===== src/Policy/Lfu/Bump.antt =====
-- One more use of a key, and the first use of a new one, in buckets and in the specification.
use cache_system.Prelude.{ℕ, ◌+◌, ◌≡◌, ◌≢◌, inl, inr, none, some, [], ◌∷◌, ◌++◌, arith}
use mathlib.Core.List.{append-nil}
use cache_system.Dict.{Hashable, Dict, get, put, pop, move_to_end}
use cache_system.Dict.Laws.{
  get-put, get-append, get-move_to_end, move_to_end-IsDict, append-IsDict, put_absent,
}
use cache_system.Policy.Lfu.{Lfu, Bucket, nat_hashable, bucket, store, bump, on_put}
use cache_system.Policy.Lfu.Spec.{select, IsLeast, select-append, get-select, pop-select}
use cache_system.Policy.Lfu.Relation.{
  Refines, bucket-put, bucket-store, get-store_full, append-ne-nil, put-ne-nil, select_used,
  select-move,
}

module _ {K : Type 0} ⦃h : Hashable K⦄ where
  module _ (l : Lfu K) (s : Dict K ℕ) (r : Refines l s) (k : K) (old : ℕ)
      (e : get k s ≡ some old) where
    bump-buckets :
        (f : ℕ) → bucket f (bump k old l).freq_to_keys ≡ select f (move_to_end k (old + 1) s)
    unfolding bump
    bump-buckets f =
        let rest : Bucket K = pop k (bucket old l.freq_to_keys) in
        let kept : Dict ℕ (Bucket K) = store old rest l.freq_to_keys in
        ground (
          arith,
          bucket-put (old + 1) f (put k tt (bucket (old + 1) kept)) kept,
          bucket-store old f rest l.freq_to_keys,
          bucket-store old (old + 1) rest l.freq_to_keys,
          select-move s k old f r.distinct e,
          r.buckets f,
          r.buckets old,
          r.buckets (old + 1),
          get-select k f s r.distinct,
          put_absent k tt (select f s),
          pop-select k f old s r.distinct e,
        )

    bump-full : (f : ℕ) → get f (bump k old l).freq_to_keys ≢ some []
    unfolding bump
    bump-full f =
        let rest : Bucket K = pop k (bucket old l.freq_to_keys) in
        let kept : Dict ℕ (Bucket K) = store old rest l.freq_to_keys in
        let next : Bucket K = bucket (old + 1) kept in
        λ x. ground (
          arith,
          get-put (old + 1) f (put k tt next) kept,
          put-ne-nil k next,
          get-store_full old f rest l.freq_to_keys (r.full f),
        )

    bump-IsLeast : IsLeast (bump k old l).min_freq (move_to_end k (old + 1) s)
    unfolding bump
    bump-IsLeast = elim r.least [
      | inl (none_used, zero_min) ↦
          absurd (select_used s k old r.distinct e (unfold select in rw none_used))
      | inr (some_used, below) ↦ inr (
        (λ x.
            unfold pop in
            ground (
              arith,
              select_used s k old r.distinct e,
              below old,
              r.buckets old,
              append-ne-nil (select (old + 1) s) k,
              pop-select k l.min_freq old s r.distinct e,
              select-move s k old l.min_freq r.distinct e,
              select-move s k old (old + 1) r.distinct e,
            )),
        (λ f x.
            unfold pop in
            ground (
              arith,
              below f,
              below old,
              select_used s k old r.distinct e,
              r.buckets old,
              select-move s k old f r.distinct e,
            )),
      )
    ]

    pub bump-Refines : Refines (bump k old l) (move_to_end k (old + 1) s)
    unfolding bump
    bump-Refines = record {
      buckets = bump-buckets;
      full = bump-full;
      freqs = λ j.
          ground (
            arith,
            get-put k j (old + 1) l.key_to_freq,
            get-move_to_end k j (old + 1) s,
            r.freqs j,
          );
      distinct = move_to_end-IsDict k (old + 1) s r.distinct;
      positive = unfold pop in ground (arith, select-move s k old 0 r.distinct e, r.positive);
      least = bump-IsLeast;
    }

  module _ (l : Lfu K) (s : Dict K ℕ) (r : Refines l s) (k : K) (e : get k s ≡ none) where
    absent : (f : ℕ) → get k (select f s) ≡ none
    absent f = ground (arith, get-select k f s r.distinct)

    -- A new key comes in with frequency 1, and makes 1 the least frequency.
    pub new-Refines : get k l.key_to_freq ≡ none → Refines (on_put k l) (s ++ (k, 1) ∷ [])
    unfolding on_put
    new-Refines n =
        rw (n, on_put)
          (record {
            buckets = λ f.
                unfold select in
                ground (
                  arith,
                  bucket-put 1 f (put k tt (bucket 1 l.freq_to_keys)) l.freq_to_keys,
                  r.buckets f,
                  r.buckets 1,
                  absent 1,
                  put_absent k tt (select 1 s),
                  select-append f s ((k, 1) ∷ []),
                  append-nil (select f s),
                );
            full = λ f x. ground (
              arith,
              get-put 1 f (put k tt (bucket 1 l.freq_to_keys)) l.freq_to_keys,
              put-ne-nil k (bucket 1 l.freq_to_keys),
              r.full f,
            );
            freqs = λ j.
                unfold get in
                ground
                  (arith, get-put k j 1 l.key_to_freq, get-append j s ((k, 1) ∷ []), r.freqs j, e);
            distinct = append-IsDict s k 1 r.distinct e;
            positive = unfold select in ground (arith, select-append 0 s ((k, 1) ∷ []), r.positive);
            least = inr (
              (λ x.
                  unfold select in
                  ground (arith, select-append 1 s ((k, 1) ∷ []), append-ne-nil (select 1 s) k)),
              (λ f x. unfold select in ground (arith, select-append 0 s ((k, 1) ∷ []), r.positive)),
            );
          })
