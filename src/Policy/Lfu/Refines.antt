-- ===== src/Policy/Lfu/Refines.antt =====
-- Every operation of the LFU policy implements its specification.
use cache_system.Prelude.{
  ℕ, true, ◌≡◌, refl, inl, inr, Option-cases, none, some, [], arith, false, ◌∙◌,
}
use cache_system.Dict.{Hashable, Dict, get, contains}
use cache_system.Dict.Laws.{pop_absent, first-contains}
use cache_system.Policy.Lfu.{Lfu, nat_hashable, on_get, on_put, on_delete, evict_candidate, clear}
use cache_system.Policy.Lfu.Spec
use cache_system.Policy.Lfu.Spec.{
  select, least_used, key_of, IsLeast, select-append, select-pop, get-select, pop-select,
  first-select-least, key_of-none,
}
use cache_system.Policy.Lfu.Relation.{Refines}
use cache_system.Policy.Lfu.Bump.{bump-Refines, new-Refines}
use cache_system.Policy.Lfu.Drop.{drop-Refines}

module _ {K : Type 0} ⦃h : Hashable K⦄ where
  pub clear-Refines : Refines {K = K} clear []
  unfolding clear select
  clear-Refines = record {
    buckets = λ f. unfold get in refl;
    full = λ f x. unfold get in cc x;
    freqs = λ k. refl;
    distinct = tt;
    positive = refl;
    least = inl (refl, refl);
  }

  module _ (l : Lfu K) (s : Dict K ℕ) (r : Refines l s) (k : K) where
    pub on_get-Refines : Refines (on_get k l) (Spec.on_get k s)
    unfolding on_get Spec.on_get
    on_get-Refines = elim (Option-cases (get k s)) [
      | inl n ↦ rw (r.freqs k, n, on_get, Spec.on_get) r
      | inr (f, n) ↦ rw (r.freqs k, n, on_get, Spec.on_get) (bump-Refines l s r k f n)
    ]

    pub on_put-Refines : Refines (on_put k l) (Spec.on_put k s)
    unfolding Spec.on_put
    on_put-Refines = elim (Option-cases (get k s)) [
      | inl n ↦ rw (n, Spec.on_put) (new-Refines l s r k n (r.freqs k ∙ n))
      | inr (f, n) ↦
          rw (n, Spec.on_put)
            (unfold on_put in rw (r.freqs k, n, on_put) (bump-Refines l s r k f n))
    ]

    pub on_delete-Refines : Refines (on_delete k l) (Spec.on_delete k s)
    unfolding on_delete Spec.on_delete
    on_delete-Refines = elim (Option-cases (get k s)) [
      | inl n ↦ rw (r.freqs k, n, on_delete) (rw (pop_absent k s n) r)
      | inr (f, n) ↦ rw (r.freqs k, n, on_delete) (drop-Refines l s r k f n)
    ]

  -- The candidate is the least recent of the keys with the least frequency.
  pub evict_candidate-least_used :
      (l : Lfu K) (s : Dict K ℕ) → Refines l s → evict_candidate l ≡ key_of (least_used s)
  unfolding evict_candidate
  evict_candidate-least_used l s r = go r.least
    where
      go : IsLeast l.min_freq s → evict_candidate l ≡ key_of (least_used s)
      go (inl (none_used, zero_min)) = rw (zero_min, none_used) (unfold least_used in refl)
      go (inr (some_used, below)) =
          ground (
            arith,
            r.buckets l.min_freq,
            r.positive,
            first-select-least l.min_freq s some_used below,
          )

  -- Every candidate is a key of the policy.
  pub candidate-contains :
      (l : Lfu K) (s : Dict K ℕ)
      → Refines l s
      → (k : K) → evict_candidate l ≡ some k
      → contains k l.key_to_freq ≡ true
  unfolding evict_candidate
  candidate-contains l s r k e = ground (
    arith,
    r.buckets l.min_freq,
    r.freqs k,
    get-select k l.min_freq s r.distinct,
    first-contains k (select l.min_freq s),
  )

  pub candidate-none :
      (l : Lfu K) (s : Dict K ℕ)
      → Refines l s
      → (k : K) → evict_candidate l ≡ none
      → contains k l.key_to_freq ≡ false
  candidate-none l s r k e =
      rw (r.freqs k) (unfold get in ground (arith, evict_candidate-least_used l s r, key_of-none s))
