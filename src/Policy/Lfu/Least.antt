-- ===== src/Policy/Lfu/Least.antt =====
-- `min(freq_to_keys, default=0)` is the least frequency in use.
use cache_system.Prelude.{ℕ, ◌<◌, ◌≡◌, ◌≢◌, refl, inl, inr, true, none, some, [], ◌∷◌, arith}
use cache_system.Dict.{Dict, get, keys, contains}
use cache_system.Policy.Lfu.{Bucket, nat_hashable, bucket, least_key}
use cache_system.Policy.Lfu.Spec.{select, IsLeast}

module _ {K : Type 0} where
  select-none : (s : Dict K ℕ) → ((f : ℕ) → select f s ≡ []) → s ≡ []
  unfolding select
  select-none [] e = refl
  select-none ((k, f) ∷ s) e = ground (arith, e f)

  least_key-contains :
      (f : ℕ) (b : Bucket K) (d : Dict ℕ (Bucket K))
      → contains (least_key (keys ((f, b) ∷ d))) ((f, b) ∷ d) ≡ true
  unfolding get least_key
  least_key-contains f b [] = ground arith
  least_key-contains f b ((g, c) ∷ d) = ground (arith, least_key-contains g c d)

  least_key-below : (m : ℕ) (d : Dict ℕ (Bucket K)) → m < least_key (keys d) → get m d ≡ none
  unfolding get least_key
  least_key-below m [] e = refl
  least_key-below m ((f, b) ∷ []) e = ground arith
  least_key-below m ((f, b) ∷ (g, c) ∷ d) e = ground (arith, least_key-below m ((g, c) ∷ d))

  pub least_key-IsLeast :
      (d : Dict ℕ (Bucket K)) (s : Dict K ℕ)
      → ((f : ℕ) → bucket f d ≡ select f s)
      → ((f : ℕ) → get f d ≢ some [])
      → IsLeast (least_key (keys d)) s
  least_key-IsLeast [] s same full =
      inl (select-none s (λ f. unfold get in ground (arith, same f)), unfold least_key in refl)
  least_key-IsLeast ((f, b) ∷ d) s same full =
      let m : ℕ = least_key (keys ((f, b) ∷ d)) in
      inr (
        (λ e. ground (arith, same m, full m, least_key-contains f b d)),
        (λ g l. ground (arith, same g, least_key-below g ((f, b) ∷ d))),
      )
