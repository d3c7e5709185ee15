-- ===== src/Policy/Lfu/Relation.antt =====
-- The frequency buckets hold what the one list of the specification holds.
use cache_system.Prelude.{ℕ, ◌+◌, ◌≡◌, ◌≢◌, some, [], ◌∷◌, ◌++◌, arith, ◌==◌, if◌then◌else◌}
use mathlib.Core.List.{append-nil}
use cache_system.Dict.{Hashable, Dict, get, put, pop, move_to_end, IsDict}
use cache_system.Dict.Laws.{get-put, get-pop}
use cache_system.Policy.Lfu.{Lfu, Bucket, nat_hashable, bucket, store}
use cache_system.Policy.Lfu.Spec.{
  select, IsLeast, select-append, select-pop, get-select, pop-select,
}

module _ {K : Type 0} where
  pub bucket-put :
      (g f : ℕ) (b : Bucket K) (d : Dict ℕ (Bucket K))
      → bucket f (put g b d) ≡ (if g == f then b else bucket f d)
  bucket-put g f b d = ground (arith, get-put g f b d)

  pub bucket-store :
      (g f : ℕ) (b : Bucket K) (d : Dict ℕ (Bucket K))
      → bucket f (store g b d) ≡ (if g == f then b else bucket f d)
  unfolding store
  bucket-store g f [] d = ground (arith, get-pop g f d)
  bucket-store g f (e ∷ b) d = ground (arith, get-put g f (e ∷ b) d)

  pub get-store_full :
      (g f : ℕ) (b : Bucket K) (d : Dict ℕ (Bucket K))
      → get f d ≢ some []
      → get f (store g b d) ≢ some []
  unfolding store
  get-store_full g f [] d n = ground (arith, get-pop g f d)
  get-store_full g f (e ∷ b) d n = ground (arith, get-put g f (e ∷ b) d)

module _ {K : Type 0} ⦃h : Hashable K⦄ where
  pub record Refines (l : Lfu K) (s : Dict K ℕ) : Type 0 where
    pub buckets : (f : ℕ) → bucket f l.freq_to_keys ≡ select f s
    pub full : (f : ℕ) → get f l.freq_to_keys ≢ some []
    pub freqs : (k : K) → get k l.key_to_freq ≡ get k s
    pub distinct : IsDict s
    pub positive : select 0 s ≡ []
    pub least : IsLeast l.min_freq s

  pub append-ne-nil : (b : Bucket K) (k : K) → b ++ (k, tt) ∷ [] ≢ []
  append-ne-nil [] k = λ e. ground arith
  append-ne-nil ((j, v) ∷ b) k = λ e. ground arith

  pub put-ne-nil : (k : K) (b : Bucket K) → put k tt b ≢ []
  unfolding put
  put-ne-nil k [] = λ e. ground arith
  put-ne-nil k ((j, v) ∷ b) = λ e. ground arith

  pub select_used : (s : Dict K ℕ) (k : K) (f : ℕ) → IsDict s → get k s ≡ some f → select f s ≢ []
  select_used s k f u e n = unfold get in ground (arith, get-select k f s u)

  pub select-move :
      (s : Dict K ℕ) (k : K) (old f : ℕ)
      → IsDict s
      → get k s ≡ some old
      → select f (move_to_end k (old + 1) s)
        ≡ (if old + 1 == f then select f s ++ (k, tt) ∷ [] else pop k (select f s))
  select-move s k old f u e =
      unfold select in
      ground (
        arith,
        select-append f (pop k s) ((k, old + 1) ∷ []),
        select-pop f k s,
        pop-select k f old s u e,
        append-nil (pop k (select f s)),
      )
