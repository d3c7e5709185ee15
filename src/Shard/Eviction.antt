-- ===== src/Shard/Eviction.antt =====
-- The loop that makes room: it keeps the invariant, ends within the capacity, and takes away only
-- keys that the policy named.
use cache_system.Prelude.{
  ℕ, zero, suc, ◌≤◌, ◌<◌, ◌≡◌, inl, inr, refl, true, none, some, [], ◌∷◌, arith, ltb, Option-cases,
  Bool-cases, ap, ◌∙◌,
}
use cache_system.Dict.{Hashable, Dict, get, contains, size}
use cache_system.Entry.{Entry}
use cache_system.Policy
use cache_system.Policy.Contract.{tracks-evict_candidate, evict_candidate-none}
use cache_system.Shard.{Shard, evict, remove_entry, enforce_capacity}
use cache_system.Shard.Invariant.{
  IsValid, remove_entry-IsValid, size-remove_entry, capacity-remove_entry,
}

module _ {K V : Type 0} ⦃h : Hashable K⦄ where
  -- What each removal by the loop keeps, the loop keeps.
  module _ (P : Shard K V → Type 0)
      (step : (s : Shard K V) (k : K)
        → s.capacity < size s.backend
        → Policy.evict_candidate s.policy ≡ some k
        → P s
        → P (remove_entry k evict s).1) where
    pub enforce_capacity_induction : (fuel : ℕ) (s : Shard K V) → P s → P (enforce_capacity fuel s)
    unfolding enforce_capacity
    enforce_capacity_induction zero s p = p
    enforce_capacity_induction (suc fuel) s p =
        let next = λ (k : K). enforce_capacity_induction fuel (remove_entry k evict s).1 in
        elim (Bool-cases (ltb s.capacity (size s.backend))) [
          | inr fits ↦ rw fits p
          | inl over ↦ elim (Option-cases (Policy.evict_candidate s.policy)) [
            | inl n ↦ rw (over, n) p
            | inr (k, n) ↦ rw (over, n) (next k (step s k (ground arith) n p))
          ]
        ]

  pub enforce_capacity-IsValid :
      (fuel : ℕ) (s : Shard K V) → IsValid s → IsValid (enforce_capacity fuel s)
  enforce_capacity-IsValid =
      enforce_capacity_induction IsValid (λ s k o n v. remove_entry-IsValid s k evict v)

  pub capacity-enforce_capacity :
      (fuel : ℕ) (s : Shard K V) → (enforce_capacity fuel s).capacity ≡ s.capacity
  capacity-enforce_capacity fuel s =
      enforce_capacity_induction (λ t. t.capacity ≡ s.capacity)
        (λ t k o n e. capacity-remove_entry t k evict ∙ e) fuel s refl

  -- The candidate of a valid shard is a key of its backend.
  pub candidate-contains :
      (s : Shard K V) (k : K)
      → IsValid s
      → Policy.evict_candidate s.policy ≡ some k
      → contains k s.backend ≡ true
  candidate-contains s k v n =
      ground (arith, (v.key k).tracked, tracks-evict_candidate k s.policy v.policy n)

  -- A valid shard with no candidate is empty.
  pub candidate-none :
      (s : Shard K V) → IsValid s → Policy.evict_candidate s.policy ≡ none → size s.backend ≡ 0
  candidate-none s v n = go s.backend refl
    where
      go : (d : Dict K (Entry K V)) → s.backend ≡ d → size s.backend ≡ 0
      go [] e = rw e
      go ((k, x) ∷ d) e =
          unfold get in
          ground (
            arith,
            (v.key k).tracked,
            evict_candidate-none k s.policy v.policy n,
            ap (contains k) e,
          )

  -- With as many rounds as entries the loop ends by its test: the shard fits its capacity.
  pub enforce_capacity-bounded :
      (fuel : ℕ) (s : Shard K V)
      → IsValid s
      → size s.backend ≤ fuel
      → size (enforce_capacity fuel s).backend ≤ s.capacity
  unfolding enforce_capacity
  enforce_capacity-bounded zero s v b = omega arith
  enforce_capacity-bounded (suc fuel) s v b =
      let rest = λ (k : K).
        enforce_capacity-bounded fuel (remove_entry k evict s).1
          (remove_entry-IsValid s k evict v) in
      elim (Bool-cases (ltb s.capacity (size s.backend))) [
        | inr fits ↦ rw fits (ground arith)
        | inl over ↦ elim (Option-cases (Policy.evict_candidate s.policy)) [
          | inl n ↦ absurd (ground (arith, candidate-none s v n))
          | inr (k, n) ↦
              rw (over, n)
                (ground (
                  arith,
                  rest k,
                  capacity-remove_entry s k evict,
                  size-remove_entry s k evict v,
                  candidate-contains s k v n,
                ))
        ]
      ]
