-- ===== src/Shard/Capacities.antt =====
-- `shard_capacities`: how a total capacity is divided among the shards.
use cache_system.Prelude.{
  ℕ, zero, suc, ◌+◌, ◌-◌, ◌*◌, ◌/◌, ◌%◌, ◌≤◌, ◌<◌, ◌≡◌, refl, min, List, [], ◌∷◌, All, arith, some,
  get_elem?, length, sum, ltb, if◌then◌else◌,
}

-- The list comprehension, for `n` indices from `index` on.
unfoldable pub capacities_from : ℕ → ℕ → ℕ → ℕ → List ℕ
capacities_from base remainder index zero = []
capacities_from base remainder index (suc n) =
    (base + (if ltb index remainder then 1 else 0)) ∷ capacities_from base remainder (index + 1) n

unfoldable pub shard_capacities : ℕ → ℕ → List ℕ
unfolding capacities_from
shard_capacities total_capacity shard_count =
    capacities_from (total_capacity / shard_count) (total_capacity % shard_count) 0 shard_count

length-capacities_from : (b r i n : ℕ) → length (capacities_from b r i n) ≡ n
unfolding capacities_from
length-capacities_from b r i zero = refl
length-capacities_from b r i (suc n) = omega (arith, length-capacities_from b r (i + 1) n)

sum-capacities_from : (b r i n : ℕ) → sum (capacities_from b r i n) ≡ n * b + min (r - i) n
unfolding capacities_from
sum-capacities_from b r i zero = omega arith
sum-capacities_from b r i (suc n) = ground (arith, sum-capacities_from b r (i + 1) n)

capacities_from-rooms : (b r i n : ℕ) → 0 < b → All (λ c. 0 < c) (capacities_from b r i n)
unfolding capacities_from
capacities_from-rooms b r i zero p = tt
capacities_from-rooms b r i (suc n) p = (ground arith, capacities_from-rooms b r (i + 1) n p)

-- There is one capacity for each shard.
pub length-shard_capacities : (total count : ℕ) → length (shard_capacities total count) ≡ count
unfolding shard_capacities
length-shard_capacities total count = length-capacities_from _ _ 0 count

pub sum-shard_capacities :
    (total count : ℕ) → 0 < count → sum (shard_capacities total count) ≡ total
unfolding shard_capacities
sum-shard_capacities total count h =
    grind (arith, sum-capacities_from (total / count) (total % count) 0 count)

get_elem?-capacities_from :
    (b r i n j x : ℕ)
    → get_elem? (capacities_from b r i n) j ≡ some x
    → x ≡ b + (if ltb (i + j) r then 1 else 0)
unfolding capacities_from
get_elem?-capacities_from b r i zero j x e = absurd (ground arith)
get_elem?-capacities_from b r i (suc n) zero x e = ground arith
get_elem?-capacities_from b r i (suc n) (suc j) x e =
    ground (arith, get_elem?-capacities_from b r (i + 1) n j x e)

-- The capacities are the fair division of the total: for a positive number of shards there is one
-- for each shard, they add up to the total, and none is less than a later one, or more than one
-- above it.
pub shard_capacities-fair :
    (total count : ℕ)
    → 0 < count
    → (sum (shard_capacities total count) ≡ total)
      × (length (shard_capacities total count) ≡ count)
      × ((i j x y : ℕ)
          → i ≤ j
          → get_elem? (shard_capacities total count) i ≡ some x
          → get_elem? (shard_capacities total count) j ≡ some y
          → (y ≤ x) × (x ≤ y + 1))
shard_capacities-fair total count p = (
  sum-shard_capacities total count p,
  length-shard_capacities total count,
  λ i j x y le ex ey.
      unfold shard_capacities in
      ground (
        arith,
        get_elem?-capacities_from (total / count) (total % count) 0 count i x ex,
        get_elem?-capacities_from (total / count) (total % count) 0 count j y ey,
      ),
)

-- With no more shards than entries, every shard has room for one.
pub shard_capacities-rooms :
    (total count : ℕ) → 0 < count → count ≤ total → All (λ c. 0 < c) (shard_capacities total count)
unfolding shard_capacities
shard_capacities-rooms total count p fits = capacities_from-rooms _ _ 0 count (grind arith)
