-- ===== src/Hashing.antt =====
-- src/cachelab/concurrency/hashing.py: the number by which a key is sent to a shard.
-- `repr`, the UTF-8 encoding and BLAKE2b are parameters.
use cache_system.Prelude.{ℕ, Bool, true, false, String, List, ◌≡◌, refl, sym, subst, ◌∙◌, ◌%◌}
use cache_system.Prelude.Int.{ℤ, pos}

-- The keys that the function tells apart. A float that is an integer carries it; any other key is
-- known by its `repr`.
pub data Key : Type 0 where
  bool : Bool → Key
  int : ℤ → Key
  integral_float : ℤ → Key
  other : String → Key

-- The tagged tuple that `_canonical` returns.
pub data Canonical : Type 0 where
  int_tag : ℤ → Canonical
  repr_tag : String → Canonical

-- `int(key)` of a bool
abbrev pub int_of_bool : Bool → ℤ
int_of_bool false = pos 0
int_of_bool true = pos 1

unfoldable pub canonical : Key → Canonical
canonical (bool b) = int_tag (int_of_bool b)
canonical (int z) = int_tag z
canonical (integral_float z) = int_tag z
canonical (other s) = repr_tag s

-- Keys that are one number: a bool, an int and a float that is an integer, by value. Any other key is
-- only taken for the same as one with its `repr`; what else Python holds equal, as `1.5` and
-- `Fraction(3, 2)`, or `(1,)` and `(True,)`, is not related.
pub data SameNumber : Key → Key → Type 0 where
  same : (k : Key) → SameNumber k k
  bool_int : (b : Bool) → SameNumber (bool b) (int (int_of_bool b))
  int_float : (z : ℤ) → SameNumber (int z) (integral_float z)
  symmetric : {a b : Key} → SameNumber a b → SameNumber b a
  transitive : {a b c : Key} → SameNumber a b → SameNumber b c → SameNumber a c

canonical-SameNumber : {a b : Key} → SameNumber a b → canonical a ≡ canonical b
unfolding canonical
canonical-SameNumber (same k) = refl
canonical-SameNumber (bool_int b) = refl
canonical-SameNumber (int_float z) = refl
canonical-SameNumber (symmetric e) = sym (canonical-SameNumber e)
canonical-SameNumber (transitive e f) = canonical-SameNumber e ∙ canonical-SameNumber f

-- The key that stands for all with a canonical form.
abbrev plain : Canonical → Key
plain (int_tag z) = int z
plain (repr_tag s) = other s

SameNumber-plain : (k : Key) → SameNumber k (plain (canonical k))
unfolding canonical
SameNumber-plain (bool b) = bool_int b
SameNumber-plain (int z) = same (int z)
SameNumber-plain (integral_float z) = symmetric (int_float z)
SameNumber-plain (other s) = same (other s)

module _ (repr : Canonical → String) (encode : String → List ℕ) (digest : List ℕ → ℕ) where
  unfoldable pub stable_hash : Key → ℕ
  stable_hash key = digest (encode (repr (canonical key)))

  -- A bool, an int and a float that is an integer are sent to one shard if they are the same number,
  -- as `True`, `1` and `1.0` are, whatever the number of shards; and that is all that the canonical
  -- form of a key forgets: two keys with one form are the same number, or have one `repr`.
  pub stable_hash-SameNumber :
      (a b : Key) (n : ℕ)
      → (SameNumber a b → stable_hash a % n ≡ stable_hash b % n)
        × (canonical a ≡ canonical b → SameNumber a b)
  unfolding stable_hash
  stable_hash-SameNumber a b n = (
    λ e. rw (canonical-SameNumber e) refl,
    λ e.
        transitive (SameNumber-plain a)
          (symmetric (subst (λ c. SameNumber b (plain c)) (sym e) (SameNumber-plain b))),
  )
