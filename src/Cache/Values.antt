-- ===== src/Cache/Values.antt =====
-- Which values the shards of a cache may show, and what an action makes of that.
mod Sections
mod Calls
mod Writes
mod Loads
pub mod Reads
use cache_system.Prelude.{
  ℕ, ◌%◌, ◌≡◌, ◌≢◌, ◌⊎◌, refl, Option, none, some, List, [], ◌∷◌, All, All-get_elem?, All-set,
  length, length-set, get_elem?, get_elem?-some, get_elem?-set_self, get_elem?-set_ne, set, arith,
  ℕ_discrete, Option-cases, inl, inr, ◌∙◌, sym, subst,
}
use cache_system.Exec.{Exec, Result, ok, err, modify}
use cache_system.Exec.Keeps.{Keeps}
use cache_system.Exec.Triple.{Triple, Triple-after}
use cache_system.Dict.{Hashable, ◌≟◌, get}
use cache_system.Entry.{Entry}
use cache_system.Shard.{Shard}
use cache_system.Shard.Settled.{IsSettled}
use cache_system.Cache.{Cache, StableHash, with_shard, change_shard, with_source}
use cache_system.Source.{SlowDict}

abbrev pub IsOneOf : {V : Type 0} → V → List V → Type 0
IsOneOf v [] = ⊥
IsOneOf v (x ∷ xs) = (v ≡ x) ⊎ IsOneOf v xs

module _ {K V : Type 0} where
  -- The value of an entry is one of those.
  abbrev pub Shows : Option (Entry K V) → List V → Type 0
  Shows none vs = Unit
  Shows (some e) vs = IsOneOf e.value vs

  -- An entry may go, and keeps its value if it stays.
  abbrev pub Kept : Option (Entry K V) → Option (Entry K V) → Type 0
  Kept old none = Unit
  Kept none (some f) = ⊥
  Kept (some e) (some f) = f.value ≡ e.value

  pub Shows-Kept : (a b : Option (Entry K V)) (vs : List V) → Kept a b → Shows a vs → Shows b vs
  Shows-Kept a none vs k v = tt
  Shows-Kept none (some f) vs k v = absurd k
  Shows-Kept (some e) (some f) vs k v = subst (λ x. IsOneOf x vs) (sym k) v

module _ {K V : Type 0} ⦃h : Hashable K⦄ ⦃stable : StableHash K⦄ (n : ℕ) where
  -- In the shard of a key, the key shows one of the values that it may have.
  pub record AgreesOn (m : K → List V) (shards : List (Shard K V)) : Type 0 where
    pub settled : All IsSettled shards
    pub size : length shards ≡ n
    pub shows :
        (i : ℕ) (s : Shard K V) (k : K)
        → get_elem? shards i ≡ some s
        → i ≡ stable.stable_hash k % n
        → Shows (get k s.backend) (m k)

  abbrev pub Agrees : (K → List V) → Cache K V → Type 0
  Agrees m c = AgreesOn m c.shards

  -- What the section of a shard has to do to the keys of the shard, and what may hold of the others.
  module _ {A : Type 0} (i : ℕ) (f : Shard K V → A × Shard K V) (m m' : K → List V)
      (settled : (s : Shard K V) → IsSettled s → IsSettled (f s).1)
      (own : (s : Shard K V) (k : K)
        → IsSettled s
        → i ≡ stable.stable_hash k % n
        → Shows (get k s.backend) (m k)
        → Shows (get k (f s).1.backend) (m' k))
      (others : (k : K) (e : Option (Entry K V))
        → i ≢ stable.stable_hash k % n
        → Shows e (m k)
        → Shows e (m' k)) where
    section_AgreesOn :
        (shards : List (Shard K V)) (s : Shard K V)
        → get_elem? shards i ≡ some s
        → AgreesOn m shards
        → AgreesOn m' (set shards i (f s).1)
    section_AgreesOn shards s e a = record {
      settled =
          All-set IsSettled shards i (f s).1 a.settled
            (settled s (All-get_elem? IsSettled shards i s a.settled e));
      size = length-set shards i (f s).1 ∙ a.size;
      shows = λ j t k found here. elim (ℕ_discrete i j) [
        | yes same ↦
            subst (λ u. Shows (get k u.backend) (m' k)) (written j t same found)
              (own s k (All-get_elem? IsSettled shards i s a.settled e) (same ∙ here)
                (a.shows i s k e (same ∙ here)))
        | no other ↦
            others k (get k t.backend) (λ p. other (p ∙ sym here))
              (a.shows j t k (sym (get_elem?-set_ne shards i j (f s).1 other) ∙ found) here)
      ];
    }
      where
        written :
            (j : ℕ) (t : Shard K V)
            → i ≡ j
            → get_elem? (set shards i (f s).1) j ≡ some t
            → (f s).1 ≡ t
        written j t same found =
            ground (
              arith,
              same,
              found,
              get_elem?-set_self shards i (f s).1 (get_elem?-some shards i s e),
            )

    pub with_shard-Agrees : Triple (Agrees m) (with_shard i f) (Agrees m') (Agrees m)
    unfolding with_shard
    with_shard-Agrees = record {
      at = λ c a. elim (Option-cases (get_elem? c.shards i)) [
        | inl e ↦ rw (e, with_shard) a
        | inr (s, e) ↦ rw (e, with_shard) (section_AgreesOn c.shards s e a)
      ];
    }

  -- A section that takes entries away, if it changes them at all.
  pub with_shard-Keeps :
      {A : Type 0} (i : ℕ) (f : Shard K V → A × Shard K V) (m : K → List V)
      → ((s : Shard K V) → IsSettled s → IsSettled (f s).1)
      → ((s : Shard K V) (k : K) → Kept (get k s.backend) (get k (f s).1.backend))
      → Keeps (Agrees m) (with_shard i f)
  with_shard-Keeps i f m settled kept = record {
    at =
        Triple-after (with_shard i f)
          (with_shard-Agrees i f m m settled
            (λ s k v here. Shows-Kept (get k s.backend) (get k (f s).1.backend) (m k) (kept s k))
            (λ k e there v. v))
          (λ c a. a);
  }
