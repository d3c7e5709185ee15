-- ===== src/Shard/Invariant.antt =====
-- What holds of a shard whenever its lock is free.
use cache_system.Prelude.{ℕ, ◌+◌, ◌<◌, ◌≡◌, ◌⊎◌, true, Option, none, some, arith, if◌then◌else◌}
use cache_system.Dict.{Hashable, get, pop, contains, IsDict, size}
use cache_system.Dict.Laws.{get-pop, pop-IsDict, size-pop}
use cache_system.Entry.{Entry}
use cache_system.Policy
use cache_system.Policy.Contract
use cache_system.Policy.Contract.{
  tracks-on_get, tracks-on_put, tracks-on_delete, tracks-evict_candidate, evict_candidate-none,
  on_delete-IsValid,
}
use cache_system.WriteBack.{or_zero}
use cache_system.Shard.{Shard, Reason, prune_marks, remove_entry}

module _ {K V : Type 0} where
  -- A live entry is stored under its own key, its version is the mark of the key, and it has no
  -- tombstone. The tombstone of a key with no entry is its mark.
  abbrev pub Marks : K → Option (Entry K V) → Option ℕ → Option ℕ → Type 0
  Marks k (some e) mark tombstone = (e.key ≡ k) × (mark ≡ some e.version) × (tombstone ≡ none)
  Marks k none mark tombstone = (tombstone ≡ none) ⊎ (tombstone ≡ mark)

module _ {K V : Type 0} ⦃h : Hashable K⦄ where
  pub record KeyIsValid (s : Shard K V) (k : K) : Type 0 where
    -- the policy tracks the keys of the backend
    pub tracked : Policy.tracks k s.policy ≡ contains k s.backend
    pub marks : Marks k (get k s.backend) (get k s.version_marks) (get k s.tombstones)
    -- marks are kept only for live keys and for keys with flushes under way
    pub pruned :
        (contains k s.backend ≡ true)
        ⊎ (get k s.version_marks ≡ none)
        ⊎ (0 < or_zero (get k s.pending_flushes))

  pub record IsValid (s : Shard K V) : Type 0 where
    pub backend : IsDict s.backend
    pub policy : Contract.IsValid s.policy
    pub key : (k : K) → KeyIsValid s k

  module _ (s : Shard K V) (k : K) (r : Reason) where
    pub backend-remove_entry : (remove_entry k r s).1.backend ≡ pop k s.backend
    unfolding remove_entry prune_marks
    backend-remove_entry = ground arith

    pub policy-remove_entry : (remove_entry k r s).1.policy ≡ Policy.on_delete k s.policy
    unfolding remove_entry prune_marks
    policy-remove_entry = ground arith

    pub capacity-remove_entry : (remove_entry k r s).1.capacity ≡ s.capacity
    unfolding remove_entry prune_marks
    capacity-remove_entry = ground arith

    remove_entry-KeyIsValid : (j : K) → KeyIsValid s j → KeyIsValid (remove_entry k r s).1 j
    unfolding remove_entry prune_marks
    remove_entry-KeyIsValid j v = ground (
      arith,
      get-pop k j s.backend,
      get-pop k k s.backend,
      get-pop k j s.version_marks,
      get-pop k j s.tombstones,
      tracks-on_delete k j s.policy,
    )

    -- Removing an entry, for whatever reason, keeps the invariant.
    pub remove_entry-IsValid : IsValid s → IsValid (remove_entry k r s).1
    remove_entry-IsValid v = record {
      backend = rw backend-remove_entry (pop-IsDict k s.backend v.backend);
      policy = rw policy-remove_entry (on_delete-IsValid k s.policy v.policy);
      key = λ j. remove_entry-KeyIsValid j (v.key j);
    }

    pub size-remove_entry :
        IsValid s
        → size s.backend ≡ (
            if contains k s.backend
            then size (remove_entry k r s).1.backend + 1
            else size (remove_entry k r s).1.backend)
    size-remove_entry v = rw backend-remove_entry (size-pop k s.backend v.backend)
