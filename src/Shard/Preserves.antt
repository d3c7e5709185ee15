-- ===== src/Shard/Preserves.antt =====
-- Every operation on a shard keeps its invariant.
use cache_system.Prelude.{
  ℕ, ◌+◌, ◌-◌, ◌≡◌, inl, inr, refl, Bool, true, false, Option, some, arith, Option-cases,
  Bool-cases, if◌then◌else◌,
}
use cache_system.Prelude.Int.{ℤ}
use cache_system.Dict.{Hashable, get, put, pop}
use cache_system.Dict.Laws.{get-put, get-pop, pop-IsDict, put-IsDict}
use cache_system.Entry.{Entry, is_expired, touch}
use cache_system.Stats.{MutableStats}
use cache_system.Jobs.{Ttl}
use cache_system.Policy
use cache_system.Policy.Contract.{
  tracks-on_get, tracks-on_put, tracks-on_delete, on_get-IsValid, on_put-IsValid, on_delete-IsValid,
}
use cache_system.WriteBack.{or_zero}
use cache_system.Shard.{
  Shard, expire, delete, next_version, prune_marks, register_pending, resolve_pending, count_hit,
  clear_pending_flushes, remove_entry, read_value,
}
use cache_system.Shard.Writes.{
  existing_entry, new_entry, store_entry, bury, count_delete, delete_entry,
}
use cache_system.Shard.Invariant.{
  IsValid, KeyIsValid, remove_entry-IsValid, backend-remove_entry, policy-remove_entry,
}

module _ {K V : Type 0} ⦃h : Hashable K⦄ where
  -- An operation that leaves the backend and the policy alone.
  IsValid-of_same :
      (s t : Shard K V)
      → t.backend ≡ s.backend
      → t.policy ≡ s.policy
      → ((j : K) → KeyIsValid s j → KeyIsValid t j)
      → IsValid s
      → IsValid t
  IsValid-of_same s t b p keys v = record {
    backend = rw b v.backend;
    policy = rw p v.policy;
    key = λ j. keys j (v.key j);
  }

  pub stats-IsValid :
      (s : Shard K V) (m : MutableStats) → IsValid s → IsValid (record s { stats = m })
  stats-IsValid s m =
      IsValid-of_same s (record s { stats = m }) refl refl
        (λ j v. record { tracked = v.tracked; marks = v.marks; pruned = v.pruned })

module _ {K V : Type 0} ⦃h : Hashable K⦄ (s : Shard K V) (k : K) where
  register_pending-KeyIsValid : (j : K) → KeyIsValid s j → KeyIsValid (register_pending k s) j
  unfolding register_pending
  register_pending-KeyIsValid j v =
      ground (arith, get-put k j (or_zero (get k s.pending_flushes) + 1) s.pending_flushes)

  -- A flush that is announced.
  pub register_pending-IsValid : IsValid s → IsValid (register_pending k s)
  unfolding register_pending
  register_pending-IsValid v = record {
    backend = v.backend;
    policy = v.policy;
    key = λ j. unfold register_pending in register_pending-KeyIsValid j (v.key j);
  }

  resolve_pending-KeyIsValid : (j : K) → KeyIsValid s j → KeyIsValid (resolve_pending k s) j
  unfolding resolve_pending prune_marks
  resolve_pending-KeyIsValid j v = ground (
    arith,
    get-put k j (or_zero (get k s.pending_flushes) - 1) s.pending_flushes,
    get-pop k j s.pending_flushes,
    get-pop k j s.version_marks,
    get-pop k j s.tombstones,
  )

  -- A flush that has ended.
  pub resolve_pending-IsValid : IsValid s → IsValid (resolve_pending k s)
  resolve_pending-IsValid =
      IsValid-of_same s (resolve_pending k s) (unfold resolve_pending prune_marks in ground arith)
        (unfold resolve_pending prune_marks in ground arith) resolve_pending-KeyIsValid

  clear_pending_flushes-KeyIsValid :
      (j : K) → KeyIsValid s j → KeyIsValid (clear_pending_flushes k s) j
  unfolding clear_pending_flushes prune_marks
  clear_pending_flushes-KeyIsValid j v =
      ground (
        arith,
        get-pop k j s.pending_flushes,
        get-pop k j s.version_marks,
        get-pop k j s.tombstones,
      )

  -- All flushes of a key that have ended, at shutdown.
  pub clear_pending_flushes-IsValid : IsValid s → IsValid (clear_pending_flushes k s)
  clear_pending_flushes-IsValid =
      IsValid-of_same s (clear_pending_flushes k s)
        (unfold clear_pending_flushes prune_marks in ground arith)
        (unfold clear_pending_flushes prune_marks in ground arith) clear_pending_flushes-KeyIsValid

  bury-KeyIsValid : (j : K) → KeyIsValid s j → KeyIsValid (remove_entry k delete (bury k s).1).1 j
  unfolding bury next_version register_pending remove_entry prune_marks
  bury-KeyIsValid j v =
      let version : ℕ = or_zero (get k s.version_marks) + 1 in
      let pending : ℕ = or_zero (get k s.pending_flushes) + 1 in
      ground (
        arith,
        get-put k j version s.version_marks,
        get-put k j version s.tombstones,
        get-put k j pending s.pending_flushes,
        get-put k k pending s.pending_flushes,
        get-pop k j s.backend,
        tracks-on_delete k j s.policy,
      )

  bury_backend : (remove_entry k delete (bury k s).1).1.backend ≡ pop k s.backend
  unfolding bury next_version register_pending
  bury_backend = backend-remove_entry (bury k s).1 k delete

  bury_policy : (remove_entry k delete (bury k s).1).1.policy ≡ Policy.on_delete k s.policy
  unfolding bury next_version register_pending
  bury_policy = policy-remove_entry (bury k s).1 k delete

  count_delete-IsValid : (b : Bool) (t : Shard K V) → IsValid t → IsValid (count_delete b t)
  count_delete-IsValid true t v = stats-IsValid t _ v
  count_delete-IsValid false t v = v

  -- A deletion that leaves no tombstone.
  pub delete_entry-IsValid : IsValid s → IsValid (delete_entry k s).1
  unfolding delete_entry
  delete_entry-IsValid v =
      count_delete-IsValid (remove_entry k delete s).0 (remove_entry k delete s).1
        (remove_entry-IsValid s k delete v)

  -- A deletion in write-back mode.
  pub bury-IsValid : IsValid s → IsValid (delete_entry k (bury k s).1).1
  unfolding delete_entry
  bury-IsValid v =
      let t : Shard K V = (remove_entry k delete (bury k s).1).1 in
      count_delete-IsValid (remove_entry k delete (bury k s).1).0 t (record {
        backend = rw bury_backend (pop-IsDict k s.backend v.backend);
        policy = rw bury_policy (on_delete-IsValid k s.policy v.policy);
        key = λ j. bury-KeyIsValid j (v.key j);
      })

  pub existing_entry-IsValid : (now : ℕ) → IsValid s → IsValid (existing_entry k now s).1
  unfolding existing_entry
  existing_entry-IsValid now v = elim (Option-cases (get k s.backend)) [
    | inl n ↦ rw (n, existing_entry) v
    | inr (e, n) ↦ elim (Bool-cases (is_expired e now)) [
      | inl gone ↦ rw (n, existing_entry, gone) (remove_entry-IsValid s k expire v)
      | inr live ↦ rw (n, existing_entry, live) v
    ]
  ]

  -- A read, with the removal of what has expired.
  pub read_value-IsValid :
      (touched counted : Bool) (now : ℕ)
      → IsValid s
      → IsValid (read_value k touched counted now s).1
  unfolding read_value
  read_value-IsValid touched counted now v = elim (Option-cases (get k s.backend)) [
    | inl n ↦ rw (n, read_value) (stats-IsValid s _ v)
    | inr (e, n) ↦ elim (Bool-cases (is_expired e now)) [
      | inl gone ↦ rw (n, read_value, gone) (stats-IsValid _ _ (remove_entry-IsValid s k expire v))
      | inr live ↦ rw (n, read_value, live) (hit touched e n)
    ]
  ]
    where
      hit :
          (b : Bool) (e : Entry K V)
          → get k s.backend ≡ some e
          → IsValid (record s {
            backend = if b then put k (touch e now) s.backend else s.backend;
            policy = if b then Policy.on_get k s.policy else s.policy;
            stats = count_hit counted s.stats;
          })
      hit false e n = stats-IsValid s _ v
      hit true e n = record {
        backend = put-IsDict k (touch e now) s.backend v.backend;
        policy = on_get-IsValid k s.policy v.policy;
        key = λ j.
            unfold touch in
            ground (
              arith,
              v.key j,
              v.key k,
              get-put k j (touch e now) s.backend,
              tracks-on_get k j s.policy,
            );
      }

  module _ (x : V) (ttl : Ttl) (dirty : Bool) (now : ℕ) (default_ttl : Option ℤ)
      (old : Option (Entry K V)) where
    store_entry-KeyIsValid :
        (j : K) → KeyIsValid s j → KeyIsValid (store_entry k x ttl dirty now default_ttl old s).1 j
    unfolding store_entry next_version
    store_entry-KeyIsValid j v =
        let version : ℕ = or_zero (get k s.version_marks) + 1 in
        let e : Entry K V = new_entry k x ttl dirty now default_ttl old version in
        unfold new_entry in
        ground (
          arith,
          get-put k j version s.version_marks,
          get-put k j e s.backend,
          get-pop k j s.tombstones,
          tracks-on_put k j s.policy,
        )

    pub store_entry-IsValid :
        IsValid s → IsValid (store_entry k x ttl dirty now default_ttl old s).1
    store_entry-IsValid v = record {
      backend = unfold store_entry next_version in put-IsDict k _ s.backend v.backend;
      policy = unfold store_entry next_version in on_put-IsValid k s.policy v.policy;
      key = λ j. store_entry-KeyIsValid j (v.key j);
    }
