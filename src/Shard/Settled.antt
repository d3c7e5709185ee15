-- ===== src/Shard/Settled.antt =====
-- A shard whose lock is free is valid and within its capacity, after every operation.
use cache_system.Prelude.{
  ℕ, ◌≤◌, ◌≡◌, inl, inr, refl, Bool, true, false, Option, List, [], ◌∷◌, arith, Option-cases,
  Bool-cases, ◌∙◌, if◌then◌else◌,
}
use cache_system.Prelude.Int.{ℤ}
use cache_system.Dict.{Hashable, get, pop, size, values}
use cache_system.Dict.Laws.{size-put, size-pop-le}
use cache_system.Entry.{Entry, is_expired, touch}
use cache_system.Jobs.{Ttl}
use cache_system.Shard.{
  Shard, Reason, expire, delete, prune_marks, register_pending, resolve_pending, next_version,
  clear_pending_flushes, remove_entry, read_value, enforce_capacity,
}
use cache_system.Shard.Writes.{
  existing_entry, store_entry, put_entry, bury, count_delete, delete_entry, delete_marked,
  remove_expired, expire_shard, expired_keys,
}
use cache_system.Shard.Invariant.{
  IsValid, remove_entry-IsValid, backend-remove_entry, size-remove_entry, capacity-remove_entry,
}
use cache_system.Shard.Eviction.{
  enforce_capacity-IsValid, enforce_capacity-bounded, capacity-enforce_capacity,
}
use cache_system.Shard.Preserves.{
  register_pending-IsValid, resolve_pending-IsValid, clear_pending_flushes-IsValid,
  delete_entry-IsValid, bury-IsValid, read_value-IsValid, store_entry-IsValid,
}

module _ {K V : Type 0} ⦃h : Hashable K⦄ where
  pub record IsSettled (s : Shard K V) : Type 0 where
    pub valid : IsValid s
    pub bounded : size s.backend ≤ s.capacity

  pub remove_entry-IsSettled :
      (s : Shard K V) (k : K) (r : Reason) → IsSettled s → IsSettled (remove_entry k r s).1
  remove_entry-IsSettled s k r v = record {
    valid = remove_entry-IsValid s k r v.valid;
    bounded = ground (arith, size-remove_entry s k r v.valid, capacity-remove_entry s k r);
  }

  pub register_pending-IsSettled :
      (s : Shard K V) (k : K) → IsSettled s → IsSettled (register_pending k s)
  register_pending-IsSettled s k v = record {
    valid = register_pending-IsValid s k v.valid;
    bounded = unfold register_pending in v.bounded;
  }

  pub resolve_pending-IsSettled :
      (s : Shard K V) (k : K) → IsSettled s → IsSettled (resolve_pending k s)
  resolve_pending-IsSettled s k v = record {
    valid = resolve_pending-IsValid s k v.valid;
    bounded = unfold resolve_pending prune_marks in ground arith;
  }

  pub clear_pending_flushes-IsSettled :
      (s : Shard K V) (k : K) → IsSettled s → IsSettled (clear_pending_flushes k s)
  clear_pending_flushes-IsSettled s k v = record {
    valid = clear_pending_flushes-IsValid s k v.valid;
    bounded = unfold clear_pending_flushes prune_marks in ground arith;
  }

  pub existing_entry-IsSettled :
      (s : Shard K V) (k : K) (now : ℕ) → IsSettled s → IsSettled (existing_entry k now s).1
  existing_entry-IsSettled s k now v = elim (Option-cases (get k s.backend)) [
    | inl n ↦ unfold existing_entry in rw (n, existing_entry) v
    | inr (e, n) ↦ elim (Bool-cases (is_expired e now)) [
      | inl gone ↦
          unfold existing_entry in
          rw (n, existing_entry, gone) (remove_entry-IsSettled s k expire v)
      | inr live ↦ unfold existing_entry in rw (n, existing_entry, live) v
    ]
  ]

  pub read_value-IsSettled :
      (s : Shard K V) (k : K) (touched counted : Bool) (now : ℕ)
      → IsSettled s
      → IsSettled (read_value k touched counted now s).1
  read_value-IsSettled s k touched counted now v = record {
    valid = read_value-IsValid s k touched counted now v.valid;
    bounded = elim (Option-cases (get k s.backend)) [
      | inl n ↦ unfold read_value in rw (n, read_value) v.bounded
      | inr (e, n) ↦
          unfold read_value in
          ground (
            arith,
            n,
            size-put k (touch e now) s.backend,
            (remove_entry-IsSettled s k expire v).bounded,
          )
    ];
  }

  -- A `put` into a valid shard leaves it valid and within its capacity, also if the shard was over
  -- its capacity before.
  pub put_entry-IsSettled :
      (s : Shard K V) (k : K) (x : V) (ttl : Ttl) (write_back : Bool) (now : ℕ)
      (default_ttl : Option ℤ) (old : Option (Entry K V))
      → IsValid s
      → IsSettled (put_entry k x ttl write_back now default_ttl old s).1
  unfolding put_entry
  put_entry-IsSettled s k x ttl write_back now default_ttl old v = announced write_back
    where
      stored : Shard K V
      stored = (store_entry k x ttl write_back now default_ttl old s).1

      valid : IsValid stored
      valid = store_entry-IsValid s k x ttl write_back now default_ttl old v

      kept : Shard K V
      kept = enforce_capacity (size stored.backend) stored

      settled : IsSettled kept
      settled = record {
        valid = enforce_capacity-IsValid (size stored.backend) stored valid;
        bounded =
            rw (capacity-enforce_capacity (size stored.backend) stored)
              (enforce_capacity-bounded (size stored.backend) stored valid (omega arith));
      }

      announced : (b : Bool) → IsSettled (if b then register_pending k kept else kept)
      announced true = register_pending-IsSettled kept k settled
      announced false = settled

  count_delete-backend : (b : Bool) (t : Shard K V) → (count_delete b t).backend ≡ t.backend
  count_delete-backend true t = refl
  count_delete-backend false t = refl

  count_delete-capacity : (b : Bool) (t : Shard K V) → (count_delete b t).capacity ≡ t.capacity
  count_delete-capacity true t = refl
  count_delete-capacity false t = refl

  pub backend-delete_entry :
      (s : Shard K V) (k : K) → (delete_entry k s).1.backend ≡ pop k s.backend
  unfolding delete_entry
  backend-delete_entry s k = count_delete-backend _ _ ∙ backend-remove_entry s k delete

  capacity-delete_entry : (s : Shard K V) (k : K) → (delete_entry k s).1.capacity ≡ s.capacity
  unfolding delete_entry
  capacity-delete_entry s k = count_delete-capacity _ _ ∙ capacity-remove_entry s k delete

  -- What a deletion leaves in the backend, marked or not.
  pub backend-delete_marked :
      (s : Shard K V) (write_back : Bool) (k : K)
      → (delete_marked write_back k s).1.backend ≡ pop k s.backend
  unfolding delete_marked bury next_version register_pending
  backend-delete_marked s false k = backend-delete_entry s k
  backend-delete_marked s true k = backend-delete_entry (bury k s).1 k

  capacity-delete_marked :
      (s : Shard K V) (write_back : Bool) (k : K)
      → (delete_marked write_back k s).1.capacity ≡ s.capacity
  unfolding delete_marked bury next_version register_pending
  capacity-delete_marked s false k = capacity-delete_entry s k
  capacity-delete_marked s true k = capacity-delete_entry (bury k s).1 k

  delete_marked-IsValid :
      (s : Shard K V) (write_back : Bool) (k : K)
      → IsValid s
      → IsValid (delete_marked write_back k s).1
  unfolding delete_marked
  delete_marked-IsValid s false k v = delete_entry-IsValid s k v
  delete_marked-IsValid s true k v = bury-IsValid s k v

  pub delete_marked-IsSettled :
      (s : Shard K V) (write_back : Bool) (k : K)
      → IsSettled s
      → IsSettled (delete_marked write_back k s).1
  delete_marked-IsSettled s write_back k v = record {
    valid = delete_marked-IsValid s write_back k v.valid;
    bounded =
        rw (backend-delete_marked s write_back k, capacity-delete_marked s write_back k)
          (omega (arith, size-pop-le k s.backend, v.bounded));
  }

  remove_expired-IsSettled :
      (s : Shard K V) (ks : List K) → IsSettled s → IsSettled (remove_expired ks s).1
  unfolding remove_expired
  remove_expired-IsSettled s [] v = v
  remove_expired-IsSettled s (k ∷ ks) v =
      remove_expired-IsSettled (remove_entry k expire s).1 ks (remove_entry-IsSettled s k expire v)

  pub expire_shard-IsSettled :
      (s : Shard K V) (now : ℕ) → IsSettled s → IsSettled (expire_shard now s).1
  unfolding expire_shard
  expire_shard-IsSettled s now v =
      remove_expired-IsSettled s (expired_keys (values s.backend) now) v
