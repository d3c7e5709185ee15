-- ===== src/WriteBack/Kind.antt =====
-- What no operation of a shard changes: the kind of its policy, and its capacity.
use cache_system.Prelude.{
  ℕ, ◌≡◌, refl, Bool, true, false, Option, List, [], ◌∷◌, arith, Option-cases, Bool-cases, inl, inr,
  ◌∙◌, if◌then◌else◌, ap,
}
use cache_system.Prelude.Int.{ℤ}
use cache_system.Dict.{Hashable, get, size}
use cache_system.Entry.{Entry, is_expired}
use cache_system.Jobs.{Ttl}
use cache_system.Stats.{MutableStats}
use cache_system.Policy
use cache_system.Policy.{Policy, lru, fifo, lfu}
use cache_system.Shard.{
  Shard, Reason, expire, evict, delete, remove_entry, prune_marks, read_value, enforce_capacity,
  register_pending, resolve_pending, next_version,
}
use cache_system.Shard.Writes.{
  existing_entry, store_entry, put_entry, remove_expired, delete_marked, delete_entry, bury,
  count_delete,
}
use cache_system.Shard.Invariant.{policy-remove_entry, capacity-remove_entry}
use cache_system.Shard.Eviction.{enforce_capacity_induction}
use cache_system.Shard.Placement.{is_ordered}

module _ {K : Type 0} ⦃h : Hashable K⦄ (k : K) where
  is_ordered-on_get : (p : Policy K) → is_ordered (Policy.on_get k p) ≡ is_ordered p
  unfolding Policy.on_get
  is_ordered-on_get (lru o) = refl
  is_ordered-on_get (fifo o) = refl
  is_ordered-on_get (lfu l) = refl

  is_ordered-on_put : (p : Policy K) → is_ordered (Policy.on_put k p) ≡ is_ordered p
  unfolding Policy.on_put
  is_ordered-on_put (lru o) = refl
  is_ordered-on_put (fifo o) = refl
  is_ordered-on_put (lfu l) = refl

  is_ordered-on_delete : (p : Policy K) → is_ordered (Policy.on_delete k p) ≡ is_ordered p
  unfolding Policy.on_delete
  is_ordered-on_delete (lru o) = refl
  is_ordered-on_delete (fifo o) = refl
  is_ordered-on_delete (lfu l) = refl

module _ {K V : Type 0} ⦃h : Hashable K⦄ where
  pub record SameKind (s t : Shard K V) : Type 0 where
    pub ordered : is_ordered t.policy ≡ is_ordered s.policy
    pub room : t.capacity ≡ s.capacity

  pub SameKind-refl : (s : Shard K V) → SameKind s s
  SameKind-refl s = record { ordered = refl; room = refl }

  pub SameKind-trans : (s t u : Shard K V) → SameKind s t → SameKind t u → SameKind s u
  SameKind-trans s t u a b = record { ordered = b.ordered ∙ a.ordered; room = b.room ∙ a.room }

  recounted :
      (s t : Shard K V) (m : MutableStats) → SameKind s t → SameKind s (record t { stats = m })
  recounted s t m a = record { ordered = a.ordered; room = a.room }

  pub remove_entry-SameKind :
      (s : Shard K V) (k : K) (r : Reason) → SameKind s (remove_entry k r s).1
  remove_entry-SameKind s k r = record {
    ordered = ap is_ordered (policy-remove_entry s k r) ∙ is_ordered-on_delete k s.policy;
    room = capacity-remove_entry s k r;
  }

  pub existing_entry-SameKind :
      (s : Shard K V) (k : K) (now : ℕ) → SameKind s (existing_entry k now s).1
  unfolding existing_entry
  existing_entry-SameKind s k now = elim (Option-cases (get k s.backend)) [
    | inl n ↦ rw (n, existing_entry) (SameKind-refl s)
    | inr (e, n) ↦ elim (Bool-cases (is_expired e now)) [
      | inl gone ↦ rw (n, existing_entry, gone) (remove_entry-SameKind s k expire)
      | inr live ↦ rw (n, existing_entry, live) (SameKind-refl s)
    ]
  ]

  pub read_value-SameKind :
      (s : Shard K V) (k : K) (touched counted : Bool) (now : ℕ)
      → SameKind s (read_value k touched counted now s).1
  unfolding read_value
  read_value-SameKind s k touched counted now = elim (Option-cases (get k s.backend)) [
    | inl n ↦ rw (n, read_value) (recounted s s _ (SameKind-refl s))
    | inr (e, n) ↦ elim (Bool-cases (is_expired e now)) [
      | inl gone ↦ rw (n, read_value, gone) (recounted s _ _ (remove_entry-SameKind s k expire))
      | inr live ↦ rw (n, read_value, live) (record { ordered = used touched; room = refl })
    ]
  ]
    where
      used :
          (b : Bool)
          → is_ordered (if b then Policy.on_get k s.policy else s.policy) ≡ is_ordered s.policy
      used true = is_ordered-on_get k s.policy
      used false = refl

  pub remove_expired-SameKind : (ks : List K) (s : Shard K V) → SameKind s (remove_expired ks s).1
  unfolding remove_expired
  remove_expired-SameKind [] s = SameKind-refl s
  remove_expired-SameKind (k ∷ ks) s =
      SameKind-trans s (remove_entry k expire s).1 _ (remove_entry-SameKind s k expire)
        (remove_expired-SameKind ks (remove_entry k expire s).1)

  enforce_capacity-SameKind : (fuel : ℕ) (s : Shard K V) → SameKind s (enforce_capacity fuel s)
  enforce_capacity-SameKind fuel s =
      enforce_capacity_induction (λ t. SameKind s t)
        (λ t k o n f.
          SameKind-trans s t (remove_entry k evict t).1 f (remove_entry-SameKind t k evict))
        fuel s (SameKind-refl s)

  pub resolve_pending-SameKind : (s : Shard K V) (k : K) → SameKind s (resolve_pending k s)
  unfolding resolve_pending prune_marks
  resolve_pending-SameKind s k = record { ordered = ground arith; room = ground arith }

  pub put_entry-SameKind :
      (s : Shard K V) (k : K) (x : V) (ttl : Ttl) (now : ℕ) (default_ttl : Option ℤ)
      (old : Option (Entry K V))
      → SameKind s (put_entry k x ttl true now default_ttl old s).1
  unfolding put_entry
  put_entry-SameKind s k x ttl now default_ttl old = record {
    ordered = unfold register_pending in kept.ordered ∙ before.ordered;
    room = unfold register_pending in kept.room ∙ before.room;
  }
    where
      t : Shard K V
      t = (store_entry k x ttl true now default_ttl old s).1

      kept : SameKind t (enforce_capacity (size t.backend) t)
      kept = enforce_capacity-SameKind (size t.backend) t

      before : SameKind s t
      before = record {
        ordered = unfold store_entry next_version in is_ordered-on_put k s.policy;
        room = unfold store_entry next_version in refl;
      }

  pub delete_marked-SameKind : (s : Shard K V) (k : K) → SameKind s (delete_marked true k s).1
  unfolding delete_marked delete_entry bury next_version register_pending
  delete_marked-SameKind s k = deleted (remove_entry k delete (bury k s).1).0 _ (
      SameKind-trans s (bury k s).1 _ (record { ordered = refl; room = refl })
        (remove_entry-SameKind (bury k s).1 k delete))
    where
      deleted : (b : Bool) (t : Shard K V) → SameKind s t → SameKind s (count_delete b t)
      deleted true t a = recounted s t _ a
      deleted false t a = a
