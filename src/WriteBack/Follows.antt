-- ===== src/WriteBack/Follows.antt =====
-- What an operation of a shard may do to a key that it does not write: keep the entry, but for its
-- access data, or take it away, and never change its marks while flushes of it are under way.
use cache_system.Prelude.{
  ℕ, ◌+◌, ◌<◌, ◌≡◌, ◌≢◌, inl, inr, refl, Bool, true, false, Option, none, some, List, [], ◌∷◌,
  arith, Option-cases, Bool-cases, ◌∙◌, ap, if◌then◌else◌,
}
use cache_system.Prelude.Int.{ℤ}
use cache_system.Dict.{Hashable, get, put, size}
use cache_system.Dict.Laws.{get-put, get-put_self, get-pop}
use cache_system.Entry.{Entry, is_expired, touch}
use cache_system.Stats.{MutableStats}
use cache_system.Jobs.{Ttl}
use cache_system.WriteBack.{or_zero}
use cache_system.Shard.{
  Shard, Reason, expire, evict, delete, remove_entry, prune_marks, read_value, enforce_capacity,
  register_pending, next_version,
}
use cache_system.Shard.Writes.{
  existing_entry, store_entry, put_entry, new_entry, remove_expired, delete_marked, delete_entry,
  bury, count_delete,
}
use cache_system.Shard.Eviction.{enforce_capacity_induction}

module _ {K V : Type 0} where
  -- What a flush relies on in an entry.
  abbrev pub SameWrite : Option (Entry K V) → Option (Entry K V) → Type 0
  SameWrite old none = Unit
  SameWrite none (some e) = ⊥
  SameWrite (some e) (some f) = (f.value ≡ e.value) × (f.version ≡ e.version) × (f.dirty ≡ e.dirty)

module _ {K V : Type 0} ⦃h : Hashable K⦄ where
  pub record Follows (s t : Shard K V) (k : K) : Type 0 where
    pub entry : SameWrite (get k s.backend) (get k t.backend)
    pub mark : 0 < or_zero (get k s.pending_flushes) → get k t.version_marks ≡ get k s.version_marks
    pub pending : get k t.pending_flushes ≡ get k s.pending_flushes

  SameWrite-refl : (o : Option (Entry K V)) → SameWrite o o
  SameWrite-refl none = tt
  SameWrite-refl (some e) = (refl, refl, refl)

  SameWrite-trans : (a b c : Option (Entry K V)) → SameWrite a b → SameWrite b c → SameWrite a c
  SameWrite-trans a b none p q = tt
  SameWrite-trans none none (some z) p q = q
  SameWrite-trans none (some y) (some z) p q = p
  SameWrite-trans (some x) none (some z) p q = absurd q
  SameWrite-trans (some x) (some y) (some z) p q = (q.0 ∙ p.0, q.1 ∙ p.1, q.2 ∙ p.2)

  pub Follows-refl : (s : Shard K V) (k : K) → Follows s s k
  Follows-refl s k = record {
    entry = SameWrite-refl (get k s.backend);
    mark = λ p. refl;
    pending = refl;
  }

  pub Follows-trans : (s t u : Shard K V) (k : K) → Follows s t k → Follows t u k → Follows s u k
  Follows-trans s t u k f g = record {
    entry = SameWrite-trans (get k s.backend) (get k t.backend) (get k u.backend) f.entry g.entry;
    mark = λ p. g.mark (rw f.pending p) ∙ f.mark p;
    pending = g.pending ∙ f.pending;
  }

  pub remove_entry-Follows :
      (s : Shard K V) (k j : K) (r : Reason) → Follows s (remove_entry k r s).1 j
  unfolding remove_entry prune_marks
  remove_entry-Follows s k j r = record {
    entry = ground (arith, get-pop k j s.backend, SameWrite-refl (get j s.backend));
    mark = λ p. ground (arith, get-pop k j s.version_marks);
    pending = ground arith;
  }

  pub existing_entry-Follows :
      (s : Shard K V) (k j : K) (now : ℕ) → Follows s (existing_entry k now s).1 j
  existing_entry-Follows s k j now = elim (Option-cases (get k s.backend)) [
    | inl n ↦ unfold existing_entry in rw (n, existing_entry) (Follows-refl s j)
    | inr (e, n) ↦ elim (Bool-cases (is_expired e now)) [
      | inl gone ↦
          unfold existing_entry in rw (n, existing_entry, gone) (remove_entry-Follows s k j expire)
      | inr live ↦ unfold existing_entry in rw (n, existing_entry, live) (Follows-refl s j)
    ]
  ]

  touch-SameWrite :
      (s : Shard K V) (k j : K) (now : ℕ) (b : Bool) (e : Entry K V)
      → get k s.backend ≡ some e
      → SameWrite (get j s.backend) (get j (if b then put k (touch e now) s.backend else s.backend))
  unfolding touch
  touch-SameWrite s k j now false e n = SameWrite-refl (get j s.backend)
  touch-SameWrite s k j now true e n =
      ground (arith, n, get-put k j (touch e now) s.backend, SameWrite-refl (get j s.backend))

  -- A change of the counters.
  recount :
      (s t : Shard K V) (m : MutableStats) (j : K)
      → Follows s t j
      → Follows s (record t { stats = m }) j
  recount s t m j f = record { entry = f.entry; mark = f.mark; pending = f.pending }

  pub read_value-Follows :
      (s : Shard K V) (k j : K) (touched counted : Bool) (now : ℕ)
      → Follows s (read_value k touched counted now s).1 j
  unfolding read_value
  read_value-Follows s k j touched counted now = elim (Option-cases (get k s.backend)) [
    | inl n ↦ rw (n, read_value) (recount s s _ j (Follows-refl s j))
    | inr (e, n) ↦ elim (Bool-cases (is_expired e now)) [
      | inl gone ↦ rw (n, read_value, gone) (recount s _ _ j (remove_entry-Follows s k j expire))
      | inr live ↦
          rw (n, read_value, live)
            (record {
              entry = touch-SameWrite s k j now touched e n;
              mark = λ p. refl;
              pending = refl;
            })
    ]
  ]

  pub remove_expired-Follows :
      (ks : List K) (s : Shard K V) (j : K) → Follows s (remove_expired ks s).1 j
  unfolding remove_expired
  remove_expired-Follows [] s j = Follows-refl s j
  remove_expired-Follows (k ∷ ks) s j =
      Follows-trans s (remove_entry k expire s).1 _ j (remove_entry-Follows s k j expire)
        (remove_expired-Follows ks (remove_entry k expire s).1 j)

  pub enforce_capacity-Follows :
      (fuel : ℕ) (s : Shard K V) (j : K) → Follows s (enforce_capacity fuel s) j
  enforce_capacity-Follows fuel s j =
      enforce_capacity_induction (λ t. Follows s t j)
        (λ t k o n f.
          Follows-trans s t (remove_entry k evict t).1 j f (remove_entry-Follows t k j evict))
        fuel s (Follows-refl s j)

  module _ (s : Shard K V) (k : K) (x : V) (ttl : Ttl) (now : ℕ) (default_ttl : Option ℤ)
      (old : Option (Entry K V)) where
    abbrev stored : Shard K V
    stored = (store_entry k x ttl true now default_ttl old s).1

    abbrev kept : Shard K V
    kept = enforce_capacity (size stored.backend) stored

    kept-Follows : (j : K) → Follows stored kept j
    kept-Follows j = enforce_capacity-Follows (size stored.backend) stored j

    -- The keys that a `put` does not write.
    pub put_entry-Follows :
        (j : K) → k ≢ j → Follows s (put_entry k x ttl true now default_ttl old s).1 j
    unfolding put_entry
    put_entry-Follows j other =
        Follows-trans s stored _ j before (Follows-trans stored kept _ j (kept-Follows j) after)
      where
        e : Entry K V
        e = new_entry k x ttl true now default_ttl old (next_version k s).0

        before : Follows s stored j
        before = record {
          entry =
              unfold store_entry next_version in
              ground (arith, get-put k j e s.backend, SameWrite-refl (get j s.backend));
          mark = λ p.
              unfold store_entry next_version in
              ground (arith, get-put k j (or_zero (get k s.version_marks) + 1) s.version_marks);
          pending = unfold store_entry next_version in refl;
        }

        after : Follows kept (register_pending k kept) j
        after = record {
          entry = unfold register_pending in SameWrite-refl (get j kept.backend);
          mark = λ p. unfold register_pending in refl;
          pending =
              unfold register_pending in
              ground (
                arith,
                get-put k j (or_zero (get k kept.pending_flushes) + 1) kept.pending_flushes,
              );
        }

    -- The count of flushes of the key that it writes.
    pub pending-put_entry :
        get k (put_entry k x ttl true now default_ttl old s).1.pending_flushes
        ≡ some (or_zero (get k s.pending_flushes) + 1)
    unfolding put_entry
    pending-put_entry =
        unfold register_pending store_entry next_version in
        get-put_self k (or_zero (get k kept.pending_flushes) + 1) kept.pending_flushes
        ∙ ap (λ (o : Option ℕ). some (or_zero o + 1)) (kept-Follows k).pending

  module _ (s : Shard K V) (k : K) where
    abbrev buried : Shard K V
    buried = (bury k s).1

    count_delete-Follows :
        (b : Bool) (t : Shard K V) (j : K) → Follows s t j → Follows s (count_delete b t) j
    count_delete-Follows true t j f = recount s t _ j f
    count_delete-Follows false t j f = f

    bury-Follows : (j : K) → k ≢ j → Follows s buried j
    unfolding bury next_version register_pending
    bury-Follows j other = record {
      entry = SameWrite-refl (get j s.backend);
      mark = λ p. ground (arith, get-put k j (or_zero (get k s.version_marks) + 1) s.version_marks);
      pending =
          ground (arith, get-put k j (or_zero (get k s.pending_flushes) + 1) s.pending_flushes);
    }

    -- The keys that a deletion does not write, and the count of the one that it does.
    pub delete_marked-Follows : (j : K) → k ≢ j → Follows s (delete_marked true k s).1 j
    unfolding delete_marked delete_entry
    delete_marked-Follows j other =
        count_delete-Follows (remove_entry k delete buried).0 _ j (
          Follows-trans s buried _ j (bury-Follows j other)
            (remove_entry-Follows buried k j delete))

    removed-pending :
        (b : Bool) (t : Shard K V) → (count_delete b t).pending_flushes ≡ t.pending_flushes
    removed-pending true t = refl
    removed-pending false t = refl

    pub pending-delete_marked :
        get k (delete_marked true k s).1.pending_flushes
        ≡ some (or_zero (get k s.pending_flushes) + 1)
    unfolding delete_marked delete_entry
    pending-delete_marked =
        ap (get k) (removed-pending (remove_entry k delete buried).0 _)
        ∙ (remove_entry-Follows buried k k delete).pending
        ∙ (unfold bury next_version register_pending in
            get-put_self k (or_zero (get k s.pending_flushes) + 1) s.pending_flushes)
