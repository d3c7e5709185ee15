-- ===== src/Cache/Values/Writes.antt =====
-- What `put`, `delete` and `get_or_compute` do to the values that a key may have.
use cache_system.Prelude.{
  ℕ, ◌%◌, ◌≡◌, ◌≢◌, inl, inr, Option, none, some, List, [], ◌∷◌, arith, ◌∙◌, sym, subst, ap,
}
use cache_system.Exec.{with_state}
use cache_system.Exec.Keeps.{Keeps, Keeps-pure, Keeps-lift}
use cache_system.Exec.Triple.{
  Triple, Triple-Keeps, Triple-bind, Triple-then, Triple-with_state, Triple-after, Triple-weaken,
  Triple-gets,
}
use cache_system.Dict.{Hashable, ◌≟◌, get}
use cache_system.Entry.{Entry}
use cache_system.Jobs.{Ttl}
use cache_system.Shard.{Shard}
use cache_system.Shard.Writes.{existing_entry, delete_marked}
use cache_system.Shard.Settled.{
  IsSettled, existing_entry-IsSettled, put_entry-IsSettled, delete_marked-IsSettled,
}
use cache_system.Shard.Reads.{singleflight-IsSettled}
use cache_system.Cache.{Cache, StableHash, now, shard_for, validate_ttl, with_shard, is_write_back}
use cache_system.Cache.Access.{drop_flight, put_locked, delete_locked, put_value, delete_value}
use cache_system.Cache.Values.{
  IsOneOf, Shows, Kept, Shows-Kept, Agrees, with_shard-Agrees, with_shard-Keeps,
}
use cache_system.Cache.Values.Sections.{
  Kept-refl, existing_entry-Kept, put_entry-others, put_entry-own, delete_marked-others,
  delete_marked-own,
}
use cache_system.Cache.Values.Calls.{
  update, change_shard-Keeps, require_not_closed-Keeps, warn_not_started-Keeps, write_source-Keeps,
  delete_source-Keeps, enqueue_flush_jobs-Keeps,
}

module _ {K V : Type 0} ⦃h : Hashable K⦄ where
  pub update_self : (k : K) (vs : List V) (m : K → List V) → update k vs m k ≡ vs
  unfolding update
  update_self k vs m = ground arith

  update_other : (k j : K) (vs : List V) (m : K → List V) → k ≢ j → update k vs m j ≡ m j
  unfolding update
  update_other k j vs m n = ground arith

  -- A key may have more values.
  Shows-mono :
      (o : Option (Entry K V)) (vs ws : List V)
      → ((v : V) → IsOneOf v vs → IsOneOf v ws)
      → Shows o vs
      → Shows o ws
  Shows-mono none vs ws f s = tt
  Shows-mono (some e) vs ws f s = f e.value s

  pub Includes : (K → List V) → (K → List V) → Type 0
  Includes m m' = (k : K) (v : V) → IsOneOf v (m k) → IsOneOf v (m' k)

  module _ (k : K) (m : K → List V) (vs ws : List V) where
    update_mono : ((v : V) → IsOneOf v vs → IsOneOf v ws) → Includes (update k vs m) (update k ws m)
    unfolding Includes
    update_mono f j v = elim (◌≟◌ k j) [
      | yes same ↦
          subst (λ i. IsOneOf v (update k vs m i) → IsOneOf v (update k ws m i)) same
            (rw (update_self k vs m, update_self k ws m) (f v))
      | no other ↦ rw (update_other k j vs m other, update_other k j ws m other) (λ p. p)
    ]

    pub update-Includes : ((v : V) → IsOneOf v (m k) → IsOneOf v ws) → Includes m (update k ws m)
    unfolding Includes
    update-Includes f j v = elim (◌≟◌ k j) [
      | yes same ↦
          subst (λ i. IsOneOf v (m i) → IsOneOf v (update k ws m i)) same
            (rw (update_self k ws m) (f v))
      | no other ↦ rw (update_other k j ws m other) (λ p. p)
    ]

module _ {K V : Type 0} ⦃h : Hashable K⦄ ⦃stable : StableHash K⦄ (n : ℕ) where
  pub Agrees-mono :
      (m m' : K → List V) → Includes m m' → (c : Cache K V) → Agrees n m c → Agrees n m' c
  unfolding Includes
  Agrees-mono m m' f c a = record {
    settled = a.settled;
    size = a.size;
    shows = λ i s k found here.
        Shows-mono (get k s.backend) (m k) (m' k) (f k) (a.shows i s k found here);
  }

  module _ {A : Type 0} (k : K) (i : ℕ) (home : i ≡ stable.stable_hash k % n) (m : K → List V)
      (vs : List V) (f : Shard K V → A × Shard K V)
      (settled : (s : Shard K V) → IsSettled s → IsSettled (f s).1)
      (own : (s : Shard K V) → IsSettled s → Shows (get k (f s).1.backend) vs)
      (others : (s : Shard K V) (j : K)
        → IsSettled s
        → k ≢ j
        → Kept (get j s.backend) (get j (f s).1.backend)) where
    -- A section that writes one key.
    write_section : Triple (Agrees n m) (with_shard i f) (Agrees n (update k vs m)) (Agrees n m)
    write_section =
        with_shard-Agrees n i f m (update k vs m) settled
          (λ s j v here old. elim (◌≟◌ k j) [
            | yes same ↦
                subst (λ u. Shows (get u (f s).1.backend) (update k vs m u)) same
                  (rw (update_self k vs m) (own s v))
            | no other ↦
                rw (update_other k j vs m other)
                  (Shows-Kept (get j s.backend) _ (m j) (others s j v other) old)
          ])
          (λ j e there old.
            rw (update_other k j vs m (λ p. there (home ∙ ap (λ u. stable.stable_hash u % n) p)))
              old)

  -- `put`: if it raises, it may have come before the write or after it.
  module _ (k : K) (v : V) (ttl : Ttl) (m : K → List V) where
    abbrev written : K → List V
    written = update k (v ∷ []) m

    abbrev maybe : K → List V
    maybe = update k (v ∷ m k) m

    before-maybe : (c : Cache K V) → Agrees n m c → Agrees n maybe c
    before-maybe = Agrees-mono m maybe (update-Includes k m [] (v ∷ m k) (λ x p. inr p))

    written-maybe : (c : Cache K V) → Agrees n written c → Agrees n maybe c
    written-maybe =
        Agrees-mono written maybe
          (update_mono k m (v ∷ []) (v ∷ m k) (λ x p. elim p [ inl e ↦ inl e | inr q ↦ absurd q ]))

    put_locked-Triple :
        (i : ℕ)
        → i ≡ stable.stable_hash k % n
        → Triple (Agrees n m) (put_locked i k v ttl) (Agrees n written) (Agrees n maybe)
    unfolding put_locked
    put_locked-Triple i home = Triple-with_state _ (λ c.
        Triple-bind _ _
          (Triple-Keeps _
            (with_shard-Keeps n i (existing_entry k (now c)) m
              (λ s. existing_entry-IsSettled s k (now c)) (existing_entry-Kept k (now c)))
            before-maybe)
          (λ old.
            Triple-then _ _ (Triple-Keeps _ (write_source-Keeps n m c.write_mode k v) before-maybe)
              (Triple-weaken _
                (write_section k i home m (v ∷ []) _
                  (λ s x.
                    put_entry-IsSettled s k v ttl (is_write_back c.write_mode) (now c)
                      c.config.default_ttl old x.valid)
                  (λ s x.
                    put_entry-own k v ttl (is_write_back c.write_mode) (now c) c.config.default_ttl
                      old s x [])
                  (λ s j x.
                    put_entry-others k v ttl (is_write_back c.write_mode) (now c)
                      c.config.default_ttl old s x j))
                before-maybe)))

    pub put_value-Triple :
        Triple (Agrees n m) (put_value k v ttl) (Agrees n written) (Agrees n maybe)
    unfolding put_value with_state shard_for
    put_value-Triple = record {
      at = λ c a.
          (Triple-then _ _ (Triple-Keeps _ (require_not_closed-Keeps n m) before-maybe) (
              Triple-then _ _ (Triple-Keeps _ (warn_not_started-Keeps n m) before-maybe) (
                Triple-then _ _ (Triple-Keeps _ (Keeps-lift (validate_ttl ttl)) before-maybe) (
                  Triple-bind _ _
                    (put_locked-Triple (shard_for k c) (ap (λ l. stable.stable_hash k % l) a.size))
                    (λ version.
                      Triple-Keeps _ (enqueue_flush_jobs-Keeps n written _) written-maybe))))).at
            c a;
    }

    pub put_value-Agrees : (c : Cache K V) → Agrees n m c → Agrees n maybe (put_value k v ttl c).1
    put_value-Agrees c a = Triple-after (put_value k v ttl) put_value-Triple written-maybe c a

  -- `put` of a value that the key may have already.
  pub put_value-Keeps :
      (k : K) (v : V) (ttl : Ttl) (m : K → List V)
      → IsOneOf v (m k)
      → Keeps (Agrees n m) (put_value k v ttl)
  put_value-Keeps k v ttl m p = record {
    at = λ c a.
        Agrees-mono (update k (v ∷ m k) m) m fewer (put_value k v ttl c).1
          (put_value-Agrees k v ttl m c a);
  }
    where
      fewer : Includes (update k (v ∷ m k) m) m
      fewer =
          unfold Includes in
          λ j x. elim (◌≟◌ k j) [
            | yes same ↦
                subst (λ u. IsOneOf x (update k (v ∷ m k) m u) → IsOneOf x (m u)) same
                  (rw (update_self k (v ∷ m k) m)
                    (λ q. elim q [ inl e ↦ subst (λ y. IsOneOf y (m k)) (sym e) p | inr r ↦ r ]))
            | no other ↦ rw (update_other k j (v ∷ m k) m other) (λ q. q)
          ]

  -- `delete`: if it raises, the key may have been deleted or not.
  module _ (k : K) (m : K → List V) where
    abbrev deleted : K → List V
    deleted = update k [] m

    deleted-Agrees : (c : Cache K V) → Agrees n deleted c → Agrees n m c
    deleted-Agrees = Agrees-mono deleted m (
        unfold Includes in
        λ j x. elim (◌≟◌ k j) [
          | yes same ↦
              subst (λ u. IsOneOf x (deleted u) → IsOneOf x (m u)) same
                (rw (update_self k [] m) (λ q. absurd q))
          | no other ↦ rw (update_other k j [] m other) (λ q. q)
        ])

    delete_locked-Triple :
        (i : ℕ)
        → i ≡ stable.stable_hash k % n
        → Triple (Agrees n m) (delete_locked i k) (Agrees n deleted) (Agrees n m)
    unfolding delete_locked
    delete_locked-Triple i home = Triple-with_state _ (λ c.
        Triple-then _ _ (Triple-Keeps _ (delete_source-Keeps n m c.write_mode k) (λ d a. a)) (
          Triple-bind _ _
            (write_section k i home m [] (delete_marked (is_write_back c.write_mode) k)
              (λ s. delete_marked-IsSettled s (is_write_back c.write_mode) k)
              (λ s x. rw (delete_marked-own (is_write_back c.write_mode) k s) tt)
              (λ s j x other. delete_marked-others (is_write_back c.write_mode) k s j))
            (λ r.
              Triple-then _ _
                (Triple-Keeps _
                  (change_shard-Keeps n deleted i (drop_flight k) (λ s. singleflight-IsSettled s _)
                    (λ s j. Kept-refl (get j s.backend)))
                  deleted-Agrees)
                (Triple-Keeps _ (Keeps-pure _) deleted-Agrees))))

    pub delete_value-Triple : Triple (Agrees n m) (delete_value k) (Agrees n deleted) (Agrees n m)
    unfolding delete_value shard_for
    delete_value-Triple =
        Triple-then _ _ (Triple-Keeps _ (require_not_closed-Keeps n m) (λ c a. a)) (
          Triple-gets (shard_for k) _ (λ c a.
            Triple-bind _ _
              (delete_locked-Triple (shard_for k c) (ap (λ l. stable.stable_hash k % l) a.size))
              (λ r.
                Triple-then _ _
                  (Triple-Keeps _ (enqueue_flush_jobs-Keeps n deleted r.1) deleted-Agrees)
                  (Triple-Keeps _ (Keeps-pure r.0) deleted-Agrees))))
