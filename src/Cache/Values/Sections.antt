-- ===== src/Cache/Values/Sections.antt =====
-- What the sections under a shard's lock do to the values of its entries.
use cache_system.Prelude.{
  ℕ, ◌≡◌, ◌≢◌, refl, inl, inr, Bool, true, false, Option, none, some, List, [], ◌∷◌, arith, ltb,
  if◌then◌else◌, Option-cases, Bool-cases, ◌∙◌, subst,
}
use cache_system.Prelude.Int.{ℤ}
use cache_system.Dict.{Hashable, Dict, get, put, size, values}
use cache_system.Dict.Laws.{get-put, get-pop}
use cache_system.Entry.{Entry, is_expired}
use cache_system.Jobs.{Ttl}
use cache_system.Policy
use cache_system.Shard.{Shard, expire, remove_entry, read_value, resolve_pending, next_version}
use cache_system.Shard.Writes.{
  existing_entry, put_entry, new_entry, delete_marked, store_entry, expired_keys, expire_shard,
}
use cache_system.Shard.Settled.{IsSettled, backend-delete_marked}
use cache_system.Shard.Placement.{put_entry-backend, without}
use cache_system.WriteBack.Follows.{
  SameWrite, existing_entry-Follows, read_value-Follows, remove_expired-Follows,
  remove_entry-Follows,
}
use cache_system.WriteBack.Sound.{backend-resolve_pending}
use cache_system.Cache.{StableHash}
use cache_system.Cache.Access.{inspect_locked, dump_entries, set_hits}
use cache_system.Cache.Values.{Kept, Shows}

module _ {K V : Type 0} where
  Kept-SameWrite : (a b : Option (Entry K V)) → SameWrite a b → Kept a b
  Kept-SameWrite a none k = tt
  Kept-SameWrite none (some f) k = absurd k
  Kept-SameWrite (some e) (some f) k = k.0

  pub Kept-refl : (a : Option (Entry K V)) → Kept a a
  Kept-refl none = tt
  Kept-refl (some e) = refl

  Kept-trans : (a b c : Option (Entry K V)) → Kept a b → Kept b c → Kept a c
  Kept-trans a b none k l = tt
  Kept-trans a none (some g) k l = absurd l
  Kept-trans none (some f) (some g) k l = absurd k
  Kept-trans (some e) (some f) (some g) k l = l ∙ k

module _ {K V : Type 0} ⦃h : Hashable K⦄ where
  pub existing_entry-Kept :
      (k : K) (now : ℕ) (s : Shard K V) (j : K)
      → Kept (get j s.backend) (get j (existing_entry k now s).1.backend)
  existing_entry-Kept k now s j =
      Kept-SameWrite (get j s.backend) _ (existing_entry-Follows s k j now).entry

  pub read_value-Kept :
      (k : K) (touched counted : Bool) (now : ℕ) (s : Shard K V) (j : K)
      → Kept (get j s.backend) (get j (read_value k touched counted now s).1.backend)
  read_value-Kept k touched counted now s j =
      Kept-SameWrite (get j s.backend) _ (read_value-Follows s k j touched counted now).entry

  pub expire_shard-Kept :
      (now : ℕ) (s : Shard K V) (j : K)
      → Kept (get j s.backend) (get j (expire_shard now s).1.backend)
  unfolding expire_shard
  expire_shard-Kept now s j =
      Kept-SameWrite (get j s.backend) _
        (remove_expired-Follows (expired_keys (values s.backend) now) s j).entry

  remove_entry-Kept :
      (k : K) (s : Shard K V) (j : K)
      → Kept (get j s.backend) (get j (remove_entry k expire s).1.backend)
  remove_entry-Kept k s j =
      Kept-SameWrite (get j s.backend) _ (remove_entry-Follows s k j expire).entry

  pub inspect_locked-Kept :
      (k : K) (now : ℕ) (s : Shard K V) (j : K)
      → Kept (get j s.backend) (get j (inspect_locked k now s).1.backend)
  unfolding inspect_locked
  inspect_locked-Kept k now s j = elim (Option-cases (get k s.backend)) [
    | inl n ↦ rw (n, inspect_locked) (Kept-refl (get j s.backend))
    | inr (e, n) ↦ elim (Bool-cases (is_expired e now)) [
      | inl gone ↦ rw (n, inspect_locked, gone) (remove_entry-Kept k s j)
      | inr live ↦ rw (n, inspect_locked, live) (Kept-refl (get j s.backend))
    ]
  ]

  pub dump_entries-Kept :
      (es : List (Entry K V)) (now : ℕ) (s : Shard K V) (j : K)
      → Kept (get j s.backend) (get j (dump_entries es now s).1.backend)
  unfolding dump_entries
  dump_entries-Kept [] now s j = Kept-refl (get j s.backend)
  dump_entries-Kept (e ∷ es) now s j = elim (Bool-cases (is_expired e now)) [
    | inl gone ↦ rw gone (
        Kept-trans (get j s.backend) (get j (remove_entry e.key expire s).1.backend) _
          (remove_entry-Kept e.key s j)
          (dump_entries-Kept es now (remove_entry e.key expire s).1 j))
    | inr live ↦ rw live (dump_entries-Kept es now s j)
  ]

  pub set_hits-Kept :
      ⦃stable : StableHash K⦄ (k : K) (hits : ℕ) (s : Shard K V) (j : K)
      → Kept (get j s.backend) (get j (set_hits k hits s).backend)
  set_hits-Kept k hits s j = elim (Option-cases (get k s.backend)) [
    | inl n ↦ rw (n, set_hits) (Kept-refl (get j s.backend))
    | inr (e, n) ↦
        rw (n, set_hits)
          (ground (
            arith,
            n,
            get-put k j (record e { hit_count = hits }) s.backend,
            Kept-refl (get j s.backend),
          ))
  ]

  -- A dictionary without the victim of an eviction.
  without-Kept :
      (o : Option K) (d : Dict K (Entry K V)) (j : K) → Kept (get j d) (get j (without o d))
  without-Kept none d j = Kept-refl (get j d)
  without-Kept (some k) d j = ground (arith, get-pop k j d, Kept-refl (get j d))

  module _ (k : K) (x : V) (ttl : Ttl) (b : Bool) (now : ℕ) (default_ttl : Option ℤ)
      (old : Option (Entry K V)) (s : Shard K V) (v : IsSettled s) where
    abbrev e : Entry K V
    e = new_entry k x ttl b now default_ttl old (next_version k s).0

    -- After a `put` every entry is the new one, or was there with its value.
    put_entry-stored :
        (j : K)
        → Kept
            (get j (put k e s.backend))
            (get j (put_entry k x ttl b now default_ttl old s).1.backend)
    unfolding store_entry next_version
    put_entry-stored j =
        rw (put_entry-backend s k x ttl b now default_ttl old v)
          (evicted (ltb s.capacity (size (put k e s.backend))))
      where
        evicted :
            (over : Bool)
            → Kept (get j (put k e s.backend)) (
                get j (
                  if over
                  then without
                      (Policy.evict_candidate (Policy.on_put k s.policy))
                      (put k e s.backend)
                  else put k e s.backend))
        evicted true = without-Kept _ (put k e s.backend) j
        evicted false = Kept-refl (get j (put k e s.backend))

    pub put_entry-others :
        (j : K)
        → k ≢ j
        → Kept (get j s.backend) (get j (put_entry k x ttl b now default_ttl old s).1.backend)
    put_entry-others j other =
        subst (λ a. Kept a (get j (put_entry k x ttl b now default_ttl old s).1.backend))
          (ground (arith, get-put k j e s.backend)) (put_entry-stored j)

    pub put_entry-own :
        (l : List V) → Shows (get k (put_entry k x ttl b now default_ttl old s).1.backend) (x ∷ l)
    unfolding new_entry
    put_entry-own l = own (get k (put_entry k x ttl b now default_ttl old s).1.backend) (
        subst (λ a. Kept a (get k (put_entry k x ttl b now default_ttl old s).1.backend))
          {x = get k (put k e s.backend)} {y = some e} (ground (arith, get-put k k e s.backend))
          (put_entry-stored k))
      where
        own : (o : Option (Entry K V)) → Kept (some e) o → Shows o (x ∷ l)
        own none p = tt
        own (some f) p = inl p

  pub delete_marked-others :
      (b : Bool) (k : K) (s : Shard K V) (j : K)
      → Kept (get j s.backend) (get j (delete_marked b k s).1.backend)
  delete_marked-others b k s j =
      rw (backend-delete_marked s b k)
        (ground (arith, get-pop k j s.backend, Kept-refl (get j s.backend)))

  pub delete_marked-own :
      (b : Bool) (k : K) (s : Shard K V) → get k (delete_marked b k s).1.backend ≡ none
  delete_marked-own b k s = rw (backend-delete_marked s b k) (ground (arith, get-pop k k s.backend))

  pub resolve_pending-Kept :
      (k : K) (s : Shard K V) (j : K) → Kept (get j s.backend) (get j (resolve_pending k s).backend)
  resolve_pending-Kept k s j = rw (backend-resolve_pending s k) (Kept-refl (get j s.backend))
