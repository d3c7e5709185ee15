-- ===== src/Cache/Calls.antt =====
-- The public calls, and the invariant of the cache.
use cache_system.Prelude.{
  ℕ, zero, suc, ◌+◌, ◌≡◌, refl, Bool, Option, All, subst, sym, arith, Option-cases, inl, inr,
}
use cache_system.Prelude.Int.{ℤ}
use cache_system.Exec.{modify}
use cache_system.Exec.Keeps.{Keeps, Keeps-pure, Keeps-modify, Keeps-with_state, keeps_rules}
use cache_system.Dict.{Hashable, get}
use cache_system.Entry.{Entry}
use cache_system.Jobs.{Ttl}
use cache_system.Queue.Laws
use cache_system.Config.{WriteMode, cache_only, write_through, write_back}
use cache_system.Shard.{Shard, read_value}
use cache_system.Shard.Writes.{existing_entry, put_entry, delete_marked, expire_shard}
use cache_system.Shard.Settled.{
  IsSettled, existing_entry-IsSettled, read_value-IsSettled, put_entry-IsSettled,
  delete_marked-IsSettled, expire_shard-IsSettled,
}
use cache_system.Shard.Reads.{singleflight-IsSettled, update-IsSettled}
use cache_system.Cache.{Cache, StableHash, now, with_shard, change_shard, warn_not_started}
use cache_system.Cache.Access.{
  write_source, delete_source, drop_flight, put_locked, delete_locked, get_value, contains,
  put_value, delete_value, expire_one, expire_from, expire_all, set_hits, restore_entry_metadata,
}
use cache_system.Cache.Invariant.{
  IsValid, with_shard-Keeps, change_shard-Keeps, with_source-Keeps, require_not_closed-Keeps,
  enqueue_flush_jobs-Keeps,
}

module _ {K V : Type 0} ⦃h : Hashable K⦄ where
  existing_entry-Keeps :
      (i : ℕ) (k : K) (t : ℕ) → Keeps IsValid (with_shard {V = V} i (existing_entry k t))
  existing_entry-Keeps i k t =
      with_shard-Keeps i (existing_entry k t) (λ s. existing_entry-IsSettled s k t)

  put_entry-Keeps :
      (i : ℕ) (k : K) (v : V) (ttl : Ttl) (b : Bool) (t : ℕ) (d : Option ℤ)
      (old : Option (Entry K V))
      → Keeps IsValid (with_shard i (put_entry k v ttl b t d old))
  put_entry-Keeps i k v ttl b t d old =
      with_shard-Keeps i (put_entry k v ttl b t d old)
        (λ s x. put_entry-IsSettled s k v ttl b t d old x.valid)

  delete_marked-Keeps :
      (i : ℕ) (b : Bool) (k : K) → Keeps IsValid (with_shard {V = V} i (delete_marked b k))
  delete_marked-Keeps i b k =
      with_shard-Keeps i (delete_marked b k) (λ s. delete_marked-IsSettled s b k)

  drop_flight-Keeps : (i : ℕ) (k : K) → Keeps IsValid (change_shard {V = V} i (drop_flight k))
  drop_flight-Keeps i k = change_shard-Keeps i (drop_flight k) (λ s. singleflight-IsSettled s _)

  pub read_value-Keeps :
      (i : ℕ) (k : K) (touched counted : Bool) (t : ℕ)
      → Keeps IsValid (with_shard {V = V} i (read_value k touched counted t))
  read_value-Keeps i k touched counted t =
      with_shard-Keeps i (read_value k touched counted t)
        (λ s. read_value-IsSettled s k touched counted t)

  write_source-Keeps : (m : WriteMode) (k : K) (v : V) → Keeps IsValid (write_source m k v)
  unfolding write_source
  write_source-Keeps write_through k v = with_source-Keeps _
  write_source-Keeps cache_only k v = Keeps-pure tt
  write_source-Keeps write_back k v = Keeps-pure tt

  delete_source-Keeps : (m : WriteMode) (k : K) → Keeps IsValid (delete_source {V = V} m k)
  unfolding delete_source
  delete_source-Keeps write_through k = with_source-Keeps _
  delete_source-Keeps cache_only k = Keeps-pure tt
  delete_source-Keeps write_back k = Keeps-pure tt

  ruleset shard_rules = (
    keeps_rules, existing_entry-Keeps, put_entry-Keeps, delete_marked-Keeps, drop_flight-Keeps,
    read_value-Keeps, write_source-Keeps, delete_source-Keeps, require_not_closed-Keeps,
    enqueue_flush_jobs-Keeps,
  )

  put_locked-Keeps : (i : ℕ) (k : K) (v : V) (ttl : Ttl) → Keeps IsValid (put_locked i k v ttl)
  unfolding put_locked
  put_locked-Keeps i k v ttl = search shard_rules

  delete_locked-Keeps : (i : ℕ) (k : K) → Keeps IsValid (delete_locked {V = V} i k)
  unfolding delete_locked
  delete_locked-Keeps i k = search shard_rules

  module _ ⦃stable : StableHash K⦄ where
    pub warn_not_started-Keeps : Keeps IsValid (modify (warn_not_started {K = K} {V = V}))
    warn_not_started-Keeps = Keeps-modify warn_not_started (λ c v. record {
      shards = subst (All IsSettled) (sym (shards_same c)) v.shards;
      queue = subst Laws.IsValid (sym (queue_same c)) v.queue;
    })
      where
        shards_same : (c : Cache K V) → (warn_not_started c).shards ≡ c.shards
        shards_same c = unfold warn_not_started in ground arith

        queue_same : (c : Cache K V) → (warn_not_started c).job_queue ≡ c.job_queue
        queue_same c = unfold warn_not_started in ground arith

    pub get_value-Keeps : (k : K) (d : V) → Keeps IsValid (get_value k d)
    unfolding get_value
    get_value-Keeps k d = search shard_rules

    pub put_value-Keeps : (k : K) (v : V) (ttl : Ttl) → Keeps IsValid (put_value k v ttl)
    unfolding put_value
    put_value-Keeps k v ttl =
        search (shard_rules, warn_not_started-Keeps, put_locked-Keeps) depth 12

    pub delete_value-Keeps : (k : K) → Keeps IsValid (delete_value {V = V} k)
    unfolding delete_value
    delete_value-Keeps k = search (shard_rules, delete_locked-Keeps) depth 12

    pub contains-Keeps : (k : K) → Keeps IsValid (contains {V = V} k)
    unfolding contains
    contains-Keeps k = search shard_rules

    pub set_hits-IsSettled :
        (k : K) (n : ℕ) (s : Shard K V) → IsSettled s → IsSettled (set_hits k n s)
    set_hits-IsSettled k n s v = elim (Option-cases (get k s.backend)) [
      | inl e ↦ rw (e, set_hits) v
      | inr (x, e) ↦
          rw (e, set_hits) (update-IsSettled s k x (record x { hit_count = n }) e refl refl v)
    ]

    pub restore_entry_metadata-Keeps :
        (k : K) (n : ℕ) → Keeps IsValid (restore_entry_metadata {V = V} k n)
    unfolding restore_entry_metadata
    restore_entry_metadata-Keeps k n =
        search
          (shard_rules, λ (i : ℕ). change_shard-Keeps i (set_hits k n) (set_hits-IsSettled k n))

  pub expire_one-Keeps : (i : ℕ) → Keeps IsValid (expire_one {K = K} {V = V} i)
  unfolding expire_one
  expire_one-Keeps i =
      Keeps-with_state _
        (λ c. with_shard-Keeps i (expire_shard (now c)) (λ s. expire_shard-IsSettled s (now c)))

  expire_from-Keeps : (i n : ℕ) → Keeps IsValid (expire_from {K = K} {V = V} i n)
  unfolding expire_from
  expire_from-Keeps i zero = search keeps_rules
  expire_from-Keeps i (suc n) =
      search (keeps_rules, expire_one-Keeps i, expire_from-Keeps (i + 1) n)

  pub expire_all-Keeps : Keeps IsValid (expire_all {K = K} {V = V})
  unfolding expire_all
  expire_all-Keeps = search (shard_rules, expire_from-Keeps)
