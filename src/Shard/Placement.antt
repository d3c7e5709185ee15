-- ===== src/Shard/Placement.antt =====
-- What a `put` leaves in a shard: the new entry, the other entries but one at most, and the marks
-- by which a worker recognises the newest write.
use cache_system.Prelude.{
  ℕ, zero, suc, ◌+◌, ◌≤◌, ◌<◌, ◌≡◌, inl, inr, refl, Bool, true, false, Option, none, some, [], ◌∷◌,
  arith, ltb, Option-cases, Bool-cases, ◌∙◌, if◌then◌else◌, ap,
}
use cache_system.Prelude.Int.{ℤ}
use cache_system.Dict.{Hashable, Dict, get, put, pop, contains, size, first}
use cache_system.Dict.Laws.{get-put, get-pop, size-put}
use cache_system.Entry.{Entry}
use cache_system.Jobs.{Ttl}
use cache_system.Policy
use cache_system.Policy.{Policy, lru, fifo, lfu}
use cache_system.Policy.Ordered
use cache_system.Policy.Ordered.{Order}
use cache_system.Shard.{
  Shard, evict, remove_entry, enforce_capacity, register_pending, next_version,
}
use cache_system.WriteBack.{or_zero}
use cache_system.Shard.Writes.{new_entry, store_entry, put_entry}
use cache_system.Shard.Invariant.{
  IsValid, backend-remove_entry, size-remove_entry, capacity-remove_entry,
}
use cache_system.Shard.Eviction.{candidate-contains}
use cache_system.Shard.Preserves.{store_entry-IsValid}
use cache_system.Shard.Settled.{IsSettled}

module _ {K V : Type 0} ⦃h : Hashable K⦄ where
  -- The backend without the candidate.
  abbrev pub without : Option K → Dict K (Entry K V) → Dict K (Entry K V)
  without none d = d
  without (some k) d = pop k d

  stops :
      (fuel : ℕ) (s : Shard K V) (k : K)
      → IsValid s
      → size s.backend ≤ s.capacity + 1
      → Policy.evict_candidate s.policy ≡ some k
      → s.capacity < size s.backend
      → (enforce_capacity fuel (remove_entry k evict s).1).backend ≡ pop k s.backend
  unfolding enforce_capacity
  stops zero s k v b n o = backend-remove_entry s k evict
  stops (suc fuel) s k v b n o = ground (
    arith,
    backend-remove_entry s k evict,
    size-remove_entry s k evict v,
    capacity-remove_entry s k evict,
    candidate-contains s k v n,
  )

  -- One entry too many, and the loop takes one round.
  enforce_capacity_once :
      (fuel : ℕ) (s : Shard K V)
      → IsValid s
      → size s.backend ≤ s.capacity + 1
      → size s.backend ≤ fuel
      → (enforce_capacity fuel s).backend ≡ (
          if ltb s.capacity (size s.backend)
          then without (Policy.evict_candidate s.policy) s.backend
          else s.backend)
  unfolding enforce_capacity
  enforce_capacity_once zero s v b p = ground arith
  enforce_capacity_once (suc fuel) s v b p = elim (Bool-cases (ltb s.capacity (size s.backend))) [
    | inr fits ↦ rw fits refl
    | inl over ↦ elim (Option-cases (Policy.evict_candidate s.policy)) [
      | inl n ↦ rw (over, n) refl
      | inr (k, n) ↦ rw (over, n) (stops fuel s k v b n (ground arith))
    ]
  ]

  module _ (s : Shard K V) (k : K) (x : V) (ttl : Ttl) (write_back : Bool) (now : ℕ)
      (default_ttl : Option ℤ) (old : Option (Entry K V)) (v : IsSettled s) where
    -- The version after the newest mark of the key.
    abbrev pub put_version : ℕ
    put_version = or_zero (get k s.version_marks) + 1

    -- The backend with the new entry under its key.
    abbrev pub with_entry : Dict K (Entry K V)
    with_entry = put k (new_entry k x ttl write_back now default_ttl old put_version) s.backend

    pub put_entry-backend : (put_entry k x ttl write_back now default_ttl old s).1.backend ≡ (
        if ltb s.capacity (size with_entry)
        then without (Policy.evict_candidate (Policy.on_put k s.policy)) with_entry
        else with_entry)
    unfolding put_entry store_entry next_version
    put_entry-backend = announced write_back
      where
        t : Shard K V
        t = (store_entry k x ttl write_back now default_ttl old s).1

        t_entry : Entry K V
        t_entry = new_entry k x ttl write_back now default_ttl old (next_version k s).0

        result : Dict K (Entry K V)
        result =
            if ltb s.capacity (size t.backend)
            then without (Policy.evict_candidate (Policy.on_put k s.policy)) t.backend
            else t.backend

        stored_size : size t.backend ≤ s.capacity + 1
        stored_size = ground (arith, v.bounded, size-put k t_entry s.backend)

        once : (enforce_capacity (size t.backend) t).backend ≡ result
        once =
            enforce_capacity_once (size t.backend) t
              (store_entry-IsValid s k x ttl write_back now default_ttl old v.valid) (stored_size)
              (omega arith)

        announced :
            (b : Bool)
            → (if b
                then register_pending k (enforce_capacity (size t.backend) t)
                else enforce_capacity (size t.backend) t).backend
              ≡ result
        announced true = unfold register_pending in once
        announced false = once

    -- A `put` into a settled shard stores, under the key and with whatever was there before replaced,
    -- an entry with the value, with the version after the newest mark of the key, and dirty exactly in
    -- write-back mode. If that makes one entry too many, the candidate of the policy, which has been
    -- told of the `put`, is taken away, and nothing else is.
    pub put_entry_lem :
        (e : Entry K V) × (e.key ≡ k)
        × (e.value ≡ x)
        × (e.version ≡ or_zero (get k s.version_marks) + 1)
        × (e.dirty ≡ write_back)
        × ((put_entry k x ttl write_back now default_ttl old s).1.backend ≡ (
            if ltb s.capacity (size (put k e s.backend))
            then without (Policy.evict_candidate (Policy.on_put k s.policy)) (put k e s.backend)
            else put k e s.backend))
    unfolding new_entry
    put_entry_lem = (
      new_entry k x ttl write_back now default_ttl old put_version,
      refl,
      refl,
      refl,
      refl,
      put_entry-backend,
    )

module _ {K : Type 0} ⦃h : Hashable K⦄ where
  -- A new key is the next to go only from an order that held no other.
  lru_new :
      (k : K) (o : Order K)
      → contains k o ≡ false
      → first (Ordered.lru_on_put k o) ≡ some k
      → o ≡ []
  unfolding Ordered.lru_on_put get put pop
  lru_new k [] n e = refl
  lru_new k ((j, u) ∷ o) n e = ground arith

  fifo_new :
      (k : K) (o : Order K)
      → contains k o ≡ false
      → first (Ordered.fifo_on_put k o) ≡ some k
      → o ≡ []
  unfolding Ordered.fifo_on_put get put
  fifo_new k [] n e = refl
  fifo_new k ((j, u) ∷ o) n e = ground arith

  -- The policies that evict by an order of the keys.
  abbrev pub is_ordered : Policy K → Bool
  is_ordered (lru o) = true
  is_ordered (fifo o) = true
  is_ordered (lfu l) = false

  new_key-tracks :
      (k j : K) (p : Policy K)
      → is_ordered p ≡ true
      → Policy.tracks k p ≡ false
      → Policy.evict_candidate (Policy.on_put k p) ≡ some k
      → Policy.tracks j p ≡ false
  unfolding Policy.tracks Policy.on_put Policy.evict_candidate Ordered.evict_candidate get
  new_key-tracks k j (lru o) b n e = ground (arith, lru_new k o n e)
  new_key-tracks k j (fifo o) b n e = ground (arith, fifo_new k o n e)
  new_key-tracks k j (lfu l) b n e = ground arith

module _ {K V : Type 0} ⦃h : Hashable K⦄ where
  untracked_empty :
      (s : Shard K V)
      → IsValid s
      → ((k : K) → Policy.tracks k s.policy ≡ false)
      → size s.backend ≡ 0
  untracked_empty s v n = go s.backend refl
    where
      go : (d : Dict K (Entry K V)) → s.backend ≡ d → size s.backend ≡ 0
      go [] e = rw e
      go ((k, x) ∷ d) e = unfold get in ground (arith, (v.key k).tracked, n k, ap (contains k) e)

  module _ (s : Shard K V) (k : K) (x : V) (ttl : Ttl) (write_back : Bool) (now : ℕ)
      (default_ttl : Option ℤ) (old : Option (Entry K V)) where
    -- With LRU or FIFO, in a shard with room for an entry, a `put` is never the victim of its own
    -- eviction: the new entry is there when the lock is released.
    pub put_entry-get :
        IsSettled s
        → 0 < s.capacity
        → is_ordered s.policy ≡ true
        → get k (put_entry k x ttl write_back now default_ttl old s).1.backend
          ≡ some (new_entry k x ttl write_back now default_ttl old (next_version k s).0)
    unfolding store_entry next_version
    put_entry-get v room o =
        elim (Option-cases (Policy.evict_candidate (Policy.on_put k s.policy))) [
          | inl n ↦ ground (
            arith,
            put_entry-backend s k x ttl write_back now default_ttl old v,
            get-put k k e s.backend,
          )
          | inr (c, n) ↦ ground (
            arith,
            put_entry-backend s k x ttl write_back now default_ttl old v,
            get-put k k e s.backend,
            get-pop c k (put k e s.backend),
            size-put k e s.backend,
            v.bounded,
            alone c n,
          )
        ]
      where
        e : Entry K V
        e = new_entry k x ttl write_back now default_ttl old (next_version k s).0

        alone :
            (c : K)
            → Policy.evict_candidate (Policy.on_put k s.policy) ≡ some c
            → c ≡ k
            → contains k s.backend ≡ false
            → size s.backend ≡ 0
        alone c n same absent = untracked_empty s v.valid (λ j.
            new_key-tracks k j s.policy o ((v.valid.key k).tracked ∙ absent) (n ∙ ap some same))
