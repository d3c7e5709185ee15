-- ===== src/Shard/View.antt =====
-- What a reader can see of a shard: a map from keys to values at a moment of time. The operations
-- under the lock act on it as on a plain map, but for what an eviction takes away.
use cache_system.Prelude.{
  ℕ, ◌+◌, ◌<◌, ◌≡◌, inl, inr, refl, Bool, true, false, Option, none, some, arith, ltb, ite,
  Option-cases, Bool-cases, if◌then◌else◌,
}
use cache_system.Prelude.Int.{ℤ, pos}
use cache_system.Dict.{Hashable, ◌≟◌, get}
use cache_system.Dict.Laws.{get-put, get-pop}
use cache_system.Entry.{Entry, is_expired, touch}
use cache_system.Jobs.{Ttl, unset, never, seconds}
use cache_system.Shard.{Shard, expire, remove_entry, read_value}
use cache_system.Shard.Writes.{resolve_ttl, new_entry, existing_entry, delete_marked}
use cache_system.Shard.Invariant.{backend-remove_entry}
use cache_system.Shard.Settled.{backend-delete_marked}

module _ {K V : Type 0} where
  abbrev pub live_value : ℕ → Option (Entry K V) → Option V
  live_value now none = none
  live_value now (some e) = if is_expired e now then none else some e.value

module _ {K V : Type 0} ⦃h : Hashable K⦄ where
  -- The value that `now` shows under the key.
  abbrev pub view : ℕ → Shard K V → K → Option V
  view now s k = live_value now (get k s.backend)

  -- Removing an expired entry takes nothing out of view.
  pub view-expire :
      (s : Shard K V) (k j : K) (now : ℕ) (e : Entry K V)
      → get k s.backend ≡ some e
      → is_expired e now ≡ true
      → view now (remove_entry k expire s).1 j ≡ view now s j
  view-expire s k j now e n gone =
      ground (arith, backend-remove_entry s k expire, get-pop k j s.backend)

  module _ (s : Shard K V) (k : K) (touched counted : Bool) (now : ℕ) where
    -- A read returns the value in view, and leaves the view of every key as it was, whether the
    -- read found an entry, found an expired one and removed it, or found nothing.
    pub read_value-view :
        ((read_value k touched counted now s).0 ≡ view now s k)
        × ((j : K) → view now (read_value k touched counted now s).1 j ≡ view now s j)
    read_value-view = elim (Option-cases (get k s.backend)) [
      | inl n ↦ unfold read_value in rw (n, read_value) (refl, λ j. refl)
      | inr (e, n) ↦ elim (Bool-cases (is_expired e now)) [
        | inl gone ↦
            unfold read_value in
            rw (n, read_value, gone) (refl, λ j. view-expire s k j now e n gone)
        | inr live ↦
            unfold read_value touch is_expired in
            rw (n, read_value, live)
              (refl, λ j. ground (arith, get-put k j (touch e now) s.backend))
      ]
    ]

  -- A deletion takes the key out of the view, and no other, in every write mode.
  pub delete_marked-view :
      (s : Shard K V) (write_back : Bool) (k j : K) (now : ℕ)
      → view now (delete_marked write_back k s).1 j ≡ ite (◌≟◌ k j) none (view now s j)
  delete_marked-view s write_back k j now =
      ground (arith, backend-delete_marked s write_back k, get-pop k j s.backend)

  abbrev pub IsLive : ℕ → Option (Entry K V) → Type 0
  IsLive now none = Unit
  IsLive now (some e) = is_expired e now ≡ false

  -- What `put` finds is an entry in view.
  pub existing_entry-IsLive :
      (s : Shard K V) (k : K) (now : ℕ) → IsLive now (existing_entry k now s).0
  existing_entry-IsLive s k now = elim (Option-cases (get k s.backend)) [
    | inl n ↦ unfold existing_entry in rw (n, existing_entry) tt
    | inr (e, n) ↦ elim (Bool-cases (is_expired e now)) [
      | inl gone ↦ unfold existing_entry in rw (n, existing_entry, gone) tt
      | inr live ↦ unfold existing_entry in rw (n, existing_entry, live) live
    ]
  ]

  -- An entry is not expired at the moment at which it is stored.
  pub new_entry-IsLive :
      (k : K) (v : V) (ttl : Ttl) (dirty : Bool) (now : ℕ) (default_ttl : Option ℤ)
      (existing : Option (Entry K V)) (version : ℕ)
      → IsLive now existing
      → is_expired (new_entry k v ttl dirty now default_ttl existing version) now ≡ false
  unfolding new_entry resolve_ttl is_expired
  new_entry-IsLive k v unset dirty now default_ttl (some e) version l = l
  new_entry-IsLive k v unset dirty now none none version l = refl
  new_entry-IsLive k v unset dirty now (some z) none version l = ground arith
  new_entry-IsLive k v never dirty now default_ttl existing version l = ground arith
  new_entry-IsLive k v (seconds z) dirty now default_ttl existing version l = ground arith

  -- The lifetime is exact: an entry stored at time `start` with a lifetime of `n > 0` ticks is in
  -- view at a later time `now` if and only if less than `n` ticks have passed.
  pub new_entry-lifetime :
      (k : K) (v : V) (dirty : Bool) (start n now : ℕ) (default_ttl : Option ℤ)
      (existing : Option (Entry K V)) (version : ℕ)
      → 0 < n
      → live_value now
          (some (new_entry k v (seconds (pos n)) dirty start default_ttl existing version))
        ≡ (if ltb now (start + n) then some v else none)
  unfolding new_entry resolve_ttl is_expired
  new_entry-lifetime k v dirty start n now default_ttl existing version p = ground arith
