-- ===== src/Shard/Expiry.antt =====
-- Active expiration of a shard: which entries it takes away, and what it reports.
use cache_system.Prelude.{
  ℕ, ◌+◌, ◌≡◌, refl, Bool, false, Option, none, some, List, [], ◌∷◌, arith, if◌then◌else◌,
}
use cache_system.Dict.{Hashable, Dict, get, size, values, IsDict}
use cache_system.Dict.Laws.{listed, get-pop}
use cache_system.Entry.{Entry, is_expired}
use cache_system.Shard.{Shard, expire, remove_entry}
use cache_system.Shard.Writes.{remove_expired, expired_keys, expire_shard}
use cache_system.Shard.Invariant.{
  IsValid, backend-remove_entry, size-remove_entry, remove_entry-IsValid,
}

module _ {K V : Type 0} where
  -- The entry, unless it is expired.
  abbrev pub unless_expired : ℕ → Option (Entry K V) → Option (Entry K V)
  unless_expired now none = none
  unless_expired now (some e) = if is_expired e now then none else some e

  abbrev has_expired : ℕ → Option (Entry K V) → Bool
  has_expired now none = false
  has_expired now (some e) = is_expired e now

module _ {K V : Type 0} ⦃h : Hashable K⦄ where
  get-remove_expired :
      (j : K) (ks : List K) (s : Shard K V)
      → get j (remove_expired ks s).1.backend ≡ (if listed j ks then none else get j s.backend)
  unfolding remove_expired listed
  get-remove_expired j [] s = refl
  get-remove_expired j (k ∷ ks) s = ground (
    arith,
    get-remove_expired j ks (remove_entry k expire s).1,
    backend-remove_entry s k expire,
    get-pop k j s.backend,
  )

  listed-expired_keys :
      (j : K) (now : ℕ) (d : Dict K (Entry K V))
      → IsDict d
      → ((k : K) (e : Entry K V) → get k d ≡ some e → e.key ≡ k)
      → listed j (expired_keys (values d) now) ≡ has_expired now (get j d)
  unfolding listed expired_keys get
  listed-expired_keys j now [] u own = refl
  listed-expired_keys j now ((k, e) ∷ d) (fresh, u) own =
      let ih = listed-expired_keys j now d u (λ i f n. own i f (ground arith)) in
      let same : e.key ≡ k = own k e (ground arith) in ground (arith, ih, same)

  size-remove_expired :
      (ks : List K) (s : Shard K V)
      → IsValid s
      → (remove_expired ks s).0 + size (remove_expired ks s).1.backend ≡ size s.backend
  unfolding remove_expired remove_entry
  size-remove_expired [] s v = omega arith
  size-remove_expired (k ∷ ks) s v = ground (
    arith,
    size-remove_expired ks (remove_entry k expire s).1 (remove_entry-IsValid s k expire v),
    size-remove_entry s k expire v,
  )

  -- In a valid shard active expiration takes away the expired entries and only them: under every
  -- key the entry that was there is left unless it is expired. It reports how many it took.
  pub expire_shard_lem :
      (s : Shard K V) (now : ℕ)
      → IsValid s
      → ((k : K) → get k (expire_shard now s).1.backend ≡ unless_expired now (get k s.backend))
        × ((expire_shard now s).0 + size (expire_shard now s).1.backend ≡ size s.backend)
  unfolding expire_shard
  expire_shard_lem s now v = (
    (λ k. ground (
      arith,
      get-remove_expired k (expired_keys (values s.backend) now) s,
      listed-expired_keys k now s.backend v.backend own,
    )),
    size-remove_expired (expired_keys (values s.backend) now) s v,
  )
    where
      own : (k : K) (e : Entry K V) → get k s.backend ≡ some e → e.key ≡ k
      own k e n = ground (arith, (v.key k).marks)
