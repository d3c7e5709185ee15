-- ===== src/SingleFlight/Sections.antt =====
-- Which sections of a shard leave the registered flights alone.
use cache_system.Prelude.{
  ℕ, zero, suc, ◌≡◌, refl, inl, inr, Bool, Option, arith, Option-cases, Bool-cases, ltb, ◌∙◌,
}
use cache_system.Prelude.Int.{ℤ}
use cache_system.Dict.{Hashable, size}
use cache_system.Entry.{Entry}
use cache_system.Jobs.{Ttl}
use cache_system.Policy
use cache_system.Shard.{
  Shard, Reason, evict, expire, remove_entry, prune_marks, read_value, enforce_capacity,
  register_pending, next_version,
}
use cache_system.Shard.Writes.{
  existing_entry, store_entry, put_entry, delete_marked, delete_entry, bury,
}
use cache_system.SingleFlight.{put_section}

module _ {K V : Type 0} ⦃h : Hashable K⦄ where
  singleflight-remove_entry :
      (s : Shard K V) (k : K) (r : Reason) → (remove_entry k r s).1.singleflight ≡ s.singleflight
  unfolding remove_entry prune_marks
  singleflight-remove_entry s k r = ground arith

  pub singleflight-read_value :
      (s : Shard K V) (k : K) (touched counted : Bool) (now : ℕ)
      → (read_value k touched counted now s).1.singleflight ≡ s.singleflight
  unfolding read_value
  singleflight-read_value s k touched counted now =
      ground (arith, singleflight-remove_entry s k expire)

  singleflight-enforce_capacity :
      (n : ℕ) (s : Shard K V) → (enforce_capacity n s).singleflight ≡ s.singleflight
  unfolding enforce_capacity
  singleflight-enforce_capacity zero s = refl
  singleflight-enforce_capacity (suc n) s = elim (Bool-cases (ltb s.capacity (size s.backend))) [
    | inr small ↦ rw small refl
    | inl more ↦ rw more (elim (Option-cases (Policy.evict_candidate s.policy)) [
      | inl e ↦ rw e refl
      | inr (k, e) ↦ rw e (
          singleflight-enforce_capacity n (remove_entry k evict s).1
          ∙ singleflight-remove_entry s k evict)
    ])
  ]

  singleflight-existing_entry :
      (s : Shard K V) (k : K) (now : ℕ) → (existing_entry k now s).1.singleflight ≡ s.singleflight
  unfolding existing_entry
  singleflight-existing_entry s k now = ground (arith, singleflight-remove_entry s k expire)

  singleflight-put_entry :
      (s : Shard K V) (k : K) (v : V) (ttl : Ttl) (b : Bool) (now : ℕ) (d : Option ℤ)
      (old : Option (Entry K V))
      → (put_entry k v ttl b now d old s).1.singleflight ≡ s.singleflight
  unfolding put_entry register_pending store_entry next_version
  singleflight-put_entry s k v ttl b now d old =
      let (version, t) = store_entry k v ttl b now d old s in
      ground (arith, singleflight-enforce_capacity (size t.backend) t)

  pub singleflight-put_section :
      (s : Shard K V) (k : K) (v : V) (ttl : Ttl) (b : Bool) (now : ℕ) (d : Option ℤ)
      → (put_section k v ttl b now d s).singleflight ≡ s.singleflight
  singleflight-put_section s k v ttl b now d =
      singleflight-put_entry (existing_entry k now s).1 k v ttl b now d (existing_entry k now s).0
      ∙ singleflight-existing_entry s k now

  pub singleflight-delete_marked :
      (s : Shard K V) (b : Bool) (k : K) → (delete_marked b k s).1.singleflight ≡ s.singleflight
  unfolding delete_marked delete_entry bury next_version register_pending remove_entry prune_marks
  singleflight-delete_marked s b k = ground arith
