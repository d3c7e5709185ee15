-- ===== src/Shard/Writes.antt =====
-- The parts of `put`, `delete`, `clear` and of expiry that run under the lock of one shard.
use cache_system.Prelude.{ℕ, ◌+◌, Bool, Option, none, some, List, [], ◌∷◌, if◌then◌else◌}
use cache_system.Prelude.Int.{ℤ, pos_part, is_nonpositive}
use cache_system.Dict.{Hashable, get, put, pop, values, size}
use cache_system.Entry.{Entry, is_expired}
use cache_system.Policy
use cache_system.Jobs.{Ttl, unset, never, seconds}
use cache_system.Shard.{
  Shard, expire, delete, next_version, register_pending, remove_entry, enforce_capacity,
}

-- A lifetime that is not positive is none.
abbrev pub lifetime : Option ℤ → ℕ → Option ℕ × Option ℕ
lifetime none now = (none, none)
lifetime (some z) now =
    if is_nonpositive z then (none, none) else (some (pos_part z), some (now + pos_part z))

module _ {K V : Type 0} where
  -- `_resolve_ttl`: the lifetime and the time at which it ends.
  unfoldable pub resolve_ttl : Option (Entry K V) → Ttl → ℕ → Option ℤ → Option ℕ × Option ℕ
  resolve_ttl (some e) unset now default_ttl = (e.ttl, e.expires_at)
  resolve_ttl none unset now default_ttl = lifetime default_ttl now
  resolve_ttl existing never now default_ttl = lifetime none now
  resolve_ttl existing (seconds z) now default_ttl = lifetime (some z) now

  abbrev pub created : Option (Entry K V) → ℕ → ℕ
  created none now = now
  created (some e) now = e.created_at

  abbrev pub hits_of : Option (Entry K V) → ℕ
  hits_of none = 0
  hits_of (some e) = e.hit_count

module _ {K V : Type 0} ⦃h : Hashable K⦄ where
  -- The entry that `put` finds, after an expired one is removed.
  unfoldable pub existing_entry : K → ℕ → Shard K V → Option (Entry K V) × Shard K V
  existing_entry k now s = elim (get k s.backend) [
    | none ↦ (none, s)
    | some e ↦ if is_expired e now then (none, (remove_entry k expire s).1) else (some e, s)
  ]

  -- The entry that `put` stores.
  unfoldable pub new_entry : K → V → Ttl → Bool → ℕ → Option ℤ → Option (Entry K V) → ℕ → Entry K V
  new_entry k v ttl dirty now default_ttl existing version =
      let (effective_ttl, expires_at) = resolve_ttl existing ttl now default_ttl in
      record {
        key = k;
        value = v;
        created_at = created existing now;
        last_accessed_at = now;
        hit_count = hits_of existing;
        expires_at = expires_at;
        ttl = effective_ttl;
        version = version;
        dirty = dirty;
      }

  -- From `next_version` to `shard.stats.puts += 1`.
  unfoldable pub store_entry :
      K → V → Ttl → Bool → ℕ → Option ℤ → Option (Entry K V) → Shard K V → ℕ × Shard K V
  store_entry k v ttl dirty now default_ttl existing s =
      let (version, t) = next_version k s in
      (
        version,
        record t {
          backend = put k (new_entry k v ttl dirty now default_ttl existing version) t.backend;
          policy = Policy.on_put k t.policy;
          stats = record t.stats { puts = t.stats.puts + 1 };
          tombstones = pop k t.tombstones;
        },
      )

  -- The same with the eviction after it; the flag says if the write mode is write-back.
  unfoldable pub put_entry :
      K → V → Ttl → Bool → ℕ → Option ℤ → Option (Entry K V) → Shard K V → ℕ × Shard K V
  put_entry k v ttl write_back now default_ttl existing s =
      let (version, t) = store_entry k v ttl write_back now default_ttl existing s in
      let kept : Shard K V = enforce_capacity (size t.backend) t in
      (version, if write_back then register_pending k kept else kept)

  -- What write-back mode records for a deletion.
  unfoldable pub bury : K → Shard K V → ℕ × Shard K V
  bury k s =
      let (version, t) = next_version k s in
      (version, register_pending k (record t { tombstones = put k version t.tombstones }))

  abbrev pub count_delete : Bool → Shard K V → Shard K V
  count_delete existed s =
      if existed then record s { stats = record s.stats { deletes = s.stats.deletes + 1 } } else s

  -- The removal in `delete` and `clear`, counted if there was an entry.
  unfoldable pub delete_entry : K → Shard K V → Bool × Shard K V
  delete_entry k s = let (existed, t) = remove_entry k delete s in (existed, count_delete existed t)

  -- A deletion, which write-back mode marks first: the version of the mark, and whether there was
  -- an entry.
  unfoldable pub delete_marked : Bool → K → Shard K V → (ℕ × Bool) × Shard K V
  delete_marked write_back k s =
      let (version, t) = (if write_back then bury k s else (0, s)) in
      let (existed, u) = delete_entry k t in ((version, existed), u)

  -- The loop of `_expire_shard` over the keys that `expired_keys` found.
  unfoldable pub remove_expired : List K → Shard K V → ℕ × Shard K V
  remove_expired [] s = (0, s)
  remove_expired (k ∷ ks) s =
      let (removed, t) = remove_entry k expire s in
      let (n, u) = remove_expired ks t in (if removed then n + 1 else n, u)

  -- `expired_keys` of workers/expiration_worker.py
  unfoldable pub expired_keys : List (Entry K V) → ℕ → List K
  expired_keys [] now = []
  expired_keys (e ∷ es) now =
      let rest = expired_keys es now in if is_expired e now then e.key ∷ rest else rest

  unfoldable pub expire_shard : ℕ → Shard K V → ℕ × Shard K V
  unfolding remove_expired expired_keys
  expire_shard now s = remove_expired (expired_keys (values s.backend) now) s
