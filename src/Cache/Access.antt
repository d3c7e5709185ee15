-- ===== src/Cache/Access.antt =====
-- The public operations on keys: `get`, `put`, `delete`, `contains`, `clear` and the reads.
use cache_system.Prelude.{
  ℕ, zero, suc, ◌+◌, ◌-◌, Bool, true, false, Option, none, some, List, [], ◌∷◌, ◌++◌, map, length,
  sum, take, is_some, if◌then◌else◌,
}
use cache_system.Prelude.Int.{ℤ, pos, negsuc, pos_part}
use cache_system.Exec.{Exec, pure, lift, gets, modify, with_state, ◌>>=◌, ◌>>◌}
use cache_system.Dict
use cache_system.Dict.{Hashable, Dict, get, put, keys, values, size}
use cache_system.Entry.{Entry, Snapshot, is_expired, snapshot}
use cache_system.Policy
use cache_system.Jobs.{Ttl, Operation, write, delete, FlushWriteBack}
use cache_system.Source
use cache_system.Config.{WriteMode, write_through}
use cache_system.Shard.{Shard, expire, remove_entry, read_value}
use cache_system.Shard.Writes.{existing_entry, put_entry, delete_marked, expire_shard}
use cache_system.Cache.{
  Cache, StableHash, now, is_write_back, validate_ttl, with_source, with_shard, change_shard,
  require_not_closed, warn_not_started, enqueue_flush_jobs, shard_for,
}

abbrev pub or_default : {V : Type 0} → Option V → V → V
or_default none d = d
or_default (some v) d = v

module _ {K V : Type 0} where
  unfoldable pub flush_job : Cache K V → ℕ → K → Operation V → ℕ → FlushWriteBack K V
  flush_job c i k operation version = record {
    shard_index = i;
    key = k;
    operation = operation;
    version = version;
    retries_left = pos_part c.config.write_back_retry_count;
    attempt = 0;
  }

module _ {K V : Type 0} ⦃h : Hashable K⦄ where
  -- The call of the source that write-through mode makes before it changes the shard.
  unfoldable pub write_source : WriteMode → K → V → Exec (Cache K V) (Unit {0})
  write_source write_through k v = with_source (Source.put_value k v)
  write_source _ k v = pure tt

  unfoldable pub delete_source : WriteMode → K → Exec (Cache K V) (Unit {0})
  delete_source write_through k = with_source (Source.delete_value k)
  delete_source _ k = pure tt

  abbrev pub drop_flight : K → Shard K V → Shard K V
  drop_flight k s = record s { singleflight = Dict.pop k s.singleflight }

  -- The section of `put` under the lock of shard `i`; its result is the new version.
  unfoldable pub put_locked : ℕ → K → V → Ttl → Exec (Cache K V) ℕ
  put_locked i k v ttl = with_state λ c. do
    existing ← with_shard i (existing_entry k (now c))
    write_source c.write_mode k v
    with_shard i
        (put_entry k v ttl (is_write_back c.write_mode) (now c) c.config.default_ttl existing)

  -- The flush job of a deletion, in write-back mode.
  abbrev delete_jobs : Cache K V → ℕ → K → ℕ → List (FlushWriteBack K V)
  delete_jobs c i k version =
      if is_write_back c.write_mode then flush_job c i k delete version ∷ [] else []

  -- The section of `delete` under the lock of shard `i`.
  unfoldable pub delete_locked : ℕ → K → Exec (Cache K V) (Bool × List (FlushWriteBack K V))
  delete_locked i k = with_state λ c. do
    delete_source c.write_mode k
    (version, existed) ← with_shard i (delete_marked (is_write_back c.write_mode) k)
    change_shard i (drop_flight k)
    pure (existed, delete_jobs c i k version)

  -- The loop of `clear` over the keys of a shard.
  unfoldable pub clear_keys : ℕ → List K → Exec (Cache K V) (List (FlushWriteBack K V))
  clear_keys i [] = pure []
  clear_keys i (k ∷ ks) = with_state λ c. do
    delete_source c.write_mode k
    (version, existed) ← with_shard i (delete_marked (is_write_back c.write_mode) k)
    rest ← clear_keys i ks
    pure (delete_jobs c i k version ++ rest)

  -- The loop of `clear` over `n` shards from `i` on.
  unfoldable pub clear_shards : ℕ → ℕ → Exec (Cache K V) (List (FlushWriteBack K V))
  clear_shards i zero = pure []
  clear_shards i (suc n) = do
    ks ← with_shard i (λ s. (keys s.backend, s))
    jobs ← clear_keys i ks
    change_shard i (λ s. record s { policy = Policy.clear s.policy; singleflight = [] })
    rest ← clear_shards (i + 1) n
    pure (jobs ++ rest)

  unfoldable pub clear : Exec (Cache K V) (Unit {0})
  clear = do
    require_not_closed
    n ← gets (λ c. length c.shards)
    jobs ← clear_shards 0 n
    enqueue_flush_jobs jobs

  unfoldable pub size_all : Exec (Cache K V) ℕ
  size_all = do require_not_closed; gets (λ c. sum (map (λ s. size s.backend) c.shards))

  -- `inspect` of the entry that was found
  unfoldable pub inspect_locked : K → ℕ → Shard K V → Option (Snapshot K V) × Shard K V
  inspect_locked k t s = elim (get k s.backend) [
    | none ↦ (none, s)
    | some e ↦
        if is_expired e t then (none, (remove_entry k expire s).1) else (some (snapshot e t), s)
  ]

  -- The loop of `dump` over the entries of a shard.
  unfoldable pub dump_entries : List (Entry K V) → ℕ → Shard K V → List (Snapshot K V) × Shard K V
  dump_entries [] t s = ([], s)
  dump_entries (e ∷ es) t s =
      let gone : Bool = is_expired e t in
      let (snaps, u) = dump_entries es t (if gone then (remove_entry e.key expire s).1 else s) in
      (if gone then snaps else snapshot e t ∷ snaps, u)

  unfoldable pub dump_shards : ℕ → ℕ → Exec (Cache K V) (List (Snapshot K V))
  dump_shards i zero = pure []
  dump_shards i (suc n) = do
    t ← gets now
    snaps ← with_shard i (λ s. dump_entries (values s.backend) t s)
    rest ← dump_shards (i + 1) n
    pure (snaps ++ rest)

  -- `snapshots[:limit]`: a negative limit counts from the end.
  abbrev slice : Option ℤ → List (Snapshot K V) → List (Snapshot K V)
  slice none l = l
  slice (some (pos n)) l = take n l
  slice (some (negsuc n)) l = take (length l - (n + 1)) l

  unfoldable pub dump : Option ℤ → Exec (Cache K V) (List (Snapshot K V))
  dump limit = do
    require_not_closed
    n ← gets (λ c. length c.shards)
    snaps ← dump_shards 0 n
    pure (slice limit snaps)

  -- `_expire_shard`
  unfoldable pub expire_one : ℕ → Exec (Cache K V) ℕ
  expire_one i = with_state λ c. with_shard i (expire_shard (now c))

  unfoldable pub expire_from : ℕ → ℕ → Exec (Cache K V) ℕ
  expire_from i zero = pure 0
  expire_from i (suc n) = do
    expired ← expire_one i
    rest ← expire_from (i + 1) n
    pure (expired + rest)

  unfoldable pub expire_all : Exec (Cache K V) ℕ
  expire_all = do require_not_closed; n ← gets (λ c. length c.shards); expire_from 0 n

  module _ ⦃stable : StableHash K⦄ where
    unfoldable pub get_value : K → V → Exec (Cache K V) V
    get_value k default = do
      require_not_closed
      i ← gets (shard_for k)
      t ← gets now
      found ← with_shard i (read_value k true true t)
      pure (or_default found default)

    unfoldable pub contains : K → Exec (Cache K V) Bool
    contains k = do
      require_not_closed
      i ← gets (shard_for k)
      t ← gets now
      found ← with_shard i (read_value k false true t)
      pure (is_some found)

    unfoldable pub put_value : K → V → Ttl → Exec (Cache K V) (Unit {0})
    put_value k v ttl = with_state λ c. do
      require_not_closed
      modify warn_not_started
      lift (validate_ttl ttl)
      let i = shard_for k c
      version ← put_locked i k v ttl
      enqueue_flush_jobs
          (if is_write_back c.write_mode then flush_job c i k (write v) version ∷ [] else [])

    unfoldable pub delete_value : K → Exec (Cache K V) Bool
    delete_value k = do
      require_not_closed
      i ← gets (shard_for k)
      (existed, jobs) ← delete_locked i k
      enqueue_flush_jobs jobs
      pure existed

    unfoldable pub inspect : K → Exec (Cache K V) (Option (Snapshot K V))
    inspect k = do
      require_not_closed
      i ← gets (shard_for k)
      t ← gets now
      with_shard i (inspect_locked k t)

    abbrev pub set_hits : K → ℕ → Shard K V → Shard K V
    set_hits k hits s = elim (get k s.backend) [
      | none ↦ s
      | some e ↦ record s { backend = put k (record e { hit_count = hits }) s.backend }
    ]

    unfoldable pub restore_entry_metadata : K → ℕ → Exec (Cache K V) (Unit {0})
    restore_entry_metadata k hits = do
      require_not_closed
      i ← gets (shard_for k)
      change_shard i (set_hits k hits)
