-- ===== src/Cli.antt =====
-- src/cachelab/cli/commands/basic.py: the state file in which the commands keep a cache between runs,
-- and how a cache is loaded from it. What `json` reads and writes is a value here, and the warnings
-- are left out.
pub mod Commands
pub mod Laws
pub mod Saving
use cache_system.Prelude.{
  ℕ, ◌+◌, ◌-◌, ◌*◌, Bool, true, false, ◌&&◌, Option, none, some, List, [], ◌∷◌, map, String, leb,
  is_some, if◌then◌else◌,
}
use cache_system.Prelude.Int.{ℤ, pos, negsuc, pos_part, is_nonpositive}
use cache_system.Exec.{
  Exec, Result, ok, err, value_error, pure, lift, gets, modify, raise_if, ◌>>=◌, ◌>>◌,
}
use cache_system.Dict.{Hashable}
use cache_system.Clock.{FakeClock}
use cache_system.Entry.{Snapshot}
use cache_system.Jobs.{Ttl, unset, never, seconds}
use cache_system.Source.{SlowDict}
use cache_system.Config.{CacheConfig}
use cache_system.Stats.{CacheStatsSnapshot}
use cache_system.Cache.{Cache, StableHash}
use cache_system.Cache.Access
use cache_system.Cache.Access.{get_value, put_value, delete_value, size_all, restore_entry_metadata}
use cache_system.Cache.Init.{init}
use cache_system.Cache.Stats

-- `parse_cli_key` and `parse_cli_value`, where `loads` is `json.loads` and `raw` a string as JSON.
unfoldable pub parse_cli :
    {A : Type 0} → (String → Option A) → (String → A) → String → Bool → Result A
parse_cli loads raw s false = ok (raw s)
parse_cli loads raw s true = elim (loads s) [ none ↦ err value_error | some a ↦ ok a ]

-- A lifetime in the file: no such key, `null`, what `float` makes of it, or what it refuses.
pub data Field : Type 0 where
  absent null refused : Field
  number : ℤ → Field

-- `float(expires_wall) - wall_now`
abbrev pub minus : ℤ → ℕ → ℤ
minus (pos a) b = if leb b a then pos (a - b) else negsuc (b - a - 1)
minus (negsuc a) b = negsuc (a + b)

-- An entry of the file, where `value` is `item.get("value")` and `hit_count` is there if it is an
-- integer.
pub record StateItem (K V : Type 0) : Type 0 where
  pub key : K
  pub value : V
  pub ttl_remaining : Field
  pub expires_wall : Field
  pub hit_count : Option ℤ

pub record SavedConfig : Type 0 where
  pub capacity : ℤ
  pub policy : String
  pub shard_count : ℤ
  pub default_ttl : Option ℤ

-- The file; an entry that is no dictionary with a key is `none`.
pub record SavedState (K V : Type 0) : Type 0 where
  pub config : Option SavedConfig
  pub entries : List (Option (StateItem K V))

-- What `_ttl_from_state_item` returns: `_SKIP_ENTRY` or a lifetime.
pub data StoredTtl : Type 0 where
  skip : StoredTtl
  keep : Ttl → StoredTtl

abbrev pub positive_ttl : ℤ → StoredTtl
positive_ttl z = if is_nonpositive z then skip else keep (seconds z)

abbrev legacy_ttl : Field → ℕ → StoredTtl
legacy_ttl absent wall_now = keep never
legacy_ttl null wall_now = keep never
legacy_ttl refused wall_now = skip
legacy_ttl (number z) wall_now = positive_ttl (minus z wall_now)

abbrev pub stored_ttl : Field → Field → ℕ → StoredTtl
stored_ttl absent legacy wall_now = legacy_ttl legacy wall_now
stored_ttl null legacy wall_now = keep never
stored_ttl refused legacy wall_now = skip
stored_ttl (number z) legacy wall_now = positive_ttl z

unfoldable pub ttl_from_state_item : {K V : Type 0} → StateItem K V → ℕ → StoredTtl
ttl_from_state_item item wall_now = stored_ttl item.ttl_remaining item.expires_wall wall_now

-- The arguments of the command line; `config` is what `CacheConfig.from_file` made of `--config`.
pub record Args : Type 0 where
  pub config : Option CacheConfig
  pub capacity : ℤ
  pub policy : String
  pub shards : ℤ
  pub default_ttl : Option ℤ

-- The defaults of `CacheConfig`, where a hundredth of a second is so many ticks.
abbrev pub default_config : ℕ → CacheConfig
default_config hundredth = record {
  capacity = pos 128;
  default_ttl = none;
  policy = "lru";
  shard_count = pos 1;
  worker_count = pos 0;
  backend = "memory";
  write_mode = "cache-only";
  scheduler_interval = pos (100 * hundredth);
  queue_size = pos 0;
  write_back_retry_count = pos 2;
  write_back_retry_delay = pos hundredth;
  shutdown_flush = true;
  active_expiration = true;
}

unfoldable pub config_from_args : ℕ → Args → CacheConfig
config_from_args hundredth args = elim args.config [
  | some c ↦ c
  | none ↦ record (default_config hundredth) {
    capacity = args.capacity;
    policy = args.policy;
    shard_count = args.shards;
    default_ttl = args.default_ttl;
  }
]

abbrev pub saved_ttl : Option ℕ → Field
saved_ttl none = null
saved_ttl (some n) = number (pos n)

abbrev pub saved_config : CacheConfig → SavedConfig
saved_config c = record {
  capacity = c.capacity;
  policy = c.policy;
  shard_count = c.shard_count;
  default_ttl = c.default_ttl;
}

module _ {K V : Type 0} where
  -- An entry of the list that `_save_cache_state` writes.
  unfoldable pub item_of : Snapshot K V → StateItem K V
  item_of snap = record {
    key = snap.key;
    value = snap.value;
    ttl_remaining = saved_ttl snap.ttl_remaining;
    expires_wall = absent;
    hit_count = some (pos snap.hit_count);
  }

  -- `[item for item in state.get("entries", []) if isinstance(item, dict) and "key" in item]`
  abbrev pub items_of : List (Option (StateItem K V)) → List (StateItem K V)
  items_of [] = []
  items_of (none ∷ items) = items_of items
  items_of (some item ∷ items) = item ∷ items_of items

module _ {K V : Type 0} ⦃h : Hashable K⦄ where
  module _ ⦃stable : StableHash K⦄ where
    abbrev pub restore_hits : K → Option ℤ → Exec (Cache K V) (Unit {0})
    restore_hits k none = pure tt
    restore_hits k (some z) =
        if is_nonpositive z then pure tt else restore_entry_metadata k (pos_part z)

    abbrev pub load_as : StoredTtl → StateItem K V → Exec (Cache K V) (Unit {0})
    load_as skip item = pure tt
    load_as (keep ttl) item =
        put_value item.key item.value ttl >> restore_hits item.key item.hit_count

    -- The loop of `_load_cache_state`, and the call of `size` after it.
    unfoldable pub load_items : List (StateItem K V) → ℕ → Exec (Cache K V) ℕ
    load_items [] wall_now = size_all
    load_items (item ∷ items) wall_now =
        load_as (ttl_from_state_item item wall_now) item >> load_items items wall_now

    abbrev pub loaded : Result ℕ × Cache K V → Result (Cache K V)
    loaded (ok n, c) = ok c
    loaded (err e, c) = err e

    abbrev pub load_into : Result (Cache K V) → List (StateItem K V) → ℕ → Result (Cache K V)
    load_into (ok c) items wall_now = loaded (load_items items wall_now c)
    load_into (err e) items wall_now = err e

  module _ ⦃stable : StableHash K⦄ (lower : String → String) (hundredth : ℕ) (source : SlowDict K V)
      (clock : FakeClock) (wall_now : ℕ) where
    unfoldable pub load_cache_state : Args → SavedState K V → Result (Cache K V)
    load_cache_state args state =
        load_into (init lower (config_from_args hundredth args) source clock)
          (items_of state.entries) wall_now
