-- ===== src/Config/Loading.antt =====
-- `_normalize_config` of src/cachelab/core/config.py: the keys of a TOML table to the fields of a
-- configuration. A value is of any type.
pub mod Fields
use text.Mathlib.Text
use text.Mathlib.TextEquality.{eq_iff}
use mathlib.Core.Bool.{Bool-discrete}
use cache_system.Prelude.{
  ◌≡◌, Bool, true, false, String, Option, none, some, List, [], ◌∷◌, ◌++◌, dite, if◌then◌else◌,
}
use cache_system.Exec.{Result, ok, err, configuration_error}
use cache_system.Dict.{Hashable, Dict, get, put, contains}

-- Shut in proofs, where a split yields the equation or its negation.
instance unfoldable pub string_hashable : Hashable String
string_hashable = record {
  eq_dec = λ s t.
      dite (Bool-discrete (Text.◌==◌ s t) true) (λ same. yes ((eq_iff s t).0 same))
        (λ differ. no (λ p. differ ((eq_iff s t).1 p)));
}

unfoldable pub aliases : Dict String String
aliases =
    ("default TTL", "default_ttl")
    ∷ ("default_ttl_seconds", "default_ttl")
    ∷ ("shards", "shard_count")
    ∷ ("workers", "worker_count")
    ∷ ("queue_maxsize", "queue_size")
    ∷ ("retry_count", "write_back_retry_count")
    ∷ ("retry_delay", "write_back_retry_delay")
    ∷ []

-- `CacheConfig.__dataclass_fields__`
unfoldable pub valid : Dict String (Unit {0})
valid =
    ("capacity", tt)
    ∷ ("default_ttl", tt)
    ∷ ("policy", tt)
    ∷ ("shard_count", tt)
    ∷ ("worker_count", tt)
    ∷ ("backend", tt)
    ∷ ("write_mode", tt)
    ∷ ("scheduler_interval", tt)
    ∷ ("queue_size", tt)
    ∷ ("write_back_retry_count", tt)
    ∷ ("write_back_retry_delay", tt)
    ∷ ("shutdown_flush", tt)
    ∷ ("shutdown_timeout", tt)
    ∷ ("active_expiration", tt)
    ∷ ("queue_put_timeout", tt)
    ∷ []

-- `aliases.get(key, key)`
unfoldable pub field_of : String → String
field_of key = elim (get key aliases) [ none ↦ key | some field ↦ field ]

unfoldable pub is_field : String → Bool
is_field field = contains field valid

module _ {V : Type 0} where
  -- One round of the loop: `normalized` and `unknown`.
  unfoldable pub take_item : String → V → Dict String V × List String → Dict String V × List String
  take_item key value (normalized, unknown) =
      if is_field (field_of key)
      then (put (field_of key) value normalized, unknown)
      else (normalized, unknown ++ key ∷ [])

  unfoldable pub take_items :
      Dict String V → Dict String V × List String → Dict String V × List String
  take_items [] done = done
  take_items ((key, value) ∷ items) done = take_items items (take_item key value done)

  abbrev pub unless_unknown : Dict String V × List String → Result (Dict String V)
  unless_unknown (normalized, []) = ok normalized
  unless_unknown (normalized, key ∷ unknown) = err configuration_error

  unfoldable pub normalize_config : Dict String V → Result (Dict String V)
  normalize_config items = unless_unknown (take_items items ([], []))
