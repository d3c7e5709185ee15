-- ===== src/Config.antt =====
-- src/cachelab/core/config.py, storage/write_modes.py, and `make_policy` of policies/base.py.
-- Fractions of a second are whole ticks; `str.lower` of Python is the parameter `lower`.
pub mod Laws
pub mod Loading
use text.Mathlib.Text.{◌==◌}
use cache_system.Prelude.{
  ℕ, Bool, true, false, ◌&&◌, ◌||◌, not, String, Option, none, some, if◌then◌else◌,
}
use cache_system.Prelude.Int.{ℤ, pos, pos_part, is_negative, is_nonpositive, ltℤ}
use cache_system.Exec.{Result, ok, err, configuration_error, unsupported_write_mode_error}
use cache_system.Policy.{Policy, lru, fifo, lfu}
use cache_system.Policy.Ordered
use cache_system.Policy.Lfu

pub record CacheConfig : Type 0 where
  pub capacity : ℤ
  pub default_ttl : Option ℤ
  pub policy : String
  pub shard_count : ℤ
  pub worker_count : ℤ
  pub backend : String
  pub write_mode : String
  pub scheduler_interval : ℤ
  pub queue_size : ℤ
  pub write_back_retry_count : ℤ
  pub write_back_retry_delay : ℤ
  pub shutdown_flush : Bool
  pub active_expiration : Bool

pub data WriteMode : Type 0 where
  cache_only write_through write_back : WriteMode

-- `WriteMode(mode)`, whose ValueError becomes UnsupportedWriteModeError.
unfoldable pub parse_write_mode : String → Result WriteMode
parse_write_mode s =
    if s == "cache-only"
    then ok cache_only
    else if s == "write-through"
    then ok write_through
    else if s == "write-back"
    then ok write_back
    else err unsupported_write_mode_error

abbrev supported_policy : String → Bool
supported_policy s = s == "lru" || s == "lfu" || s == "fifo"

abbrev supported_write_mode : String → Bool
supported_write_mode s = s == "cache-only" || s == "write-through" || s == "write-back"

abbrev negative_ttl : Option ℤ → Bool
negative_ttl none = false
negative_ttl (some z) = is_negative z

module _ (lower : String → String) where
  -- `__post_init__`: the first test that fails raises.
  unfoldable pub post_init : CacheConfig → Result (Unit {0})
  post_init c =
      if ltℤ c.capacity (pos 1)
      then err configuration_error
      else if is_nonpositive c.shard_count
      then err configuration_error
      else if ltℤ c.capacity c.shard_count
      then err configuration_error
      else if negative_ttl c.default_ttl
      then err configuration_error
      else if is_negative c.worker_count
      then err configuration_error
      else if is_negative c.queue_size
      then err configuration_error
      else if is_negative c.scheduler_interval
      then err configuration_error
      else if c.active_expiration && is_nonpositive c.scheduler_interval
      then err configuration_error
      else if is_negative c.write_back_retry_count
      then err configuration_error
      else if not (supported_policy (lower c.policy))
      then err configuration_error
      else if not (supported_write_mode c.write_mode)
      then err configuration_error
      else if not (c.backend == "memory")
      then err configuration_error
      else ok tt

  unfoldable pub make_policy : {K : Type 0} → String → Result (Policy K)
  make_policy name =
      let normalized : String = lower name in
      if normalized == "fifo"
      then ok (fifo Ordered.clear)
      else if normalized == "lru"
      then ok (lru Ordered.clear)
      else if normalized == "lfu"
      then ok (lfu Lfu.clear)
      else err configuration_error
