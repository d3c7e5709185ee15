-- ===== src/Jobs.antt =====
-- src/cachelab/workers/messages.py: what the queue carries to the workers.
use cache_system.Prelude.{ℕ, String}
use cache_system.Prelude.Int.{ℤ}
use cache_system.Exec.{Result}

-- A lifetime that a caller passes: left out, `None`, or a number.
pub data Ttl : Type 0 where
  unset never : Ttl
  seconds : ℤ → Ttl

-- The field `operation` with the `value` that it uses; any other string is `unknown`.
pub data Operation (V : Type 0) : Type 0 where
  write : V → Operation V
  delete : Operation V
  unknown : String → Operation V

pub record FlushWriteBack (K V : Type 0) : Type 0 where
  pub shard_index : ℕ
  pub key : K
  pub operation : Operation V
  pub version : ℕ
  pub retries_left : ℕ
  pub attempt : ℕ

-- A loader is what it returns or raises when it is called.
pub data Job (K V : Type 0) : Type 0 where
  expire_shard : ℕ → Job K V
  flush_write_back : FlushWriteBack K V → Job K V
  preload_key : ℕ → K → Result V → Ttl → Job K V
  snapshot_stats : String → Job K V
  stop_worker : String → Job K V
