-- ===== src/WriteBack.antt =====
-- src/cachelab/workers/write_back_worker.py: which flush job may still be applied, and how.
pub mod Kind
pub mod Follows
pub mod Steps
pub mod Sound
mod Core
pub mod Effects
mod Synced
pub mod Cleaning
mod Sections
pub mod OneWorker
pub mod TwoWorkers
use cache_system.Prelude.{ℕ, Bool, true, false, ◌||◌, not, Option, none, some, leb, ◌==◌}
use cache_system.Exec.{Exec, raise, validation_error}
use cache_system.Dict.{Hashable, Dict, get}
use cache_system.Jobs.{FlushWriteBack, Operation, write, delete, unknown}
use cache_system.Source.{SlowDict, put_value, delete_value}

-- `d.get(k, 0)`
abbrev pub or_zero : Option ℕ → ℕ
or_zero none = 0
or_zero (some n) = n

-- `t is not None and t >= version`
abbrev reaches : Option ℕ → ℕ → Bool
reaches none version = false
reaches (some t) version = leb version t

-- `t == version`
abbrev is_version : Option ℕ → ℕ → Bool
is_version none version = false
is_version (some t) version = t == version

abbrev pub stale_operation : {V : Type 0} → Operation V → ℕ → Option ℕ → ℕ → Bool
stale_operation (write v) current tombstone version =
    not (current == version) || reaches tombstone version
stale_operation delete current tombstone version =
    not (current == version) || not (is_version tombstone version)
stale_operation (unknown s) current tombstone version = true

module _ {K V : Type 0} ⦃h : Hashable K⦄ where
  unfoldable pub is_stale_write_back : Dict K ℕ → Dict K ℕ → FlushWriteBack K V → Bool
  is_stale_write_back version_marks tombstones job =
      stale_operation job.operation (or_zero (get job.key version_marks)) (get job.key tombstones)
        job.version

  abbrev pub apply_operation : Operation V → K → Exec (SlowDict K V) (Unit {0})
  apply_operation (write v) k = put_value k v
  apply_operation delete k = delete_value k
  apply_operation (unknown s) k = raise validation_error

  unfoldable pub apply_write_back : FlushWriteBack K V → Exec (SlowDict K V) (Unit {0})
  apply_write_back job = apply_operation job.operation job.key
