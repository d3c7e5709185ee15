-- ===== src/StateLock.antt =====
-- `StateFileLock` of src/cachelab/storage/serialization.py: a lock file that commands take in turn.
-- A removal of the file succeeds, and no other process acts within a try.
-- Time is in ticks, and the wall clock and the monotonic clock run alike.
pub mod Waiting
use cache_system.Prelude.{
  ℕ, zero, suc, ◌+◌, ◌-◌, Bool, true, false, Option, none, some, leb, if◌then◌else◌,
}
use cache_system.Exec.{Result, ok, err, os_error}

-- The lock file, by the time at which it was made, and the clock.
pub record Disk : Type 0 where
  pub lock : Option ℕ
  pub now : ℕ

-- The constants of the code in ticks, `_STALE_LOCK_SECONDS` and the pause between two tries, and
-- what other processes make of the lock file in a pause that starts at some time.
pub record World : Type 0 where
  pub stale_after : ℕ
  pub pause : ℕ
  pub others : ℕ → Option ℕ → Option ℕ

module _ (world : World) where
  -- A lock file that is gone counts as stale.
  unfoldable pub lock_is_stale : Disk → Bool
  lock_is_stale disk = elim disk.lock [
    | none ↦ true
    | some made ↦ leb world.stale_after (disk.now - made)
  ]

  -- To open a new file, or to remove a stale one for the next try.
  unfoldable pub try_acquire : Disk → Bool × Disk
  unfolding lock_is_stale
  try_acquire disk = elim disk.lock [
    | none ↦ (true, record disk { lock = some disk.now })
    | some made ↦ (false, if lock_is_stale disk then record disk { lock = none } else disk)
  ]

  -- `time.sleep(0.05)`
  abbrev pub sleep : Disk → Disk
  sleep disk = record { lock = world.others disk.now disk.lock; now = disk.now + world.pause }

  -- The loop of `__enter__`, for a number of tries; `none` if they are used up. TimeoutError is an
  -- OSError.
  unfoldable pub enter_by : ℕ → ℕ → Disk → Option (Result (Unit {0}) × Disk)
  unfolding try_acquire
  enter_by zero deadline disk = none
  enter_by (suc tries) deadline disk =
      let (acquired, left) = try_acquire disk in
      let again = enter_by tries deadline (sleep left) in
      if acquired
      then some (ok tt, left)
      else if leb deadline left.now
      then some (err os_error, left)
      else again

  -- `__enter__`, with as many tries as the timeout has ticks, and one more.
  abbrev pub enter : ℕ → Disk → Option (Result (Unit {0}) × Disk)
  enter timeout disk = enter_by (suc timeout) (disk.now + timeout) disk

  -- `__exit__`
  abbrev pub exit : Disk → Disk
  exit disk = record disk { lock = none }
