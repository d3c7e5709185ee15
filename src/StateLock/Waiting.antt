-- ===== src/StateLock/Waiting.antt =====
-- How long the wait for the lock on the state file lasts.
use cache_system.Prelude.{
  ℕ, zero, suc, ◌+◌, ◌-◌, ◌<◌, ◌≤◌, ◌≡◌, refl, true, Option, none, some, leb, if◌then◌else◌, arith,
  is_some, Bool-cases, inl, inr, subst, sym,
}
use cache_system.Exec.{Result, ok}
use cache_system.StateLock.{Disk, World, lock_is_stale, try_acquire, sleep, enter_by, enter}

module _ (world : World) where
  now-try_acquire : (disk : Disk) → (try_acquire world disk).1.now ≡ disk.now
  unfolding try_acquire
  now-try_acquire disk = ground arith

  enter_by-is_some :
      (tries deadline : ℕ) (disk : Disk)
      → 0 < world.pause
      → deadline ≤ disk.now + tries
      → is_some (enter_by world (suc tries) deadline disk) ≡ true
  unfolding enter_by
  enter_by-is_some zero deadline disk p le = ground (arith, now-try_acquire disk)
  enter_by-is_some (suc tries) deadline disk p le = ground (
    arith,
    now-try_acquire disk,
    enter_by-is_some tries deadline (sleep world (try_acquire world disk).1) p
        (omega (arith, p, le, now-try_acquire disk)),
  )

  -- Whatever other processes do to the lock file, the wait ends within the tries that it is given:
  -- the lock is taken, or the timeout is reported.
  pub enter-is_some :
      (timeout : ℕ) (disk : Disk) → 0 < world.pause → is_some (enter world timeout disk) ≡ true
  enter-is_some timeout disk p = enter_by-is_some timeout (disk.now + timeout) disk p (omega arith)

  -- A lock that is there to be taken.
  enter_by-free :
      (tries deadline now : ℕ)
      → enter_by world (suc tries) deadline (record { lock = none; now = now })
        ≡ some (ok tt, record { lock = some now; now = now })
  unfolding enter_by try_acquire
  enter_by-free tries deadline now = refl

  module _ (idle : (t : ℕ) (l : Option ℕ) → world.others t l ≡ l) (made deadline : ℕ) where
    abbrev Taken : Option (Result (Unit {0}) × Disk) → Type 0
    Taken r =
        (at : ℕ) × (r ≡ some (ok tt, record { lock = some at; now = at }))
        × (at ≤ deadline + world.pause)

    -- One try of a waiting process, while no other acts.
    enter_by-held :
        (tries now : ℕ)
        → now < deadline
        → enter_by world (suc tries) deadline (record { lock = some made; now = now })
          ≡ enter_by world tries deadline (record {
            lock = if leb world.stale_after (now - made) then none else some made;
            now = now + world.pause;
          })
    unfolding enter_by try_acquire lock_is_stale
    enter_by-held tries now early = elim (Bool-cases (leb world.stale_after (now - made))) [
      | inl stale ↦ rw (stale, idle now none) (ground arith)
      | inr fresh ↦ rw (fresh, idle now (some made)) (ground arith)
    ]

    enter_by-Taken :
        (tries now : ℕ)
        → 0 < world.pause
        → made + world.stale_after + world.pause ≤ deadline
        → now < deadline
        → deadline ≤ now + tries
        → Taken (enter_by world (suc tries) deadline (record { lock = some made; now = now }))
    enter_by-Taken zero now p room early le = absurd (omega (arith, early, le))
    enter_by-Taken (suc tries) now p room early le =
        subst Taken (sym (enter_by-held (suc tries) now early))
          (elim (Bool-cases (leb world.stale_after (now - made))) [
            | inl stale ↦ rw stale (
              now + world.pause,
              enter_by-free tries deadline (now + world.pause),
              omega (arith, early),
            )
            | inr fresh ↦ rw fresh (
                enter_by-Taken tries (now + world.pause) p room (ground arith)
                  (omega (arith, p, le)))
          ])

  -- A lock whose holder is gone does not block the next process: if no other process acts and the
  -- lock becomes stale a pause before the timeout, it is taken, a pause after the timeout at the
  -- latest.
  pub enter-stale :
      (timeout now made : ℕ)
      → 0 < world.pause
      → ((t : ℕ) (l : Option ℕ) → world.others t l ≡ l)
      → made + world.stale_after + world.pause ≤ now + timeout
      → 0 < timeout
      → (at : ℕ) × (enter world timeout (record { lock = some made; now = now })
          ≡ some (ok tt, record { lock = some at; now = at }))
        × (at ≤ now + timeout + world.pause)
  enter-stale timeout now made p idle room wait =
      enter_by-Taken idle made (now + timeout) timeout now p room (omega (arith, wait))
        (omega arith)
