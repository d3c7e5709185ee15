-- ===== src/Tests/Locks.antt =====
-- Runs of the theorems about the lock on the state file.
use cache_system.Prelude.{ℕ, ◌≤◌, ◌≡◌, refl, true, Option, none, some, is_some, arith}
use cache_system.Exec.{ok}
use cache_system.StateLock.{World, enter}
use cache_system.StateLock.Waiting.{enter-is_some, enter-stale}

-- A process that takes the lock whenever it is free.
abbrev greedy : ℕ → Option ℕ → Option ℕ
greedy t none = some t
greedy t (some made) = some made

abbrev world0 : World
world0 = record { stale_after = 30; pause = 2; others = greedy }

enter-is_some_example : is_some (enter world0 5 (record { lock = some 100; now = 129 })) ≡ true
enter-is_some_example = enter-is_some world0 5 (record { lock = some 100; now = 129 }) (omega arith)

-- The holder of the lock is gone.
abbrev alone0 : World
alone0 = record world0 { others = λ t l. l }

enter-stale_example :
    (at : ℕ) × (enter alone0 5 (record { lock = some 100; now = 127 })
      ≡ some (ok tt, record { lock = some at; now = at }))
    × (at ≤ 134)
enter-stale_example =
    enter-stale alone0 5 127 100 (omega arith) (λ t l. refl) (omega arith) (omega arith)
