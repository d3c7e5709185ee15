-- ===== src/Clock.antt =====
-- src/cachelab/core/clock.py: `FakeClock`, in whole ticks of time. The cache reads no other clock
-- in a way that differs: `MonotonicClock` too only moves forward.
use cache_system.Prelude.{ℕ, ◌+◌, ◌≡◌, refl}
use cache_system.Prelude.Int.{ℤ, pos, negsuc, pos_part}
use cache_system.Exec.{Result, ok, err, value_error}

pub record FakeClock : Type 0 where
  pub now : ℕ

unfoldable pub advance : ℤ → FakeClock → Result FakeClock
advance (pos n) c = ok (record { now = c.now + n })
advance (negsuc n) c = err value_error

-- `sleep` advances by `max(0.0, seconds)`, which `advance` never refuses.
unfoldable pub sleep : ℤ → FakeClock → FakeClock
sleep z c = record { now = c.now + pos_part z }

pub sleep_lem : (z : ℤ) (c : FakeClock) → advance (pos (pos_part z)) c ≡ ok (sleep z c)
unfolding advance sleep
sleep_lem z c = refl
