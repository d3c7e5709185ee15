-- ===== src/Source.antt =====
-- src/cachelab/storage/slow_dict.py: the source of truth, with failures that tests inject.
use cache_system.Prelude.{ℕ, zero, suc, ◌+◌, Option}
use cache_system.Prelude.Int.{ℤ}
use cache_system.Exec.{Exec, Result, ok, err, os_error, ◌>>◌, modify}
use cache_system.Dict.{Hashable, Dict, get, put, pop}
use cache_system.Clock.{FakeClock, sleep}

-- Its clock is its own, and is not the one that the cache reads.
pub record SlowDict (K V : Type 0) : Type 0 where
  pub delay : ℤ
  pub clock : FakeClock
  pub entries : Dict K V
  pub failures_remaining : ℕ

module _ {K V : Type 0} where
  unfoldable pub fail_next : ℕ → SlowDict K V → SlowDict K V
  fail_next count s = record s { failures_remaining = s.failures_remaining + count }

  -- `sleep` of a delay that is not positive does nothing.
  unfoldable pub delay_only : SlowDict K V → SlowDict K V
  delay_only s = record s { clock = sleep s.delay s.clock }

  abbrev fail_once : ℕ → SlowDict K V → Result (Unit {0}) × SlowDict K V
  fail_once zero s = (ok tt, s)
  fail_once (suc n) s = (err os_error, record s { failures_remaining = n })

  -- `_maybe_delay_and_fail`
  unfoldable pub delay_and_fail : Exec (SlowDict K V) (Unit {0})
  unfolding delay_only
  delay_and_fail s = fail_once s.failures_remaining (delay_only s)

module _ {K V : Type 0} ⦃h : Hashable K⦄ where
  unfoldable pub put_value : K → V → Exec (SlowDict K V) (Unit {0})
  put_value k v = delay_and_fail >> modify (λ s. record s { entries = put k v s.entries })

  unfoldable pub delete_value : K → Exec (SlowDict K V) (Unit {0})
  delete_value k = delay_and_fail >> modify (λ s. record s { entries = pop k s.entries })

  unfoldable pub get_value : K → Exec (SlowDict K V) (Option V)
  get_value k s = let s' = delay_only s in (ok (get k s'.entries), s')
