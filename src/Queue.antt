-- ===== src/Queue.antt =====
-- src/cachelab/workers/queue.py: the bounded queue of jobs, over Python's `queue.Queue`.
-- A critical `put` waits for room up to its timeout. One that found room is the same `put` made
-- after the step of the worker that made the room, so the model has only the moment at which the
-- wait ends.
pub mod Laws
use cache_system.Prelude.{
  ℕ, zero, suc, ◌+◌, Bool, true, false, ◌&&◌, Option, none, some, List, [], ◌∷◌, ◌++◌, length, ltb,
  leb, ◌==◌, if◌then◌else◌,
}
use cache_system.Exec.{Exec, Result, ok, err, value_error}
use cache_system.Jobs.{Job}

pub record JobQueue (K V : Type 0) : Type 0 where
  -- 0 for a queue with no bound
  pub maxsize : ℕ
  pub items : List (Job K V)
  -- jobs put and not yet reported done
  pub unfinished_tasks : ℕ
  pub dropped : ℕ

module _ {K V : Type 0} where
  abbrev pub empty : ℕ → JobQueue K V
  empty maxsize = record { maxsize = maxsize; items = []; unfinished_tasks = 0; dropped = 0 }

  abbrev pub depth : JobQueue K V → ℕ
  depth q = length q.items

  abbrev pub is_full : JobQueue K V → Bool
  is_full q = ltb 0 q.maxsize && leb q.maxsize (depth q)

  abbrev append : Job K V → JobQueue K V → JobQueue K V
  append job q = record q { items = q.items ++ job ∷ []; unfinished_tasks = q.unfinished_tasks + 1 }

  -- A refusal is counted.
  unfoldable pub put : Job K V → JobQueue K V → Bool × JobQueue K V
  put job q =
      if is_full q then (false, record q { dropped = q.dropped + 1 }) else (true, append job q)

  unfoldable pub offer : Job K V → JobQueue K V → Bool × JobQueue K V
  offer job q = if is_full q then (false, q) else (true, append job q)

  abbrev pop_front : List (Job K V) → JobQueue K V → Option (Job K V) × JobQueue K V
  pop_front [] q = (none, q)
  pop_front (job ∷ rest) q = (some job, record q { items = rest })

  -- `none` is the exception `queue.Empty`.
  unfoldable pub get : JobQueue K V → Option (Job K V) × JobQueue K V
  get q = pop_front q.items q

  abbrev count_down : ℕ → JobQueue K V → Result (Unit {0}) × JobQueue K V
  count_down zero q = (err value_error, q)
  count_down (suc n) q = (ok tt, record q { unfinished_tasks = n })

  unfoldable pub task_done : Exec (JobQueue K V) (Unit {0})
  task_done q = count_down q.unfinished_tasks q

  -- The loop of `drain`, which ends when no item is left.
  unfoldable pub drain_from : List (Job K V) → JobQueue K V → ℕ × JobQueue K V
  unfolding task_done
  drain_from [] q = (0, record q { items = [] })
  drain_from (job ∷ rest) q =
      let (n, r) = drain_from rest (task_done (record q { items = rest })).1 in (n + 1, r)

  unfoldable pub drain : JobQueue K V → ℕ × JobQueue K V
  unfolding drain_from
  drain q = drain_from q.items q

  -- What `join_until` returns when its wait ends.
  unfoldable pub join_until : JobQueue K V → Bool
  join_until q = q.unfinished_tasks == 0
