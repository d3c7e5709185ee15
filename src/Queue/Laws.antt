-- ===== src/Queue/Laws.antt =====
-- The bound of the queue, the order of its jobs, and what it counts.
use cache_system.Prelude.{
  ◌+◌, ◌-◌, ◌≤◌, ◌<◌, ◌≡◌, ◌⊎◌, refl, ◌∙◌, inl, inr, Bool-cases, true, false, List, [], ◌∷◌, ◌++◌,
  arith, length, length-append,
}
use cache_system.Jobs.{Job}
use cache_system.Queue.{JobQueue, is_full, depth, put, offer, get, task_done, drain_from, drain}

module _ {K V : Type 0} where
  -- A bounded queue holds at most `maxsize` jobs.
  pub record IsValid (q : JobQueue K V) : Type 0 where
    pub bounded : (q.maxsize ≡ 0) ⊎ (depth q ≤ q.maxsize)

  pub put-IsValid : (job : Job K V) (q : JobQueue K V) → IsValid q → IsValid (put job q).1
  unfolding put
  put-IsValid job q v = ground (arith, length-append q.items (job ∷ []))

  pub offer-IsValid : (job : Job K V) (q : JobQueue K V) → IsValid q → IsValid (offer job q).1
  unfolding offer
  offer-IsValid job q v = ground (arith, length-append q.items (job ∷ []))

  pub get-IsValid : (q : JobQueue K V) → IsValid q → IsValid (get q).1
  unfolding get
  get-IsValid q v = ground arith

  pub task_done-IsValid : (q : JobQueue K V) → IsValid q → IsValid (task_done q).1
  unfolding task_done
  task_done-IsValid q v = ground arith

  drain_from-lem :
      (l : List (Job K V)) (q : JobQueue K V)
      → ((drain_from l q).0 ≡ length l)
        × ((drain_from l q).1.items ≡ [])
        × ((drain_from l q).1.dropped ≡ q.dropped)
        × ((drain_from l q).1.unfinished_tasks ≡ q.unfinished_tasks - length l)
  unfolding drain_from task_done
  drain_from-lem [] q = (refl, refl, refl, omega arith)
  drain_from-lem (job ∷ l) q =
      let done : JobQueue K V = (task_done (record q { items = l })).1 in
      let ih = drain_from-lem l done in
      (ground (arith, ih.0), ih.1, ground (arith, ih.2), ground (arith, ih.3))

  maxsize-drain_from :
      (l : List (Job K V)) (q : JobQueue K V) → (drain_from l q).1.maxsize ≡ q.maxsize
  unfolding drain_from task_done
  maxsize-drain_from [] q = refl
  maxsize-drain_from (job ∷ l) q =
      maxsize-drain_from l (task_done (record q { items = l })).1 ∙ ground arith

  pub drain-IsValid : (q : JobQueue K V) → IsValid q → IsValid (drain q).1
  unfolding drain
  drain-IsValid q v = record {
    bounded = ground (arith, (drain_from-lem q.items q).1, maxsize-drain_from q.items q);
  }

  -- If at least the jobs of the queue are counted as unfinished, draining takes out every job,
  -- reports how many they were, and lowers the count of unfinished jobs by as many.
  pub drain_lem :
      (q : JobQueue K V)
      → depth q ≤ q.unfinished_tasks
      → ((drain q).0 ≡ depth q)
        × ((drain q).1.items ≡ [])
        × ((drain q).1.dropped ≡ q.dropped)
        × ((drain q).1.unfinished_tasks + depth q ≡ q.unfinished_tasks)
  unfolding drain
  drain_lem q v = let d = drain_from-lem q.items q in (d.0, d.1, d.2, ground (arith, d.3))

  -- A job is refused exactly by a full queue; a refusal changes nothing but the count of refusals,
  -- and a job that is taken comes last.
  pub put_lem :
      (job : Job K V) (q : JobQueue K V)
      → ((put job q).0 ≡ false)
          × (0 < q.maxsize)
          × (q.maxsize ≤ depth q)
          × ((put job q).1 ≡ record q { dropped = q.dropped + 1 })
        ⊎ ((put job q).0 ≡ true)
          × ((q.maxsize ≡ 0) ⊎ (depth q < q.maxsize))
          × ((put job q).1.items ≡ q.items ++ job ∷ [])
          × ((put job q).1.dropped ≡ q.dropped)
          × ((put job q).1.unfinished_tasks ≡ q.unfinished_tasks + 1)
  unfolding put
  put_lem job q = elim (Bool-cases (is_full q)) [
    | inl full ↦ inl (ground arith, ground arith, ground arith, ground arith)
    | inr room ↦ inr (ground arith, ground arith, ground arith, ground arith, ground arith)
  ]
