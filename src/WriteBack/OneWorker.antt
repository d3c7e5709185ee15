-- ===== src/WriteBack/OneWorker.antt =====
-- What one worker may leave in the source of truth.
use cache_system.Prelude.{
  ℕ, zero, suc, ◌<◌, ◌≡◌, refl, true, false, some, List, [], ◌∷◌, arith, sym, subst, get_elem?, set,
}
use cache_system.Dict
use cache_system.Dict.{Hashable, ◌≟◌, Dict, get, values}
use cache_system.Entry.{Entry}
use cache_system.Source.{SlowDict}
use cache_system.WriteBack.Sound.{Clean, count}
use cache_system.WriteBack.Steps.{
  Worker, idle, checked, applied, System, Step, put, put_refused, remove, remove_refused, read,
  expire, take, skip, apply, retry, give_up, finish, Reach, here, next,
}
use cache_system.WriteBack.Synced.{IsSynced, put-IsSynced, remove-IsSynced}
use cache_system.WriteBack.Sections.{
  put_refused-IsSynced, remove_refused-IsSynced, read-IsSynced, expire-IsSynced, take-IsSynced,
  skip-IsSynced, apply-IsSynced, retry-IsSynced, give_up-IsSynced, finish-IsSynced,
}
use cache_system.Policy.{Policy, tracks}
use cache_system.Policy.Contract
use cache_system.Shard.Placement.{is_ordered}
use cache_system.Cache.Init.{new_shard}
use cache_system.Cache.Fresh.{new_shard-IsSettled}

-- The list of one worker.
pick :
    {A : Type 0} (xs : List A) (i : ℕ) (x u y : A)
    → xs ≡ x ∷ []
    → get_elem? xs i ≡ some u
    → (u ≡ x) × (set xs i y ≡ y ∷ [])
pick [] i x u y e g = absurd (ground arith)
pick (z ∷ xs) zero x u y e g = (ground arith, ground arith)
pick (z ∷ xs) (suc i) x u y e g = absurd (ground arith)

module _ {K V : Type 0} ⦃h : Hashable K⦄ where
  Step-IsSynced :
      {s t : System K V} {w : Worker K V}
      → Step s t
      → IsSynced s w
      → (u : Worker K V) × IsSynced t u
  Step-IsSynced {s} {w = w} (put k x ttl now default_ttl retries) v =
      (w, put-IsSynced s w k x ttl now default_ttl retries v)
  Step-IsSynced {s} {w = w} (put_refused k x ttl now default_ttl) v =
      (w, put_refused-IsSynced s w k x ttl now default_ttl v)
  Step-IsSynced {s} {w = w} (remove k retries) v = (w, remove-IsSynced s w k retries v)
  Step-IsSynced {s} {w = w} (remove_refused k) v = (w, remove_refused-IsSynced s w k v)
  Step-IsSynced {s} {w = w} (read k touched counted now) v =
      (w, read-IsSynced s w k touched counted now v)
  Step-IsSynced {s} {w = w} (expire now) v = (w, expire-IsSynced s w now v)
  Step-IsSynced {s} {w = w} (take i job rest at q fresh) v =
      let (same, alone) = pick s.workers i w idle (checked job) v.alone at in
      (checked job, take-IsSynced s job rest _ alone q fresh (subst (IsSynced s) (sym same) v))
  Step-IsSynced {s} {w = w} (skip i job rest at q stale) v =
      let (same, alone) = pick s.workers i w idle idle v.alone at in
      (idle, skip-IsSynced s job rest q (subst (IsSynced s) (sym same) v))
  Step-IsSynced {s} {w = w} (apply i job at e) v =
      let (same, alone) = pick s.workers i w (checked job) (applied job) v.alone at in
      (applied job, apply-IsSynced s job _ alone e (subst (IsSynced s) (sym same) v))
  Step-IsSynced {s} {w = w} (retry i job x at e left) v =
      let (same, alone) = pick s.workers i w (checked job) idle v.alone at in
      (idle, retry-IsSynced s job x _ alone e (subst (IsSynced s) (sym same) v))
  Step-IsSynced {s} {w = w} (give_up i job x at e) v =
      let (same, alone) = pick s.workers i w (checked job) idle v.alone at in
      (idle, give_up-IsSynced s job x _ alone e (subst (IsSynced s) (sym same) v))
  Step-IsSynced {s} {w = w} (finish i job at) v =
      let (same, alone) = pick s.workers i w (applied job) idle v.alone at in
      (idle, finish-IsSynced s job _ alone (subst (IsSynced s) (sym same) v))

  Reach-IsSynced :
      {s t : System K V} {w : Worker K V}
      → Reach s t
      → IsSynced s w
      → (u : Worker K V) × IsSynced t u
  Reach-IsSynced {w = w} here v = (w, v)
  Reach-IsSynced (next r step) v = Step-IsSynced step (Reach-IsSynced r v).1

  -- A new shard, an empty queue, and workers that have no job.
  abbrev pub start : ℕ → ℕ → Policy K → SlowDict K V → List (Worker K V) → System K V
  start index capacity p source workers = record {
    shard = new_shard index capacity p;
    source = source;
    queue = [];
    workers = workers;
  }

  start-IsSynced :
      (index capacity : ℕ) (p : Policy K) (source : SlowDict K V)
      → Contract.IsValid p
      → ((k : K) → tracks k p ≡ false)
      → is_ordered p ≡ true
      → 0 < capacity
      → IsSynced (start index capacity p source (idle ∷ [])) idle
  unfolding count
  start-IsSynced index capacity p source v empty o room = record {
    alone = refl;
    core = record {
      settled = new_shard-IsSettled V index capacity p v empty;
      ordered = o;
      room = room;
      clean = λ k. unfold Dict.get in tt;
      sound = tt;
      counted = λ k. omega arith;
    };
    hand = tt;
  }

  -- With one worker, a new shard whose policy evicts by an order of the keys and has room for an
  -- entry, and any interleaving of puts, deletions, reads, sweeps of expired entries and sections of
  -- the worker, failed calls of the source, retries and refused jobs among them: an entry that is
  -- not dirty has its value in the source of truth.
  pub clean_in_source :
      (index capacity : ℕ) (p : Policy K) (source : SlowDict K V) (t : System K V) (k : K)
      (e : Entry K V)
      → Contract.IsValid p
      → ((j : K) → tracks j p ≡ false)
      → is_ordered p ≡ true
      → 0 < capacity
      → Reach (start index capacity p source (idle ∷ [])) t
      → get k t.shard.backend ≡ some e
      → e.dirty ≡ false
      → get k t.source.entries ≡ some e.value
  clean_in_source index capacity p source t k e v empty o room r n =
      subst (λ a. Clean a (get k t.source.entries)) n
        ((Reach-IsSynced r (start-IsSynced index capacity p source v empty o room)).1.core.clean k)
