-- ===== src/WriteBack/Steps.antt =====
-- `_flush_write_back_job` of core/cache.py, a section at a time: workers of one shard and callers of
-- `put`, `delete`, `get` and expiry, interleaved in any order. A worker tests a job under the lock,
-- calls the source of truth without it, and ends the job under the lock again. Counters of the
-- runtime, the delay before a retry and the flights of `get_or_compute` are left out.
use cache_system.Prelude.{
  ℕ, ◌<◌, ◌≡◌, Bool, true, false, Option, some, List, [], ◌∷◌, ◌++◌, get_elem?, set,
}
use cache_system.Prelude.Int.{ℤ}
use cache_system.Exec.{Error, ok, err}
use cache_system.Dict.{Hashable}
use cache_system.Jobs.{Ttl, FlushWriteBack, Operation, write, delete}
use cache_system.Source.{SlowDict}
use cache_system.WriteBack.{is_stale_write_back, apply_write_back}
use cache_system.Shard.{Shard, read_value, resolve_pending}
use cache_system.Shard.Writes.{existing_entry, put_entry, delete_marked, expire_shard}
use cache_system.Cache.Flush.{clean_operation, retry_of}

-- Where a worker stands in `_flush_write_back_job`.
pub data Worker (K V : Type 0) : Type 0 where
  idle : Worker K V
  -- after the test for staleness
  checked : FlushWriteBack K V → Worker K V
  -- after the call of the source
  applied : FlushWriteBack K V → Worker K V

pub record System (K V : Type 0) : Type 0 where
  pub shard : Shard K V
  pub source : SlowDict K V
  pub queue : List (FlushWriteBack K V)
  pub workers : List (Worker K V)

module _ {K V : Type 0} where
  abbrev pub job_for : ℕ → K → Operation V → ℕ → ℕ → FlushWriteBack K V
  job_for index k o version retries = record {
    shard_index = index;
    key = k;
    operation = o;
    version = version;
    retries_left = retries;
    attempt = 0;
  }

  abbrev pub enqueue : FlushWriteBack K V → System K V → System K V
  enqueue job s = record s { queue = s.queue ++ job ∷ [] }

module _ {K V : Type 0} ⦃h : Hashable K⦄ where
  -- The section of `put` under the lock: the new version, and the shard.
  abbrev pub put_section : K → V → Ttl → ℕ → Option ℤ → Shard K V → ℕ × Shard K V
  put_section k x ttl now default_ttl s =
      put_entry k x ttl true now default_ttl (existing_entry k now s).0 (existing_entry k now s).1

  abbrev pub put_system : K → V → Ttl → ℕ → Option ℤ → ℕ → System K V → System K V
  put_system k x ttl now default_ttl retries s =
      let (version, t) = put_section k x ttl now default_ttl s.shard in
      enqueue (job_for s.shard.index k (write x) version retries) (record s { shard = t })

  abbrev pub remove_system : K → ℕ → System K V → System K V
  remove_system k retries s =
      let ((version, existed), t) = delete_marked true k s.shard in
      enqueue (job_for s.shard.index k delete version retries) (record s { shard = t })

  -- The job is dropped: its flush is no longer counted.
  abbrev pub release : K → Shard K V → Shard K V
  release k s = resolve_pending k s

  abbrev pub finished : FlushWriteBack K V → Shard K V → Shard K V
  finished job s = release job.key (clean_operation job.operation job.key job.version s)

  -- One section of a caller or of a worker.
  pub data Step (s : System K V) : System K V → Type 0 where
    put :
        (k : K) (x : V) (ttl : Ttl) (now : ℕ) (default_ttl : Option ℤ) (retries : ℕ)
        → Step s (put_system k x ttl now default_ttl retries s)
    -- the queue is full
    put_refused :
        (k : K) (x : V) (ttl : Ttl) (now : ℕ) (default_ttl : Option ℤ)
        → Step s (record s { shard = release k (put_section k x ttl now default_ttl s.shard).1 })
    remove : (k : K) (retries : ℕ) → Step s (remove_system k retries s)
    remove_refused :
        (k : K) → Step s (record s { shard = release k (delete_marked true k s.shard).1 })
    read :
        (k : K) (touched counted : Bool) (now : ℕ)
        → Step s (record s { shard = (read_value k touched counted now s.shard).1 })
    expire : (now : ℕ) → Step s (record s { shard = (expire_shard now s.shard).1 })
    take :
        (i : ℕ) (job : FlushWriteBack K V) (rest : List (FlushWriteBack K V))
        → get_elem? s.workers i ≡ some idle
        → s.queue ≡ job ∷ rest
        → is_stale_write_back s.shard.version_marks s.shard.tombstones job ≡ false
        → Step s (record s { queue = rest; workers = set s.workers i (checked job) })
    skip :
        (i : ℕ) (job : FlushWriteBack K V) (rest : List (FlushWriteBack K V))
        → get_elem? s.workers i ≡ some idle
        → s.queue ≡ job ∷ rest
        → is_stale_write_back s.shard.version_marks s.shard.tombstones job ≡ true
        → Step s (record s { queue = rest; shard = release job.key s.shard })
    apply :
        (i : ℕ) (job : FlushWriteBack K V)
        → get_elem? s.workers i ≡ some (checked job)
        → (apply_write_back job s.source).0 ≡ ok tt
        → Step s (record s {
          source = (apply_write_back job s.source).1;
          workers = set s.workers i (applied job);
        })
    retry :
        (i : ℕ) (job : FlushWriteBack K V) (e : Error)
        → get_elem? s.workers i ≡ some (checked job)
        → (apply_write_back job s.source).0 ≡ err e
        → 0 < job.retries_left
        → Step s (
            enqueue (retry_of job) (record s {
              source = (apply_write_back job s.source).1;
              workers = set s.workers i idle;
            }))
    -- no retry is left, or the queue is full
    give_up :
        (i : ℕ) (job : FlushWriteBack K V) (e : Error)
        → get_elem? s.workers i ≡ some (checked job)
        → (apply_write_back job s.source).0 ≡ err e
        → Step s (record s {
          source = (apply_write_back job s.source).1;
          workers = set s.workers i idle;
          shard = release job.key s.shard;
        })
    finish :
        (i : ℕ) (job : FlushWriteBack K V)
        → get_elem? s.workers i ≡ some (applied job)
        → Step s (record s { workers = set s.workers i idle; shard = finished job s.shard })

  pub data Reach (s : System K V) : System K V → Type 0 where
    here : Reach s s
    next : {t u : System K V} → Reach s t → Step t u → Reach s u
