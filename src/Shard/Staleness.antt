-- ===== src/Shard/Staleness.antt =====
-- Which flush jobs a worker still applies: those that carry the newest write or deletion of a key.
use cache_system.Prelude.{ℕ, ◌+◌, ◌≡◌, refl, Bool, true, some, arith, not, ◌==◌}
use cache_system.Dict.{Hashable, get, put}
use cache_system.Dict.Laws.{get-put, get-put_self}
use cache_system.Entry.{Entry}
use cache_system.Jobs.{FlushWriteBack, Operation, write, delete, unknown}
use cache_system.WriteBack.{or_zero, is_stale_write_back}
use cache_system.Shard.{Shard, next_version, register_pending, remove_entry, prune_marks}
use cache_system.Shard.Writes.{bury, delete_entry, delete_marked}
use cache_system.Shard.Invariant.{IsValid}

-- Whether a job for a key that has an entry of version `current` is superseded.
abbrev pub superseded : {V : Type 0} → Operation V → ℕ → ℕ → Bool
superseded (write x) version current = not (current == version)
superseded delete version current = true
superseded (unknown n) version current = true

-- The same for a key that was deleted at version `current`.
abbrev pub buried : {V : Type 0} → Operation V → ℕ → ℕ → Bool
buried (write x) version current = true
buried delete version current = not (current == version)
buried (unknown n) version current = true

module _ {K V : Type 0} ⦃h : Hashable K⦄ where
  -- In a valid shard, a job for a key that has an entry is stale unless it writes the version of
  -- that entry: jobs of older and newer versions are skipped, and so are deletions.
  pub is_stale_write_back_lem :
      (s : Shard K V) (job : FlushWriteBack K V) (e : Entry K V)
      → IsValid s
      → get job.key s.backend ≡ some e
      → is_stale_write_back s.version_marks s.tombstones job
        ≡ superseded job.operation job.version e.version
  unfolding is_stale_write_back
  is_stale_write_back_lem s job e v n = ground (arith, n, (v.key job.key).marks)

  pub delete_marked-marks :
      (s : Shard K V) (k : K)
      → (get k (delete_marked true k s).1.version_marks ≡ some (delete_marked true k s).0.0)
        × (get k (delete_marked true k s).1.tombstones ≡ some (delete_marked true k s).0.0)
        × ((delete_marked true k s).0.0 ≡ or_zero (get k s.version_marks) + 1)
  unfolding delete_marked bury next_version register_pending delete_entry remove_entry prune_marks
  delete_marked-marks s k = (
    ground (arith, marked, counted),
    ground (arith, marked, counted, get-put k k version s.tombstones),
    refl,
  )
    where
      version : ℕ
      version = or_zero (get k s.version_marks) + 1

      marked : get k (put k version s.version_marks) ≡ some version
      marked = get-put_self k version s.version_marks

      pending : ℕ
      pending = or_zero (get k s.pending_flushes) + 1

      counted : get k (put k pending s.pending_flushes) ≡ some pending
      counted = get-put_self k pending s.pending_flushes

  -- A deletion in write-back mode hands to its flush job the version after the newest mark of the
  -- key, and right after it a worker applies a job for the key exactly if it is a deletion with the
  -- version that was handed out; any other job for the key is stale.
  pub delete_marked-stale :
      (s : Shard K V) (job : FlushWriteBack K V)
      → ((delete_marked true job.key s).0.0 ≡ or_zero (get job.key s.version_marks) + 1)
        × (is_stale_write_back
              (delete_marked true job.key s).1.version_marks
              (delete_marked true job.key s).1.tombstones
              job
            ≡ buried job.operation job.version (delete_marked true job.key s).0.0)
  unfolding is_stale_write_back
  delete_marked-stale s job =
      let marks = delete_marked-marks s job.key in (marks.2, ground (arith, marks.0, marks.1))
