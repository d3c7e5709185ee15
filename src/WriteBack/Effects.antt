-- ===== src/WriteBack/Effects.antt =====
-- What a worker does to the source of truth, and to the entry whose write it has made.
use cache_system.Prelude.{◌≡◌, ◌≢◌, refl, Option, some, arith}
use cache_system.Exec.{Error, ok, err, ◌>>◌}
use cache_system.Dict.{Hashable, get}
use cache_system.Dict.Laws.{get-put, get-pop}
use cache_system.Jobs.{Operation, write, delete, unknown}
use cache_system.Source
use cache_system.Source.{SlowDict, delay_and_fail, delay_only}
use cache_system.WriteBack.{apply_operation}

-- What a call that returned has left of its key in the source.
abbrev pub Written : {V : Type 0} → Operation V → Option V → Type 0
Written (write v) stored = stored ≡ some v
Written delete stored = Unit
Written (unknown s) stored = Unit

module _ {K V : Type 0} ⦃h : Hashable K⦄ (src : SlowDict K V) (k : K) where
  abbrev pub after : Operation V → SlowDict K V
  after o = (apply_operation o k src).1

  pub written :
      (v : V)
      → (apply_operation (write v) k src).0 ≡ ok tt
      → get k (after (write v)).entries ≡ some v
  unfolding Source.put_value delay_and_fail ◌>>◌
  written v e = ground (arith, get-put k k v src.entries)

  pub others_kept : (o : Operation V) (j : K) → k ≢ j → get j (after o).entries ≡ get j src.entries
  unfolding Source.put_value Source.delete_value delay_and_fail ◌>>◌
  others_kept (write v) j n = ground (arith, get-put k j v src.entries)
  others_kept delete j n = ground (arith, get-pop k j src.entries)
  others_kept (unknown s) j n = refl

  pub failed_kept :
      (o : Operation V) (x : Error)
      → (apply_operation o k src).0 ≡ err x
      → (after o).entries ≡ src.entries
  unfolding Source.put_value Source.delete_value delay_and_fail ◌>>◌
  failed_kept (write v) x e = ground arith
  failed_kept delete x e = ground arith
  failed_kept (unknown s) x e = refl
