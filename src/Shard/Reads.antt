-- ===== src/Shard/Reads.antt =====
-- The remaining operations: diagnostic reads, flags, and flights.
use cache_system.Prelude.{ℕ, ◌≡◌, some, arith}
use cache_system.Dict.{Hashable, Dict, get, put}
use cache_system.Dict.Laws.{get-put, put-IsDict, size-put}
use cache_system.Entry.{Entry}
use cache_system.Shard.{Shard}
use cache_system.Shard.Settled.{IsSettled}

module _ {K V : Type 0} ⦃h : Hashable K⦄ where
  pub singleflight-IsSettled :
      (s : Shard K V) (d : Dict K ℕ) → IsSettled s → IsSettled (record s { singleflight = d })
  singleflight-IsSettled s d v = record {
    valid = record {
      backend = v.valid.backend;
      policy = v.valid.policy;
      key = λ j. record {
        tracked = (v.valid.key j).tracked;
        marks = (v.valid.key j).marks;
        pruned = (v.valid.key j).pruned;
      };
    };
    bounded = v.bounded;
  }

  -- An entry that is changed in place, but for its key and version.
  pub update-IsSettled :
      (s : Shard K V) (k : K) (e f : Entry K V)
      → get k s.backend ≡ some e
      → f.key ≡ e.key
      → f.version ≡ e.version
      → IsSettled s
      → IsSettled (record s { backend = put k f s.backend })
  update-IsSettled s k e f found same_key same_version v = record {
    valid = record {
      backend = put-IsDict k f s.backend v.valid.backend;
      policy = v.valid.policy;
      key = λ j. ground (arith, v.valid.key j, v.valid.key k, get-put k j f s.backend);
    };
    bounded = ground (arith, found, size-put k f s.backend, v.bounded);
  }
