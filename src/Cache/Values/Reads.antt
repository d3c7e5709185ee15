-- ===== src/Cache/Values/Reads.antt =====
-- What a read may return after a history of calls.
use cache_system.Prelude.{
  ℕ, ◌+◌, ◌%◌, ◌≡◌, ◌⊎◌, refl, inl, inr, Bool, true, false, String, none, some, List, [], ◌∷◌, All,
  All-get_elem?, arith, length, ◌≢◌, get_elem?, if◌then◌else◌, Option-cases, Bool-cases, subst, ap,
}
use cache_system.Exec.{Result, ok, err, ◌>>=◌, ◌>>◌}
use cache_system.Exec.Triple.{Outcome}
use cache_system.Dict.{Hashable, get}
use cache_system.Entry.{is_expired}
use cache_system.Clock.{FakeClock}
use cache_system.Source.{SlowDict}
use cache_system.Config.{CacheConfig, WriteMode}
use cache_system.Policy.{Policy}
use cache_system.Shard.{Shard, read_value}
use cache_system.Cache.{
  Cache, StableHash, now, is_closed, require_not_closed, with_shard, shard_for,
}
use cache_system.Cache.Access.{get_value, put_value, delete_value, or_default}
use cache_system.Cache.Init.{init, build, new_shards}
use cache_system.Cache.Invariant.{IsValid}
use cache_system.Cache.Fresh.{IsValidResult, init-IsValid}
use cache_system.Cache.Run.{Call, step, run}
use cache_system.Cache.Values.{IsOneOf, Shows, Agrees}
use cache_system.Cache.Values.Calls.{
  update, get_value-Keeps, contains-Keeps, inspect-Keeps, dump-Keeps, expire_all-Keeps,
  restore_entry_metadata-Keeps,
}
use cache_system.Cache.Values.Writes.{
  put_value-Triple, delete_value-Triple, Agrees-mono, update_self, update-Includes,
}
use cache_system.Cache.Values.Loads.{get_or_compute-Keeps}

-- The calls of a caller that this history is about: no worker runs, and nothing is cleared.
abbrev pub is_foreground : {K V : Type 0} → Call K V → Bool
is_foreground (Call.get k d) = true
is_foreground (Call.put k v ttl) = true
is_foreground (Call.delete k) = true
is_foreground (Call.contains k) = true
is_foreground (Call.compute k loader ttl) = true
is_foreground Call.expire = true
is_foreground (Call.restore k n) = true
is_foreground (Call.inspect k) = true
is_foreground (Call.dump limit) = true
is_foreground (Call.wait z) = true
is_foreground _ = false

abbrev has_returned : {A : Type 0} → Result A → Bool
has_returned (ok a) = true
has_returned (err e) = false

-- A new cache shows nothing.
AllNew : {K V : Type 0} → List (Shard K V) → Type 0
AllNew shards = All (λ s. s.backend ≡ []) shards

new_shards-AllNew :
    {K : Type 0} (V : Type 0) (i : ℕ) (sizes : List ℕ) (p : Policy K)
    → AllNew (new_shards {V = V} i sizes p)
unfolding new_shards AllNew
new_shards-AllNew V i [] p = tt
new_shards-AllNew V i (l ∷ sizes) p = (refl, new_shards-AllNew V (i + 1) sizes p)

module _ {K V : Type 0} ⦃h : Hashable K⦄ ⦃stable : StableHash K⦄ where
  -- The values that the keys may have after a call: of the last `put` of a key alone, if it returned.
  unfoldable pub possible_step : Call K V → Cache K V → (K → List V) → K → List V
  possible_step (Call.put k v ttl) c m =
      if has_returned (put_value k v ttl c).0 then update k (v ∷ []) m else update k (v ∷ m k) m
  possible_step (Call.delete k) c m = if has_returned (delete_value k c).0 then update k [] m else m
  possible_step (Call.compute k (ok v) ttl) c m = update k (v ∷ m k) m
  possible_step _ c m = m

  unfoldable pub possible : List (Call K V) → Cache K V → (K → List V) → K → List V
  possible [] c m = m
  possible (call ∷ calls) c m = possible calls (step call c) (possible_step call c m)

  by_result :
      {A : Type 0} {n : ℕ} (m m' : K → List V) (r : Result A) (c : Cache K V)
      → Outcome (Agrees n m) (Agrees n m') r c
      → Agrees n (if has_returned r then m else m') c
  by_result m m' (ok x) c o = o
  by_result m m' (err e) c o = o

  step-Agrees :
      (n : ℕ) (m : K → List V) (call : Call K V) (c : Cache K V)
      → is_foreground call ≡ true
      → Agrees n m c
      → Agrees n (possible_step call c m) (step call c)
  unfolding step possible_step
  step-Agrees n m (Call.get k d) c p a = (get_value-Keeps n m k d).at c a
  step-Agrees n m (Call.contains k) c p a = (contains-Keeps n m k).at c a
  step-Agrees n m Call.expire c p a = (expire_all-Keeps n m).at c a
  step-Agrees n m (Call.restore k l) c p a = (restore_entry_metadata-Keeps n m k l).at c a
  step-Agrees n m (Call.inspect k) c p a = (inspect-Keeps n m k).at c a
  step-Agrees n m (Call.dump limit) c p a = (dump-Keeps n m limit).at c a
  step-Agrees n m (Call.wait z) c p a = a
  step-Agrees n m (Call.put k v ttl) c p a =
      by_result (update k (v ∷ []) m) (update k (v ∷ m k) m) (put_value k v ttl c).0 _
        ((put_value-Triple n k v ttl m).at c a)
  step-Agrees n m (Call.delete k) c p a =
      by_result (update k [] m) m (delete_value k c).0 _ ((delete_value-Triple n k m).at c a)
  step-Agrees n m (Call.compute k (ok v) ttl) c p a =
      (get_or_compute-Keeps n (update k (v ∷ m k) m) k (ok v) ttl
          (rw (update_self k (v ∷ m k) m) (inl refl))).at
        c
        (Agrees-mono n m (update k (v ∷ m k) m) (update-Includes k m [] (v ∷ m k) (λ x q. inr q)) c
          a)
  step-Agrees n m (Call.compute k (err e) ttl) c p a =
      (get_or_compute-Keeps n m k (err e) ttl tt).at c a
  step-Agrees n m Call.clear c p a = absurd (ground arith)
  step-Agrees n m (Call.preload k l t) c p a = absurd (ground arith)
  step-Agrees n m (Call.request_snapshot s) c p a = absurd (ground arith)
  step-Agrees n m Call.start c p a = absurd (ground arith)
  step-Agrees n m (Call.close f x y) c p a = absurd (ground arith)
  step-Agrees n m Call.tick c p a = absurd (ground arith)
  step-Agrees n m Call.work c p a = absurd (ground arith)

  run-Agrees :
      (n : ℕ) (m : K → List V) (calls : List (Call K V)) (c : Cache K V)
      → All (λ call. is_foreground call ≡ true) calls
      → Agrees n m c
      → Agrees n (possible calls c m) (run calls c)
  unfolding run possible
  run-Agrees n m [] c p a = a
  run-Agrees n m (call ∷ calls) c p a =
      run-Agrees n (possible_step call c m) calls (step call c) p.1 (step-Agrees n m call c p.0 a)

  -- A read returns the value of the entry, or none.
  read_value-Shows :
      (k : K) (touched counted : Bool) (t : ℕ) (s : Shard K V) (vs : List V) (d v : V)
      → Shows (get k s.backend) vs
      → or_default (read_value k touched counted t s).0 d ≡ v
      → (v ≡ d) ⊎ IsOneOf v vs
  unfolding read_value
  read_value-Shows k touched counted t s vs d v shown e = elim (Option-cases (get k s.backend)) [
    | inl n ↦ inl (ground (arith, n))
    | inr (x, n) ↦ elim (Bool-cases (is_expired x t)) [
      | inl gone ↦ inl (ground (arith, n))
      | inr live ↦
          inr (subst (λ y. IsOneOf y vs) (ground (arith, n)) (subst (λ o. Shows o vs) n shown))
    ]
  ]

  -- The result of `get`, by the shard that it reads.
  pub get_value-found :
      (k : K) (d : V) (c : Cache K V) (s : Shard K V)
      → is_closed c.state ≡ false
      → get_elem? c.shards (shard_for k c) ≡ some s
      → (get_value k d c).0 ≡ ok (or_default (read_value k true true (now c) s).0 d)
  unfolding get_value ◌>>=◌ ◌>>◌ require_not_closed with_shard read_value
  get_value-found k d c s o n = rw (o, n, with_shard) refl

  get_value-missing :
      (k : K) (d v : V) (c : Cache K V)
      → is_closed c.state ≡ false
      → get_elem? c.shards (shard_for k c) ≡ none
      → (get_value k d c).0 ≢ ok v
  unfolding get_value ◌>>=◌ ◌>>◌ require_not_closed with_shard
  get_value-missing k d v c o n = rw (o, n, with_shard) (λ p. cc p)

  get_value-closed :
      (k : K) (d v : V) (c : Cache K V) → is_closed c.state ≡ true → (get_value k d c).0 ≢ ok v
  unfolding get_value ◌>>=◌ ◌>>◌ require_not_closed with_shard
  get_value-closed k d v c o = rw o (λ p. cc p)

  get_value-IsOneOf :
      (n : ℕ) (m : K → List V) (k : K) (d v : V) (c : Cache K V)
      → Agrees n m c
      → (get_value k d c).0 ≡ ok v
      → (v ≡ d) ⊎ IsOneOf v (m k)
  unfolding shard_for
  get_value-IsOneOf n m k d v c a e = elim (Bool-cases (is_closed c.state)) [
    | inl shut ↦ absurd (get_value-closed k d v c shut e)
    | inr free ↦ elim (Option-cases (get_elem? c.shards (shard_for k c))) [
      | inl none_there ↦ absurd (get_value-missing k d v c free none_there e)
      | inr (s, there) ↦
          read_value-Shows k true true (now c) s (m k) d v
            (a.shows (shard_for k c) s k there (ap (λ l. stable.stable_hash k % l) a.size))
            (ground (arith, get_value-found k d c s free there, e))
    ]
  ]

  IsNew : Result (Cache K V) → Type 0
  IsNew (ok c) = AllNew c.shards
  IsNew (err e) = Unit

  built-IsNew :
      (config : CacheConfig) (source : SlowDict K V) (clock : FakeClock)
      (checked : Result (Unit {0})) (mode : Result WriteMode) (policy : Result (Policy K))
      → IsNew (build config source clock checked mode policy)
  unfolding IsNew
  built-IsNew config source clock (err e) mode policy = tt
  built-IsNew config source clock (ok _) (err e) policy = tt
  built-IsNew config source clock (ok _) (ok mode) (err e) = tt
  built-IsNew config source clock (ok _) (ok mode) (ok p) = new_shards-AllNew V 0 _ p

  new-Agrees : (c : Cache K V) → IsValid c → AllNew c.shards → Agrees (length c.shards) (λ k. []) c
  unfolding AllNew get
  new-Agrees c v e = record {
    settled = v.shards;
    size = refl;
    shows = λ i s k found here. rw (All-get_elem? (λ u. u.backend ≡ []) c.shards i s e found) tt;
  }

  module _ (lower : String → String) where
    -- A read never returns a value that is out of date: in a cache as the constructor builds it, after
    -- any history of gets, puts, deletions, membership tests, `get_or_compute` calls, inspections,
    -- dumps, expiry, restored metadata and waiting, what a `get` returns is its default or a value that
    -- the key may have: that of the last `put`, if it returned; or one that a `put` which raised, or a
    -- `get_or_compute`, may have left since then; and none if the key was deleted after these.
    pub get_value-possible :
        (config : CacheConfig) (source : SlowDict K V) (clock : FakeClock) (c : Cache K V)
        (calls : List (Call K V)) (k : K) (d v : V)
        → init lower config source clock ≡ ok c
        → All (λ call. is_foreground call ≡ true) calls
        → (get_value k d (run calls c)).0 ≡ ok v
        → (v ≡ d) ⊎ IsOneOf v (possible calls c (λ j. []) k)
    unfolding init IsNew
    get_value-possible config source clock c calls k d v e p r =
        get_value-IsOneOf (length c.shards) (possible calls c (λ j. [])) k d v (run calls c)
          (run-Agrees (length c.shards) (λ j. []) calls c p
            (new-Agrees c (subst (IsValidResult lower) e (init-IsValid lower config source clock))
              (subst IsNew e (built-IsNew config source clock _ _ _))))
          r
