-- ===== src/Cli/Saving.antt =====
-- What a run of a command leaves in the state file.
use cache_system.Prelude.{
  ℕ, ◌≡◌, ◌⊎◌, refl, Bool, true, false, Option, none, some, List, String, inl, inr, arith,
}
use cache_system.Prelude.Int.{ℤ}
use cache_system.Exec.{Result, ok, err, Error, pure, continue, ◌>>=◌}
use cache_system.Dict.{Hashable}
use cache_system.Clock.{FakeClock}
use cache_system.Source.{SlowDict}
use cache_system.Cache.{Cache, StableHash}
use cache_system.Cache.Access.{size_all}
use cache_system.Cli.{SavedState, Args, item_of, load_cache_state}
use cache_system.Cli.Commands.{
  Command, put, get, delete, contains, inspect, dump, clear, stats, Output, Session, on_cache,
  saved_state, save_cache_state, perform, printing, changing, reading, run_command, run_on,
  run_basic, stored, deleted, cleared, ttl_of,
}
use cache_system.Cache.Access
use cache_system.Exec.{modify, ◌>>◌}
use cache_system.Entry.{Snapshot}
use cache_system.Prelude.{map}
use cache_system.Exec.{Exec, value_error, raise_if, ◌>>◌, ◌>>=◌, modify, continue, pure, lift}
use cache_system.Prelude.{◌&&◌, is_some}
use cache_system.Cache.Access.{put_value, delete_value}

module _ {K V : Type 0} ⦃h : Hashable K⦄ ⦃stable : StableHash K⦄ where
  -- The commands that are to leave the file as it is.
  abbrev pub is_reader : Command K V → Bool
  is_reader (put k v ttl no_ttl) = false
  is_reader (delete k) = false
  is_reader clear = false
  is_reader _ = true

  -- What a command that changes the cache asks of it: the call, its result, and the cache after it.
  abbrev pub Wrote : Command K V → Cache K V → Output K V → Cache K V → Type 0
  Wrote (put key value ttl no_ttl) c o d =
      (k : K) × (v : V) × (key ≡ ok k)
      × (value ≡ ok v)
      × ((no_ttl && is_some ttl) ≡ false)
      × ((put_value k v (ttl_of ttl no_ttl) c).0 ≡ ok tt)
      × (d ≡ (put_value k v (ttl_of ttl no_ttl) c).1)
      × (o ≡ stored)
  Wrote (delete key) c o d =
      (k : K) × (existed : Bool) × (key ≡ ok k)
      × ((delete_value k c).0 ≡ ok existed)
      × (d ≡ (delete_value k c).1)
      × (o ≡ deleted existed)
  Wrote clear c o d = ((Access.clear c).0 ≡ ok tt) × (d ≡ (Access.clear c).1) × (o ≡ cleared)
  Wrote _ c o d = ⊥

  -- A call of the cache whose result is all that is left to return.
  continue-pure :
      {A : Type 0} (r : Result A) (f : A → Output K V) (d : Cache K V) (o : Output K V)
      → (continue r (λ a. pure (f a)) d).0 ≡ ok o
      → (a : A) × (r ≡ ok a) × ((continue r (λ a. pure (f a)) d).1 ≡ d) × (o ≡ f a)
  unfolding pure
  continue-pure (ok a) f d o e = (a, refl, refl, ground arith)
  continue-pure (err x) f d o e = absurd (ground arith)

  -- What `put` does after its key was parsed.
  abbrev put_rest : K → Result V → Option ℤ → Bool → Bool → Exec (Cache K V) (Output K V)
  put_rest k value ttl no_ttl refused = do
    raise_if refused value_error
    v ← lift value
    put_value k v (ttl_of ttl no_ttl)
    pure stored

  put_rest-Wrote :
      (k : K) (value : Result V) (ttl : Option ℤ) (no_ttl refused : Bool) (c : Cache K V)
      (o : Output K V)
      → (put_rest k value ttl no_ttl refused c).0 ≡ ok o
      → (refused ≡ false)
        × (v : V) × (value ≡ ok v)
        × ((put_value k v (ttl_of ttl no_ttl) c).0 ≡ ok tt)
        × ((put_rest k value ttl no_ttl refused c).1 ≡ (put_value k v (ttl_of ttl no_ttl) c).1)
        × (o ≡ stored)
  unfolding ◌>>◌ ◌>>=◌ raise_if lift
  put_rest-Wrote k value ttl no_ttl true c o e = absurd (ground arith)
  put_rest-Wrote k (err x) ttl no_ttl false c o e = absurd (ground arith)
  put_rest-Wrote k (ok v) ttl no_ttl false c o e =
      let (a, p, q, w) =
        continue-pure (put_value k v (ttl_of ttl no_ttl) c).0 (λ a. stored) _ o e in
      (refl, v, refl, p, q, w)

  perform-Wrote :
      (miss : V) (command : Command K V) (c : Cache K V) (o : Output K V)
      → is_reader command ≡ false
      → (perform miss command c).0 ≡ ok o
      → Wrote command c o (perform miss command c).1
  unfolding perform ◌>>=◌ ◌>>◌ lift
  perform-Wrote miss clear c o w e =
      let (a, p, q, r) = continue-pure (Access.clear c).0 (λ a. cleared) _ o e in (p, q, r)
  perform-Wrote miss (delete (ok k)) c o w e =
      let (b, p, q, r) = continue-pure (delete_value k c).0 deleted _ o e in (k, b, refl, p, q, r)
  perform-Wrote miss (delete (err x)) c o w e = absurd (ground arith)
  perform-Wrote miss (put (err x) value ttl no_ttl) c o w e = absurd (ground arith)
  perform-Wrote miss (put (ok k) value ttl no_ttl) c o w e =
      let (n, v, u, p, q, r) = put_rest-Wrote k value ttl no_ttl (no_ttl && is_some ttl) c o e in
      (k, v, refl, u, n, p, q, r)
  perform-Wrote miss (get k) c o w e = absurd (ground arith)
  perform-Wrote miss (contains k) c o w e = absurd (ground arith)
  perform-Wrote miss (inspect k) c o w e = absurd (ground arith)
  perform-Wrote miss (dump limit) c o w e = absurd (ground arith)
  perform-Wrote miss stats c o w e = absurd (ground arith)

  module _ (print : Output K V → Result (Unit {0})) (miss : V) (command : Command K V)
      (state : SavedState K V) where
    -- What fails before the file is written: the loading, the command, or the dump that is to be saved.
    abbrev pub FailsWith : Result (Cache K V) → Error → Type 0
    FailsWith (err x) e = x ≡ e
    FailsWith (ok c) e =
        ((perform miss command c).0 ≡ err e)
        ⊎ ((Access.dump none (perform miss command c).1).0 ≡ err e)

    -- The file is as it was: the command only reads, or the run raised what failed before.
    pub record Untouched (from : Result (Cache K V)) (r : Result (Output K V))
        (file : SavedState K V) : Type 0 where
      pub same : file ≡ state
      pub cause : (is_reader command ≡ true) ⊎ ((e : Error) × (r ≡ err e) × FailsWith from e)

    -- The command did its work on the cache `c`, and the file has all entries of the cache after it;
    -- what is printed decides what the run returns.
    pub record Replaced (c : Cache K V) (r : Result (Output K V)) (file : SavedState K V)
        : Type 0 where
      pub writer : is_reader command ≡ false
      pub output : Output K V
      pub after : Cache K V
      pub done : Wrote command c output after
      pub snapshots : List (Snapshot K V)
      pub dumped : (Access.dump none after).0 ≡ ok snapshots
      pub entries : file.entries ≡ map (λ s. some (item_of s)) snapshots
      pub printed :
          ((print output ≡ ok tt) × (r ≡ ok output))
          ⊎ ((e : Error) × (print output ≡ err e) × (r ≡ err e))

    abbrev Outcome : Cache K V → Result (Output K V) × Session K V → Type 0
    Outcome c (r, s) = Untouched (ok c) r s.file ⊎ Replaced c r s.file

    -- What is left to do after the work on the cache.
    module _ (c : Cache K V) (w : is_reader command ≡ false) (o : Output K V)
        (done : (perform miss command c).0 ≡ ok o) where
      abbrev d : Cache K V
      d = (perform miss command c).1

      abbrev after_dump : Cache K V
      after_dump = (Access.dump none d).1

      printed-Outcome :
          (snaps : List (Snapshot K V))
          → (Access.dump none d).0 ≡ ok snaps
          → (q : Result (Unit {0})) → print o ≡ q
          → Outcome c (
              continue q
                (λ _. pure o)
                (record { cache = after_dump; file = saved_state after_dump snaps }))
      unfolding pure
      printed-Outcome snaps p (ok u) q = inr (record {
        writer = w;
        output = o;
        after = d;
        done = perform-Wrote miss command c o w done;
        snapshots = snaps;
        dumped = p;
        entries = refl;
        printed = inl (q, refl);
      })
      printed-Outcome snaps p (err e) q = inr (record {
        writer = w;
        output = o;
        after = d;
        done = perform-Wrote miss command c o w done;
        snapshots = snaps;
        dumped = p;
        entries = refl;
        printed = inr (e, q, refl);
      })

      saved-Outcome :
          Outcome c ((save_cache_state >> printing print o) (record { cache = d; file = state }))
      unfolding save_cache_state on_cache ◌>>=◌ ◌>>◌
      saved-Outcome = went (Access.dump none d).0 refl
        where
          went :
              (r : Result (List (Snapshot K V)))
              → (Access.dump none d).0 ≡ r
              → Outcome c (
                  let (q, t) =
                    continue r
                      (λ snaps. modify (λ s. record s { file = saved_state s.cache snaps }))
                      (record { cache = after_dump; file = state }) in
                  continue q (λ _. printing print o) t)
          went (err e) p = inl (record { same = refl; cause = inr (e, refl, inr p) })
          went (ok snaps) p = printed-Outcome snaps p (print o) refl

    changing-Outcome :
        (c : Cache K V)
        → is_reader command ≡ false
        → Outcome c (changing print (perform miss command) (record { cache = c; file = state }))
    unfolding changing on_cache ◌>>=◌
    changing-Outcome c w = went (perform miss command c).0 refl
      where
        went :
            (r : Result (Output K V))
            → (perform miss command c).0 ≡ r
            → Outcome c (
                continue r
                  (λ o. save_cache_state >> printing print o)
                  (record { cache = (perform miss command c).1; file = state }))
        went (err e) p = inl (record { same = refl; cause = inr (e, refl, inl p) })
        went (ok o) p = saved-Outcome c w o p

    reading-Outcome :
        (c : Cache K V)
        → is_reader command ≡ true
        → Outcome c (reading print (perform miss command) (record { cache = c; file = state }))
    unfolding reading on_cache ◌>>=◌ ◌>>◌ pure
    reading-Outcome c w = went (perform miss command c).0
      where
        printed :
            (o : Output K V) (q : Result (Unit {0})) (s : Session K V)
            → s.file ≡ state
            → Outcome c (continue q (λ _. pure o) s)
        printed o (ok u) s e = inl (record { same = e; cause = inl w })
        printed o (err x) s e = inl (record { same = e; cause = inl w })

        went :
            (r : Result (Output K V))
            → Outcome c (
                continue r
                  (printing print)
                  (record { cache = (perform miss command c).1; file = state }))
        went (err e) = inl (record { same = refl; cause = inl w })
        went (ok o) = printed o (print o) _ refl

  run_command-Outcome :
      (print : Output K V → Result (Unit {0})) (miss : V) (command : Command K V)
      (state : SavedState K V) (c : Cache K V)
      → Outcome print miss command state c
          (run_command print miss command (record { cache = c; file = state }))
  unfolding run_command
  run_command-Outcome print miss (put k v ttl no_ttl) state c =
      changing-Outcome print miss _ state c refl
  run_command-Outcome print miss (get k) state c = reading-Outcome print miss _ state c refl
  run_command-Outcome print miss (delete k) state c = changing-Outcome print miss _ state c refl
  run_command-Outcome print miss (contains k) state c = reading-Outcome print miss _ state c refl
  run_command-Outcome print miss (inspect k) state c = reading-Outcome print miss _ state c refl
  run_command-Outcome print miss (dump limit) state c = reading-Outcome print miss _ state c refl
  run_command-Outcome print miss clear state c = changing-Outcome print miss _ state c refl
  run_command-Outcome print miss stats state c = reading-Outcome print miss _ state c refl

  module _ (lower : String → String) (hundredth : ℕ) (source : SlowDict K V) (clock : FakeClock)
      (wall_now : ℕ) where
    -- The file is replaced as a whole or not at all. After a run, either it is as it was, and then the
    -- command only reads, or the run raised because the loading, the command or the dump that is to be
    -- saved failed; or the command is a put, a deletion or a clear, whose call of the loaded cache
    -- returned, the file has exactly the entries that the cache dumps after the call, and the run
    -- returns unless the printing after that raises.
    pub run_basic_lem :
        (print : Output K V → Result (Unit {0})) (miss : V) (args : Args) (command : Command K V)
        (state : SavedState K V)
        → let run = run_basic lower hundredth source clock wall_now print miss args command state in
          Untouched print miss command state
            (load_cache_state lower hundredth source clock wall_now args state)
            run.0
            run.1
          ⊎ ((c : Cache K V) × (load_cache_state lower hundredth source clock wall_now args state
                ≡ ok c)
              × Replaced print miss command state c run.0 run.1)
    unfolding run_basic
    run_basic_lem print miss args command state =
        went (load_cache_state lower hundredth source clock wall_now args state) refl
      where
        went :
            (r : Result (Cache K V))
            → load_cache_state lower hundredth source clock wall_now args state ≡ r
            → let run = run_on print miss command state r in
              Untouched print miss command state r run.0 run.1
              ⊎ ((c : Cache K V) × (load_cache_state lower hundredth source clock wall_now args
                      state
                    ≡ ok c)
                  × Replaced print miss command state c run.0 run.1)
        went (err e) p = inl (record { same = refl; cause = inr (e, refl, refl) })
        went (ok c) p = elim (run_command-Outcome print miss command state c) [
          | inl same ↦ inl same
          | inr replaced ↦ inr (c, p, replaced)
        ]
