-- ===== src/Cache/ReadBack/Stored.antt =====
-- A cache in which a `put` is never its own victim, and the sections of `put` in it.
use cache_system.Prelude.{
  ℕ, ◌<◌, ◌%◌, ◌≡◌, refl, inl, inr, Bool, true, false, Option, some, All, All-get_elem?, All-set,
  arith, length, length-set, get_elem?, get_elem?-set_self, get_elem?-some, Option-cases, ◌∙◌, sym,
  subst, ap,
}
use cache_system.Prelude.Int.{ℤ}
use cache_system.Exec.{Exec, Result, runtime_error, modify, pure, lift}
use cache_system.Exec.Keeps.{raise_if_same, Keeps-lift}
use cache_system.Exec.Triple.{Triple, Yields, Triple-Keeps}
use cache_system.Dict.{Hashable}
use cache_system.Entry.{Entry}
use cache_system.Jobs.{Ttl}
use cache_system.Config.{WriteMode, cache_only, write_through, write_back}
use cache_system.Shard.{Shard, next_version}
use cache_system.Shard.Writes.{existing_entry, put_entry, new_entry}
use cache_system.Shard.Settled.{IsSettled, existing_entry-IsSettled}
use cache_system.Shard.Placement.{is_ordered, put_entry-get}
use cache_system.Shard.View.{IsLive, view, existing_entry-IsLive, new_entry-IsLive}
use cache_system.WriteBack.Kind.{existing_entry-SameKind}
use cache_system.Cache.{
  Cache, StableHash, now, is_closed, with_shard, with_source, require_not_closed, warn_not_started,
}
use cache_system.Cache.Access.{write_source}

module _ {K V : Type 0} ⦃h : Hashable K⦄ ⦃stable : StableHash K⦄ where
  -- A shard in which a `put` is never its own victim.
  pub record IsReady (s : Shard K V) : Type 0 where
    pub settled : IsSettled s
    pub ordered : is_ordered s.policy ≡ true
    pub room : 0 < s.capacity

  module _ (n t : ℕ) (k : K) (v : V) where
    pub record Ready (c : Cache K V) : Type 0 where
      pub running : is_closed c.state ≡ false
      pub clock : now c ≡ t
      pub size : length c.shards ≡ n
      pub shards : All IsReady c.shards

    -- The value is in view in the shard of its key.
    pub record Shown (c : Cache K V) : Type 0 where
      pub running : is_closed c.state ≡ false
      pub clock : now c ≡ t
      pub size : length c.shards ≡ n
      pub shown :
          (s : Shard K V) × (get_elem? c.shards (stable.stable_hash k % n) ≡ some s)
          × (view t s k ≡ some v)

    abbrev pub Any : Cache K V → Type 0
    Any c = Unit

    -- What changes neither the shards nor the clock nor the state.
    idle-Ready :
        {A : Type 0} (m : Exec (Cache K V) A)
        → ((c : Cache K V) → (m c).1.shards ≡ c.shards)
        → ((c : Cache K V) → (m c).1.state ≡ c.state)
        → ((c : Cache K V) → now (m c).1 ≡ now c)
        → Triple Ready m Ready Any
    idle-Ready m shards state clock =
        Triple-Keeps m
          (record {
            at = λ c r. record {
              running = rw (state c) r.running;
              clock = clock c ∙ r.clock;
              size = ap length (shards c) ∙ r.size;
              shards = subst (All IsReady) (sym (shards c)) r.shards;
            };
          })
          (λ c r. tt)

    pub check-Ready : Triple Ready (require_not_closed {K = K} {V = V}) Ready Any
    check-Ready =
        idle-Ready require_not_closed (λ c. same c (λ d. d.shards)) (λ c. same c (λ d. d.state))
          (λ c. same c now)
      where
        same : {A : Type 0} (c : Cache K V) (f : Cache K V → A) → f (require_not_closed c).1 ≡ f c
        same c f =
            unfold require_not_closed in ap f (raise_if_same (is_closed c.state) runtime_error c)

    pub warn-Ready : Triple Ready (modify (warn_not_started {K = K} {V = V})) Ready Any
    warn-Ready =
        idle-Ready (modify warn_not_started) (λ c. unfold modify warn_not_started in ground arith)
          (λ c. unfold modify warn_not_started in ground arith)
          (λ c. unfold modify warn_not_started in ground arith)

    pub source-Ready : (mode : WriteMode) → Triple Ready (write_source mode k v) Ready Any
    unfolding write_source with_source pure
    source-Ready write_through = idle-Ready _ (λ c. refl) (λ c. refl) (λ c. refl)
    source-Ready cache_only = idle-Ready _ (λ c. refl) (λ c. refl) (λ c. refl)
    source-Ready write_back = idle-Ready _ (λ c. refl) (λ c. refl) (λ c. refl)

    pub lift-Ready : {A : Type 0} (r : Result A) → Triple Ready (lift {S = Cache K V} r) Ready Any
    lift-Ready r = Triple-Keeps _ (Keeps-lift r) (λ c x. tt)

    existing_entry-IsReady : (s : Shard K V) → IsReady s → IsReady (existing_entry k t s).1
    existing_entry-IsReady s r = record {
      settled = existing_entry-IsSettled s k t r.settled;
      ordered = (existing_entry-SameKind s k t).ordered ∙ r.ordered;
      room = rw (existing_entry-SameKind s k t).room r.room;
    }

    pub existing_entry-Yields :
        (i : ℕ)
        → Yields Ready (with_shard i (existing_entry k t)) (λ old c. Ready c × IsLive t old) Any
    unfolding with_shard
    existing_entry-Yields i = record {
      at = λ c r. elim (Option-cases (get_elem? c.shards i)) [
        | inl e ↦ rw (e, with_shard) tt
        | inr (s, e) ↦
            rw (e, with_shard)
              (
                record {
                  running = r.running;
                  clock = r.clock;
                  size = length-set c.shards i _ ∙ r.size;
                  shards =
                      All-set IsReady c.shards i _ r.shards
                        (existing_entry-IsReady s (All-get_elem? IsReady c.shards i s r.shards e));
                },
                existing_entry-IsLive s k t,
              )
      ];
    }

    -- The section that stores the entry.
    put_entry-view :
        (ttl : Ttl) (b : Bool) (d : Option ℤ) (old : Option (Entry K V)) (s : Shard K V)
        → IsLive t old
        → IsReady s
        → view t (put_entry k v ttl b t d old s).1 k ≡ some v
    unfolding new_entry
    put_entry-view ttl b d old s live r =
        rw (put_entry-get s k v ttl b t d old r.settled r.room r.ordered)
          (rw (new_entry-IsLive k v ttl b t d old (next_version k s).0 live) refl)

    pub put_entry-Triple :
        (ttl : Ttl) (b : Bool) (d : Option ℤ) (old : Option (Entry K V))
        → Triple
            (λ c. Ready c × IsLive t old)
            (with_shard (stable.stable_hash k % n) (put_entry k v ttl b t d old))
            Shown
            Any
    unfolding with_shard
    put_entry-Triple ttl b d old = record {
      at = λ c r. elim (Option-cases (get_elem? c.shards i)) [
        | inl e ↦ rw (e, with_shard) tt
        | inr (s, e) ↦
            rw (e, with_shard)
              (record {
                running = r.0.running;
                clock = r.0.clock;
                size = length-set c.shards i _ ∙ r.0.size;
                shown = (
                  (put_entry k v ttl b t d old s).1,
                  get_elem?-set_self c.shards i _ (get_elem?-some c.shards i s e),
                  put_entry-view ttl b d old s r.1
                      (All-get_elem? IsReady c.shards i s r.0.shards e),
                );
              })
      ];
    }
      where
        i : ℕ
        i = stable.stable_hash k % n
