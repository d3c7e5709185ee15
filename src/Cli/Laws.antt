-- ===== src/Cli/Laws.antt =====
-- What an entry of the state file keeps of the lifetime of an entry.
use cache_system.Prelude.{
  ℕ, zero, suc, ◌+◌, ◌-◌, ◌<◌, ◌≡◌, refl, Bool, false, Option, none, some, arith, ap, if◌then◌else◌,
}
use cache_system.Prelude.Int.{ℤ, pos}
use cache_system.Dict.{Hashable}
use cache_system.Entry.{Entry, snapshot, is_expired, has_passed, remaining}
use cache_system.Jobs.{Ttl, never, seconds}
use cache_system.Shard.Writes.{new_entry, resolve_ttl}
use cache_system.Shard.View.{live_value}
use cache_system.Cli.{
  stored_ttl, saved_ttl, positive_ttl, absent, keep, ttl_from_state_item, item_of,
}

positive_ttl_lem : (n : ℕ) → 0 < n → positive_ttl (pos n) ≡ keep (seconds (pos n))
positive_ttl_lem zero p = absurd (omega (arith, p))
positive_ttl_lem (suc n) p = refl

-- The lifetime that is written, read back, and resolved again.
left_lem :
    (K V : Type 0) (saved wall_now start delay : ℕ) (default_ttl : Option ℤ) (end : Option ℕ)
    → has_passed end saved ≡ false
    → (ttl : Ttl) × (stored_ttl (saved_ttl (remaining end saved)) absent wall_now ≡ keep ttl)
      × (has_passed (resolve_ttl {K = K} {V = V} none ttl start default_ttl).1 (start + delay)
          ≡ has_passed end (saved + delay))
unfolding resolve_ttl
left_lem K V saved wall_now start delay default_ttl none live = (never, refl, refl)
left_lem K V saved wall_now start delay default_ttl (some n) live =
    (seconds (pos (n - saved)), positive_ttl_lem (n - saved) (ground arith), ground arith)

-- An entry that is saved while it is live and loaded at any later time, whatever the wall clock
-- says, has from then on the lifetime that it had left: `delay` ticks after the loading it shows
-- what it would have shown `delay` ticks after the saving.
pub item_of-lifetime :
    {K V : Type 0} ⦃h : Hashable K⦄ (e : Entry K V) (saved wall_now start delay version : ℕ)
    (dirty : Bool) (default_ttl : Option ℤ)
    → is_expired e saved ≡ false
    → (ttl : Ttl) × (ttl_from_state_item (item_of (snapshot e saved)) wall_now ≡ keep ttl)
      × (live_value
            (start + delay)
            (some (new_entry e.key e.value ttl dirty start default_ttl none version))
          ≡ live_value (saved + delay) (some e))
unfolding ttl_from_state_item item_of snapshot new_entry resolve_ttl is_expired
item_of-lifetime {K = K} {V = V} e saved wall_now start delay version dirty default_ttl live =
    let (ttl, kept, same) = left_lem K V saved wall_now start delay default_ttl e.expires_at live in
    (ttl, kept, ap (λ b. if b then none else some e.value) same)
