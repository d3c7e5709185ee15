-- ===== src/Entry.antt =====
-- src/cachelab/core/entry.py: a cached value with its lifetime, and the copy that callers see.
use cache_system.Prelude.{ℕ, ◌+◌, ◌-◌, Bool, false, Option, none, some, leb}

pub record Entry (K V : Type 0) : Type 0 where
  pub key : K
  pub value : V
  pub created_at : ℕ
  pub last_accessed_at : ℕ
  pub hit_count : ℕ
  pub expires_at : Option ℕ
  pub ttl : Option ℕ
  pub version : ℕ
  pub dirty : Bool

pub record Snapshot (K V : Type 0) : Type 0 where
  pub key : K
  pub value : V
  pub created_at : ℕ
  pub last_accessed_at : ℕ
  pub hit_count : ℕ
  pub expires_at : Option ℕ
  pub ttl : Option ℕ
  pub ttl_remaining : Option ℕ
  pub version : ℕ
  pub dirty : Bool

-- `expires_at is not None and now >= expires_at`
abbrev pub has_passed : Option ℕ → ℕ → Bool
has_passed none now = false
has_passed (some t) now = leb t now

-- `max(0.0, expires_at - now)`: the subtraction of ℕ stops at 0.
abbrev pub remaining : Option ℕ → ℕ → Option ℕ
remaining none now = none
remaining (some t) now = some (t - now)

module _ {K V : Type 0} where
  unfoldable pub is_expired : Entry K V → ℕ → Bool
  is_expired e now = has_passed e.expires_at now

  unfoldable pub touch : Entry K V → ℕ → Entry K V
  touch e now = record e { last_accessed_at = now; hit_count = e.hit_count + 1 }

  unfoldable pub snapshot : Entry K V → ℕ → Snapshot K V
  snapshot e now = record {
    key = e.key;
    value = e.value;
    created_at = e.created_at;
    last_accessed_at = e.last_accessed_at;
    hit_count = e.hit_count;
    expires_at = e.expires_at;
    ttl = e.ttl;
    ttl_remaining = remaining e.expires_at now;
    version = e.version;
    dirty = e.dirty;
  }
