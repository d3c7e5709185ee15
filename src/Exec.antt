-- ===== src/Exec.antt =====
-- src/cachelab/core/exceptions.py, and methods that change an object and may raise: what was
-- written before a raise stays written, so the state comes back beside the error too.
pub mod Keeps
pub mod Triple
use cache_system.Prelude.{Bool, true, false, if◌then◌else◌}

-- The exceptions of the program, and those of Python that it raises or lets pass.
pub data Error : Type 0 where
  configuration_error queue_backpressure_error shutdown_flush_error : Error
  unsupported_write_mode_error validation_error : Error
  runtime_error value_error index_error os_error : Error
  -- What a caller's loader raised.
  loader_error : Error
  -- The caller waits for an event that no other thread has set yet.
  blocked : Error

pub data Result (A : Type 0) : Type 0 where
  ok : A → Result A
  err : Error → Result A

abbrev pub Exec : Type 0 → Type 0 → Type 0
Exec S A = S → Result A × S

module _ {S A : Type 0} where
  unfoldable pub pure : A → Exec S A
  pure a s = (ok a, s)

  unfoldable pub raise : Error → Exec S A
  raise e s = (err e, s)

  unfoldable pub lift : Result A → Exec S A
  lift r s = (r, s)

  unfoldable pub gets : (S → A) → Exec S A
  gets f s = (ok (f s), s)

module _ {S : Type 0} where
  unfoldable pub modify : (S → S) → Exec S (Unit {0})
  modify f s = (ok tt, f s)

  unfoldable pub raise_if : Bool → Error → Exec S (Unit {0})
  raise_if true e s = (err e, s)
  raise_if false e s = (ok tt, s)

  -- `try`: the exception is a value for what follows.
  unfoldable pub attempt : {A : Type 0} → Exec S A → Exec S (Result A)
  attempt m s = let (r, t) = m s in (ok r, t)

  -- An action that reads the state that it starts from.
  unfoldable pub with_state : {A : Type 0} → (S → Exec S A) → Exec S A
  with_state f s = f s s

module _ {S A B : Type 0} where
  abbrev pub continue : Result A → (A → Exec S B) → Exec S B
  continue (ok a) f s = f a s
  continue (err e) f s = (err e, s)

  infixl 10 ◌>>=◌
  -- To open this is to open the other ways to build an action too.
  unfoldable pub ◌>>=◌ : Exec S A → (A → Exec S B) → Exec S B
  unfolding pure raise lift gets modify raise_if attempt with_state
  ◌>>=◌ m f s = let (r, t) = m s in continue r f t

infixl 10 ◌>>◌
unfoldable pub ◌>>◌ : {S B : Type 0} → Exec S (Unit {0}) → Exec S B → Exec S B
unfolding ◌>>=◌
m >> k = m >>= λ _. k
