-- ===== src/Exec/Keeps.antt =====
-- Invariants of actions, one rule for each way to build an action.
use cache_system.Prelude.{◌≡◌, refl, sym, subst, Bool, true, false, if◌then◌else◌}
use cache_system.Exec.{
  Error, Result, ok, err, Exec, pure, raise, lift, gets, modify, raise_if, attempt, with_state,
  continue, ◌>>=◌, ◌>>◌,
}

-- `m` keeps `P`, whether it returns or raises.
pub record Keeps {S A : Type 0} (P : S → Type 0) (m : Exec S A) : Type 0 where
  pub at : (s : S) → P s → P (m s).1

module _ {S A : Type 0} {P : S → Type 0} where
  -- What leaves every state as it is keeps all there is to keep.
  Keeps-same : (m : Exec S A) → ((s : S) → (m s).1 ≡ s) → Keeps P m
  Keeps-same m same = record { at = λ s p. subst P (sym (same s)) p }

  pub Keeps-attempt : (m : Exec S A) → Keeps P m → Keeps P (attempt m)
  unfolding attempt
  Keeps-attempt m k = record { at = k.at }

  pub Keeps-if : (b : Bool) (m n : Exec S A) → Keeps P m → Keeps P n → Keeps P (if b then m else n)
  Keeps-if true m n first second = first
  Keeps-if false m n first second = second

  pub Keeps-with_state : (f : S → Exec S A) → ((s : S) → Keeps P (f s)) → Keeps P (with_state f)
  unfolding with_state
  Keeps-with_state f k = record { at = λ s p. (k s).at s p }

  pub Keeps-lift : (r : Result A) → Keeps P (lift r)
  Keeps-lift r = Keeps-same (lift r) (λ s. unfold lift in refl)

  pub Keeps-pure : (a : A) → Keeps P (pure a)
  Keeps-pure a = Keeps-same (pure a) (λ s. unfold pure in refl)

  pub Keeps-gets : (f : S → A) → Keeps P (gets f)
  Keeps-gets f = Keeps-same (gets f) (λ s. unfold gets in refl)

  pub Keeps-raise : (e : Error) → Keeps P (raise {A = A} e)
  Keeps-raise e = Keeps-same (raise e) (λ s. unfold raise in refl)

pub raise_if_same : {S : Type 0} (b : Bool) (e : Error) (s : S) → (raise_if b e s).1 ≡ s
unfolding raise_if
raise_if_same true e s = refl
raise_if_same false e s = refl

module _ {S : Type 0} {P : S → Type 0} where
  pub Keeps-raise_if : (b : Bool) (e : Error) → Keeps P (raise_if b e)
  Keeps-raise_if b e = Keeps-same (raise_if b e) (raise_if_same b e)

  pub Keeps-modify : (f : S → S) → ((s : S) → P s → P (f s)) → Keeps P (modify f)
  unfolding modify
  Keeps-modify f k = record { at = k }

module _ {S A B : Type 0} {P : S → Type 0} where
  Keeps-continue :
      (r : Result A) (f : A → Exec S B) (s : S)
      → ((a : A) → Keeps P (f a))
      → P s
      → P (continue r f s).1
  Keeps-continue (ok a) f s k p = (k a).at s p
  Keeps-continue (err e) f s k p = p

  pub Keeps-bind :
      (first : Exec S A) (rest : A → Exec S B)
      → Keeps P first
      → ((a : A) → Keeps P (rest a))
      → Keeps P (first >>= rest)
  unfolding ◌>>=◌
  Keeps-bind first rest kept rests = record {
    at = λ s p. Keeps-continue (first s).0 rest (first s).1 rests (kept.at s p);
  }

module _ {S B : Type 0} {P : S → Type 0} where
  pub Keeps-then : (m : Exec S (Unit {0})) (n : Exec S B) → Keeps P m → Keeps P n → Keeps P (m >> n)
  unfolding ◌>>◌
  Keeps-then m n km kn = Keeps-bind m (λ _. n) km (λ _. kn)

pub ruleset keeps_rules = (
  Keeps-if, Keeps-attempt, Keeps-raise_if, Keeps-with_state, Keeps-then, Keeps-bind, Keeps-gets,
  Keeps-lift, Keeps-raise, Keeps-pure,
)
