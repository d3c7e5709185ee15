-- ===== src/Exec/Triple.antt =====
-- What an action makes of a condition: one that holds if it returns, and one if it raises.
use cache_system.Exec.{Result, ok, err, Exec, gets, with_state, continue, ◌>>=◌, ◌>>◌}
use cache_system.Exec.Keeps.{Keeps}

module _ {S A : Type 0} where
  abbrev pub Outcome : (S → Type 0) → (S → Type 0) → Result A → S → Type 0
  Outcome Q E (ok a) s = Q s
  Outcome Q E (err e) s = E s

  pub record Triple (P : S → Type 0) (m : Exec S A) (Q E : S → Type 0) : Type 0 where
    pub at : (s : S) → P s → Outcome Q E (m s).0 (m s).1

-- The same with a condition that may speak of what is returned.
abbrev pub Yield : {S A : Type 0} → (A → S → Type 0) → (S → Type 0) → Result A → S → Type 0
Yield Q E (ok a) s = Q a s
Yield Q E (err e) s = E s

pub record Yields {S A : Type 0} (P : S → Type 0) (m : Exec S A) (Q : A → S → Type 0)
    (E : S → Type 0) : Type 0 where
  pub at : (s : S) → P s → Yield Q E (m s).0 (m s).1

yielded :
    {S A B : Type 0} (Q : A → S → Type 0) (R E : S → Type 0) (r : Result A) (f : A → Exec S B)
    (s : S)
    → ((a : A) → Triple (Q a) (f a) R E)
    → Yield Q E r s
    → Outcome R E (continue r f s).0 (continue r f s).1
yielded Q R E (ok a) f s k q = (k a).at s q
yielded Q R E (err e) f s k x = x

either :
    {S A : Type 0} (P E : S → Type 0) (r : Result A) (s : S) → P s → (P s → E s) → Outcome P E r s
either P E (ok a) s p e = p
either P E (err x) s p e = e p

weaken :
    {S A : Type 0} (Q E : S → Type 0) (r : Result A) (s : S) → Outcome Q E r s → (Q s → E s) → E s
weaken Q E (ok a) s x w = w x
weaken Q E (err e) s x w = x

weaken_err :
    {S A : Type 0} (Q E F : S → Type 0) (r : Result A) (s : S)
    → Outcome Q E r s
    → (E s → F s)
    → Outcome Q F r s
weaken_err Q E F (ok a) s x w = x
weaken_err Q E F (err e) s x w = w x

framed :
    {S A : Type 0} (L : Type 0) (Q E : S → Type 0) (r : Result A) (s : S)
    → Outcome Q E r s
    → L
    → Outcome (λ t. Q t × L) E r s
framed L Q E (ok a) s x l = (x, l)
framed L Q E (err e) s x l = x

continued :
    {S A B : Type 0} (Q R E : S → Type 0) (r : Result A) (f : A → Exec S B) (s : S)
    → ((a : A) → Triple Q (f a) R E)
    → Outcome Q E r s
    → Outcome R E (continue r f s).0 (continue r f s).1
continued Q R E (ok a) f s k q = (k a).at s q
continued Q R E (err e) f s k x = x

module _ {S A : Type 0} {P E : S → Type 0} where
  -- An action that keeps a condition, which raising needs no more of.
  pub Triple-Keeps : (m : Exec S A) → Keeps P m → ((s : S) → P s → E s) → Triple P m P E
  Triple-Keeps m k weaker = record {
    at = λ s p. either P E (m s).0 (m s).1 (k.at s p) (weaker (m s).1);
  }

module _ {S A B : Type 0} {P Q R E : S → Type 0} where
  pub Triple-bind :
      (m : Exec S A) (f : A → Exec S B)
      → Triple P m Q E
      → ((a : A) → Triple Q (f a) R E)
      → Triple P (m >>= f) R E
  unfolding ◌>>=◌
  Triple-bind m f first rest = record {
    at = λ s p. continued Q R E (m s).0 f (m s).1 rest (first.at s p);
  }

module _ {S A B : Type 0} {P R E : S → Type 0} {Q : A → S → Type 0} where
  pub Triple-Yields :
      (m : Exec S A) (f : A → Exec S B)
      → Yields P m Q E
      → ((a : A) → Triple (Q a) (f a) R E)
      → Triple P (m >>= f) R E
  unfolding ◌>>=◌
  Triple-Yields m f first rest = record {
    at = λ s p. yielded Q R E (m s).0 f (m s).1 rest (first.at s p);
  }

module _ {S A B : Type 0} {P Q E : S → Type 0} where
  -- What is read from the state that the action starts from.
  pub Triple-gets :
      (f : S → A) (g : A → Exec S B)
      → ((s : S) → P s → Triple P (g (f s)) Q E)
      → Triple P (gets f >>= g) Q E
  unfolding ◌>>=◌
  Triple-gets f g k = record { at = λ s p. (k s p).at s p }

module _ {S B : Type 0} {P Q R E : S → Type 0} where
  pub Triple-then :
      (m : Exec S (Unit {0})) (n : Exec S B)
      → Triple P m Q E
      → Triple Q n R E
      → Triple P (m >> n) R E
  unfolding ◌>>◌
  Triple-then m n first rest = Triple-bind m (λ _. n) first (λ _. rest)

module _ {S A : Type 0} {P Q E : S → Type 0} where
  pub Triple-with_state :
      (f : S → Exec S A) → ((s : S) → Triple P (f s) Q E) → Triple P (with_state f) Q E
  unfolding with_state
  Triple-with_state f k = record { at = λ s p. (k s).at s p }

  pub Triple-weaken :
      {F : S → Type 0} (m : Exec S A) → Triple P m Q E → ((s : S) → E s → F s) → Triple P m Q F
  Triple-weaken {F = F} m t w = record {
    at = λ s p. weaken_err Q E F (m s).0 (m s).1 (t.at s p) (w (m s).1);
  }

  -- A fact that is not about the state.
  pub Triple-frame :
      (L : Type 0) (m : Exec S A) → Triple P m Q E → Triple (λ s. P s × L) m (λ s. Q s × L) E
  Triple-frame L m t = record { at = λ s p. framed L Q E (m s).0 (m s).1 (t.at s p.0) p.1 }

  -- What holds either way.
  pub Triple-after :
      (m : Exec S A) → Triple P m Q E → ((s : S) → Q s → E s) → (s : S) → P s → E (m s).1
  Triple-after m t w s p = weaken Q E (m s).0 (m s).1 (t.at s p) (w (m s).1)
