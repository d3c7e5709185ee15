-- ===== src/Dict.antt =====
-- Python's `dict` and `OrderedDict`: entries in insertion order, one for each key.
pub mod Laws
use cache_system.Prelude.{
  ℕ, Bool, Option, none, some, List, [], ◌∷◌, ◌++◌, map, ◌≡◌, length, is_some, ite,
}

-- A key that can be compared: `==` of hashable Python values.
pub record Hashable (K : Type 0) : Type 0 where
  pub eq_dec : Discrete K

abbrev pub ◌≟◌ : {K : Type 0} ⦃h : Hashable K⦄ → Discrete K
◌≟◌ ⦃h⦄ = h.eq_dec

abbrev pub Dict : Type 0 → Type 0 → Type 0
Dict K V = List (K × V)

module _ {K V : Type 0} ⦃h : Hashable K⦄ where
  -- `d.get(k)`
  unfoldable pub get : K → Dict K V → Option V
  get k [] = none
  get k ((j, v) ∷ d) = ite (◌≟◌ j k) (some v) (get k d)

  -- `d[k] = v`: an old key keeps its place, a new one comes last.
  unfoldable pub put : K → V → Dict K V → Dict K V
  put k v [] = (k, v) ∷ []
  put k v ((j, w) ∷ d) = ite (◌≟◌ j k) ((j, v) ∷ d) ((j, w) ∷ put k v d)

  -- `d.pop(k, None)`
  unfoldable pub pop : K → Dict K V → Dict K V
  pop k [] = []
  pop k ((j, w) ∷ d) = let rest = pop k d in ite (◌≟◌ j k) rest ((j, w) ∷ rest)

  -- `k in d`
  abbrev pub contains : K → Dict K V → Bool
  contains k d = is_some (get k d)

  -- `d.move_to_end(k)`, for a key of `d`.
  abbrev pub move_to_end : K → V → Dict K V → Dict K V
  move_to_end k v d = pop k d ++ (k, v) ∷ []

  -- No key stands twice, which Python's dictionaries see to.
  abbrev pub IsDict : Dict K V → Type 0
  IsDict [] = Unit
  IsDict ((k, v) ∷ d) = (get k d ≡ none) × IsDict d

module _ {K V : Type 0} where
  -- `list(d.keys())` and `list(d.values())`
  abbrev pub keys : Dict K V → List K
  keys = map (λ e. e.0)

  abbrev pub values : Dict K V → List V
  values = map (λ e. e.1)

  -- `next(iter(d), None)`
  abbrev pub first : Dict K V → Option K
  first [] = none
  first ((k, v) ∷ d) = some k

  -- `len(d)`
  abbrev pub size : Dict K V → ℕ
  size = length
