-- ===== src/Config/Loading/Fields.antt =====
-- What the normalized table holds of each field.
use cache_system.Prelude.{
  ◌≡◌, ◌⊎◌, refl, inl, inr, true, false, String, Option, none, some, List, [], ◌∷◌, ◌++◌, ite,
  arith, Bool-cases, if◌then◌else◌, ◌∙◌, sym, subst, ap,
}
use cache_system.Exec.{ok, err, configuration_error}
use cache_system.Dict.{◌≟◌, Dict, get, put, contains}
use cache_system.Dict.Laws.{get-put}
use cache_system.Config.Loading.{
  string_hashable, field_of, is_field, take_item, take_items, unless_unknown, normalize_config,
}

-- What is appended at the end stands before what follows.
append_assoc :
    (xs : List String) (x : String) (ys : List String) → (xs ++ x ∷ []) ++ ys ≡ xs ++ x ∷ ys
append_assoc [] x ys = refl
append_assoc (y ∷ xs) x ys = ap (λ l. y ∷ l) (append_assoc xs x ys)

append_nil : (xs : List String) → xs ≡ xs ++ []
append_nil [] = refl
append_nil (x ∷ xs) = ap (λ l. x ∷ l) (append_nil xs)

module _ {V : Type 0} where
  -- The value of the last key that stands for a field, under its own name or another one.
  unfoldable pub last_of : String → Dict String V → Option V
  last_of field [] = none
  last_of field ((key, value) ∷ items) = elim (last_of field items) [
    | some later ↦ some later
    | none ↦ ite (◌≟◌ (field_of key) field) (some value) none
  ]

  -- The keys that stand for no field.
  unfoldable pub unknown_keys : Dict String V → List String
  unknown_keys [] = []
  unknown_keys ((key, value) ∷ items) =
      let rest = unknown_keys items in if is_field (field_of key) then rest else key ∷ rest

  module _ (key : String) (value : V) (items n : Dict String V) (u : List String) where
    take_item-known :
        is_field (field_of key) ≡ true
        → take_item key value (n, u) ≡ (put (field_of key) value n, u)
    unfolding take_item
    take_item-known e = ground (arith, e)

    take_item-unknown :
        is_field (field_of key) ≡ false → take_item key value (n, u) ≡ (n, u ++ key ∷ [])
    unfolding take_item
    take_item-unknown e = ground (arith, e)

    unknown_keys-known :
        is_field (field_of key) ≡ true → unknown_keys ((key, value) ∷ items) ≡ unknown_keys items
    unfolding unknown_keys
    unknown_keys-known e = ground (arith, e)

    unknown_keys-unknown :
        is_field (field_of key) ≡ false
        → unknown_keys ((key, value) ∷ items) ≡ key ∷ unknown_keys items
    unfolding unknown_keys
    unknown_keys-unknown e = ground (arith, e)

  take_items-unknown :
      (items n : Dict String V) (u : List String)
      → (take_items items (n, u)).1 ≡ u ++ unknown_keys items
  unfolding take_items unknown_keys
  take_items-unknown [] n u = append_nil u
  take_items-unknown ((key, value) ∷ items) n u = elim (Bool-cases (is_field (field_of key))) [
    | inl known ↦
        ap (λ r. (take_items items r).1) (take_item-known key value items n u known)
        ∙ take_items-unknown items (put (field_of key) value n) u
        ∙ ap (λ l. u ++ l) (sym (unknown_keys-known key value items n u known))
    | inr unknown ↦
        ap (λ r. (take_items items r).1) (take_item-unknown key value items n u unknown)
        ∙ take_items-unknown items n (u ++ key ∷ [])
        ∙ append_assoc u key (unknown_keys items)
        ∙ ap (λ l. u ++ l) (sym (unknown_keys-unknown key value items n u unknown))
  ]

  -- What a later key makes of an earlier one's value.
  abbrev or_else : Option V → Option V → Option V
  or_else none b = b
  or_else (some v) b = some v

  last_of-known :
      (field key : String) (value : V) (items n : Dict String V)
      → or_else (last_of field items) (get field (put (field_of key) value n))
        ≡ or_else (last_of field ((key, value) ∷ items)) (get field n)
  unfolding last_of
  last_of-known field key value items n = ground (arith, get-put (field_of key) field value n)

  last_of-unknown :
      (field key : String) (value : V) (items n : Dict String V)
      → is_field field ≡ true
      → is_field (field_of key) ≡ false
      → or_else (last_of field items) (get field n)
        ≡ or_else (last_of field ((key, value) ∷ items)) (get field n)
  unfolding last_of
  last_of-unknown field key value items n f unknown = ground (arith, f, unknown)

  take_items-get :
      (items n : Dict String V) (u : List String) (field : String)
      → is_field field ≡ true
      → get field (take_items items (n, u)).0 ≡ or_else (last_of field items) (get field n)
  unfolding take_items last_of
  take_items-get [] n u field f = refl
  take_items-get ((key, value) ∷ items) n u field f = elim (Bool-cases (is_field (field_of key))) [
    | inl known ↦
        ap (λ r. get field (take_items items r).0) (take_item-known key value items n u known)
        ∙ take_items-get items (put (field_of key) value n) u field f
        ∙ last_of-known field key value items n
    | inr unknown ↦
        ap (λ r. get field (take_items items r).0) (take_item-unknown key value items n u unknown)
        ∙ take_items-get items n (u ++ key ∷ []) field f
        ∙ last_of-unknown field key value items n f unknown
  ]

  unknown_keys-cases :
      (items : Dict String V)
      → ((unknown_keys items ≡ [])
          × ((key : String) → contains key items ≡ true → is_field (field_of key) ≡ true))
        ⊎ ((key : String) × (rest : List String) × (unknown_keys items ≡ key ∷ rest)
            × (contains key items ≡ true)
            × (is_field (field_of key) ≡ false))
  unfolding unknown_keys get
  unknown_keys-cases [] = inl (refl, λ key p. absurd (ground (arith, p)))
  unknown_keys-cases ((first, value) ∷ items) = elim (Bool-cases (is_field (field_of first))) [
    | inr unknown ↦ inr (first, unknown_keys items, rw unknown refl, ground arith, unknown)
    | inl known ↦ elim (unknown_keys-cases items) [
      | inl (none_left, all) ↦ inl (
        rw known none_left,
        λ key p. elim (◌≟◌ first key) [
          | yes same ↦ subst (λ k. is_field (field_of k) ≡ true) same known
          | no other ↦ all key (ground (arith, p, other))
        ],
      )
      | inr (key, rest, found, listed, unknown) ↦
          inr (key, rest, rw known found, ground (arith, listed), unknown)
    ]
  ]

  -- A table is accepted exactly if each of its keys is the name or another name of a field, and then
  -- each field has the value of the last key in the table that stands for it, or none if no key
  -- does. A table with an unknown key is refused.
  pub normalize_config_lem :
      (items : Dict String V)
      → ((n : Dict String V) × (normalize_config items ≡ ok n)
          × ((key : String) → contains key items ≡ true → is_field (field_of key) ≡ true)
          × ((field : String) → is_field field ≡ true → get field n ≡ last_of field items))
        ⊎ ((normalize_config items ≡ err configuration_error)
            × (key : String) × (contains key items ≡ true)
            × (is_field (field_of key) ≡ false))
  unfolding normalize_config get
  normalize_config_lem items = elim (unknown_keys-cases items) [
    | inl (none_left, all) ↦ inl (
      (take_items items ([], [])).0,
      accepted (take_items items ([], [])) (take_items-unknown items [] [] ∙ none_left),
      all,
      λ field f. take_items-get items [] [] field f ∙ ground arith,
    )
    | inr (key, rest, found, listed, unknown) ↦ inr (
      refused (take_items items ([], [])) key rest (take_items-unknown items [] [] ∙ found),
      key,
      listed,
      unknown,
    )
  ]
    where
      accepted : (r : Dict String V × List String) → r.1 ≡ [] → unless_unknown r ≡ ok r.0
      accepted (n, []) e = refl
      accepted (n, key ∷ rest) e = absurd (ground arith)

      refused :
          (r : Dict String V × List String) (key : String) (rest : List String)
          → r.1 ≡ key ∷ rest
          → unless_unknown r ≡ err configuration_error
      refused (n, []) key rest e = absurd (ground arith)
      refused (n, x ∷ xs) key rest e = refl
