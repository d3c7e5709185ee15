-- ===== src/Tests/Tables.antt =====
-- Runs of the theorems about configuration tables and about the unsafe cache.
use cache_system.Prelude.{ℕ, ◌≡◌, ◌≤◌, ◌⊎◌, refl, true, false, String, [], ◌∷◌, max, ℕ_discrete}
use cache_system.Exec.{ok, err, configuration_error}
use cache_system.Dict.{Dict, IsDict, get, contains, size}
use cache_system.Policy.Lfu.{nat_hashable}
use cache_system.Config.Loading.{string_hashable, field_of, is_field, normalize_config}
use cache_system.Config.Loading.Fields.{last_of, normalize_config_lem}
use cache_system.Teaching.{race, put_all}
use cache_system.Teaching.Race.{size-race}

abbrev table0 : Dict String ℕ
table0 = ("shards", 4) ∷ ("shard_count", 2) ∷ []

normalize_config_lem_example :
    ((n : Dict String ℕ) × (normalize_config table0 ≡ ok n)
      × ((key : String) → contains key table0 ≡ true → is_field (field_of key) ≡ true)
      × ((field : String) → is_field field ≡ true → get field n ≡ last_of field table0))
    ⊎ ((normalize_config table0 ≡ err configuration_error)
        × (key : String) × (contains key table0 ≡ true)
        × (is_field (field_of key) ≡ false))
normalize_config_lem_example = normalize_config_lem table0

abbrev items0 : Dict ℕ ℕ
items0 = (1, 10) ∷ (2, 20) ∷ []

items0-IsDict : IsDict items0
unfolding get ℕ_discrete
items0-IsDict = (refl, (refl, tt))

size-race_example : (size (race 1 items0) ≡ size items0) × (size (put_all 1 items0 []) ≤ max 1 1)
size-race_example = size-race 1 items0 items0-IsDict
