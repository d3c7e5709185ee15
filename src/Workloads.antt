-- ===== src/Workloads.antt =====
-- src/cachelab/workloads/patterns.py: streams of requests for simulations.
pub mod Streams
use text.Mathlib.Text.{◌==◌}
use cache_system.Prelude.{
  ℕ, zero, suc, ◌+◌, ◌-◌, ◌*◌, ◌%◌, ◌/◌, Bool, true, false, ◌||◌, List, [], ◌∷◌, String, max,
  if◌then◌else◌,
}
use cache_system.Exec.{Result, ok, err, value_error}

pub data Pattern : Type 0 where
  uniform hotspot sequential looping mixed : Pattern

-- A request is for the key `k{i}`, and writes it if it has the prefix `write:`.
pub data Request : Type 0 where
  read write : ℕ → Request

-- `random.Random(seed)`: at each request, what `randrange` draws below a bound, by `choice` too, and
-- if `random() < 0.82`.
pub record Rng : Type 0 where
  pub randrange : ℕ → ℕ → ℕ
  pub is_hot : ℕ → Bool

-- The names of the patterns, after `lower` and `replace`.
unfoldable pub parse_pattern : String → Result Pattern
parse_pattern s =
    if s == "uniform"
    then ok uniform
    else if s == "zipfian" || s == "hotspot"
    then ok hotspot
    else if s == "sequential" || s == "sequential_scan"
    then ok sequential
    else if s == "looping" || s == "looping_working_set"
    then ok looping
    else if s == "mixed" || s == "mixed_read_write"
    then ok mixed
    else err value_error

-- `n == 0`
abbrev pub is_zero : ℕ → Bool
is_zero zero = true
is_zero (suc n) = false

module _ (capacity : ℕ) where
  abbrev pub universe : ℕ
  universe = max (capacity * 4) 16

  abbrev pub hot : ℕ
  hot = max 1 (capacity / 5)

  abbrev pub working_set : ℕ
  working_set = max 1 (capacity - hot)

  module _ (rng : Rng) where
    -- The request at an index of the stream.
    unfoldable pub request : Pattern → ℕ → Request
    request uniform i = read (rng.randrange i universe)
    request hotspot i =
        if rng.is_hot i
        then read (rng.randrange i hot)
        else read (hot + rng.randrange i (universe - hot))
    request sequential i = read i
    request looping i = read (i % working_set)
    request mixed i =
        if is_zero (i % 5)
        then write (rng.randrange i universe)
        else read (rng.randrange i universe)

    -- `for index in range(requests)`, from an index on.
    unfoldable pub stream : Pattern → ℕ → ℕ → List Request
    stream p i zero = []
    stream p i (suc n) = request p i ∷ stream p (i + 1) n

    -- `key_stream`, of which `normalize` is `lower` and `replace`.
    unfoldable pub key_stream : (String → String) → String → ℕ → Result (List Request)
    key_stream normalize pattern requests = elim (parse_pattern (normalize pattern)) [
      | ok p ↦ ok (stream p 0 requests)
      | err e ↦ err e
    ]
