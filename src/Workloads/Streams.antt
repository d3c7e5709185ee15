-- ===== src/Workloads/Streams.antt =====
-- How long the streams are, and which keys they name.
use cache_system.Prelude.{
  ℕ, zero, suc, ◌+◌, ◌-◌, ◌<◌, ◌≤◌, ◌≡◌, refl, List, All, length, String, arith,
}
use native.Mathlib.Nat.{mod-lt}
use cache_system.Exec.{ok}
use cache_system.Workloads.{
  Pattern, uniform, hotspot, sequential, looping, mixed, Request, read, write, Rng, universe, hot,
  working_set, request, stream, key_stream, parse_pattern,
}

abbrev pub key_of : Request → ℕ
key_of (read k) = k
key_of (write k) = k

-- How many keys a pattern has at most.
abbrev pub keys_of : ℕ → ℕ → Pattern → ℕ
keys_of capacity requests uniform = universe capacity
keys_of capacity requests hotspot = universe capacity
keys_of capacity requests sequential = requests
keys_of capacity requests looping = working_set capacity
keys_of capacity requests mixed = universe capacity

module _ (capacity : ℕ) (rng : Rng) (drawn : (i n : ℕ) → 0 < n → rng.randrange i n < n) where
  key_of-request :
      (p : Pattern) (i requests : ℕ)
      → i < requests
      → key_of (request capacity rng p i) < keys_of capacity requests p
  unfolding request
  key_of-request uniform i n l = drawn i (universe capacity) (omega arith)
  key_of-request hotspot i n l = ground (
    arith,
    cold,
    drawn i (hot capacity) (omega arith),
    drawn i (universe capacity - hot capacity) (omega (arith, cold)),
  )
    where
      cold : hot capacity < universe capacity
      cold = omega arith
  key_of-request sequential i n l = l
  key_of-request looping i n l = mod-lt i (omega arith)
  key_of-request mixed i n l = ground (arith, drawn i (universe capacity) (omega arith))

  stream-All :
      (p : Pattern) (i n requests : ℕ)
      → i + n ≤ requests
      → (length (stream capacity rng p i n) ≡ n)
        × All (λ r. key_of r < keys_of capacity requests p) (stream capacity rng p i n)
  unfolding stream
  stream-All p i zero requests le = (refl, tt)
  stream-All p i (suc n) requests le =
      let (count, keys) = stream-All p (i + 1) n requests (omega (arith, le)) in
      (omega (arith, count), (key_of-request p i requests (omega (arith, le)), keys))

  -- A stream of a known pattern has as many requests as were asked for, and names no key beyond the
  -- pattern's own number of keys: the working set for a loop, the number of requests for a scan, and
  -- the universe for the others, if `randrange` draws below its bound.
  pub key_stream_lem :
      (normalize : String → String) (pattern : String) (p : Pattern) (requests : ℕ)
      → parse_pattern (normalize pattern) ≡ ok p
      → (keys : List Request) × (key_stream capacity rng normalize pattern requests ≡ ok keys)
        × (length keys ≡ requests)
        × All (λ r. key_of r < keys_of capacity requests p) keys
  unfolding key_stream
  key_stream_lem normalize pattern p requests e =
      let (count, keys) = stream-All p 0 requests requests (omega arith) in
      (stream capacity rng p 0 requests, rw (e, key_stream) refl, count, keys)
