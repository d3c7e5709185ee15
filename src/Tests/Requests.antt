-- ===== src/Tests/Requests.antt =====
-- A run of the theorem about the streams of requests.
use cache_system.Prelude.{◌<◌, ◌≡◌, refl, true, List, length, All}
use cache_system.Exec.{ok}
use cache_system.Workloads.{Rng, Request, looping, key_stream, parse_pattern}
use cache_system.Workloads.Streams.{key_of, key_stream_lem}
use cache_system.Tests.{as_is}

-- A generator that draws the lowest number.
abbrev rng0 : Rng
rng0 = record { randrange = λ i n. 0; is_hot = λ i. true }

parsed0 : parse_pattern (as_is "looping") ≡ ok looping
unfolding parse_pattern
parsed0 = refl

key_stream_lem_example :
    (keys : List Request) × (key_stream 10 rng0 as_is "looping" 30 ≡ ok keys)
    × (length keys ≡ 30)
    × All (λ r. key_of r < 8) keys
key_stream_lem_example = key_stream_lem 10 rng0 (λ i n p. p) as_is "looping" looping 30 parsed0
