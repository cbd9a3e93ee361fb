-- ===== src/Time/Tests.antt =====
-- The theorems on time at concrete numbers of ticks.
use embassy.Base.{ℕ, ◌+◌, ◌*◌, ◌/◌, ◌%◌, ◌^◌, ◌≤◌, ◌<◌, ◌≡◌, refl, ◌↔◌, none, some, arith}
use embassy.Time.{dev, release}
use embassy.Time.Convert.{as_millis-from_millis, as_millis_overflow}
use embassy.Time.Duration
use embassy.Time.Duration.{Duration}
use embassy.Time.Instant.{Instant}

abbrev ticks : ℕ → Duration
ticks n = record { ticks = n }

abbrev at : ℕ → Instant
at n = record { ticks = n }

-- One millisecond is 32 ticks, which is less than a millisecond.
millis_1 :
    (Duration.from_millis dev 1 ≡ some (ticks 32)) × (Duration.as_millis dev (ticks 32) ≡ some 0)
unfolding Duration.from_millis Duration.as_millis
millis_1 = (refl, refl)

as_millis-from_millis_example :
    (d : Duration) × (n : ℕ) × (Duration.from_millis release 250 ≡ some d)
    × (Duration.as_millis release d ≡ some n)
    × (n ≤ 250)
    × (250 ≤ n + 1)
    × ((n ≡ 250) ↔ (250 % 125 ≡ 0))
as_millis-from_millis_example = as_millis-from_millis release 250 (omega arith)

abbrev long_time : Duration
long_time = ticks (2 ^ 62)

as_millis_overflow_example :
    (Duration.as_millis dev long_time ≡ none)
    × ((n : ℕ) × (Duration.as_millis release long_time ≡ some n) × (n < 2 ^ 62 * 1000 / 32768))
as_millis_overflow_example = as_millis_overflow long_time (omega arith)
