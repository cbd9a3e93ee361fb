-- ===== src/Time/Convert.antt =====
-- What the conversions between ticks, seconds and milliseconds of time/duration.rs keep and lose.
use embassy.Base.{ℕ, ◌+◌, ◌*◌, ◌/◌, ◌%◌, ◌≤◌, ◌<◌, ◌≡◌, refl, ◌↔◌, none, some, arith}
use embassy.Time.{ticks_per_second, u64_mod, Profile, dev, release}
use embassy.Time.Duration
use embassy.Time.Duration.{Duration}

-- In both profiles a number of seconds whose ticks fit in 64 bits comes back from `from_secs`
-- and `as_secs` unchanged.
as_secs-from_secs :
    (p : Profile) (s : ℕ)
    → s * ticks_per_second < u64_mod
    → (d : Duration) × (Duration.from_secs p s ≡ some d) × (Duration.as_secs d ≡ s)
unfolding Duration.from_secs Duration.as_secs
as_secs-from_secs dev s h = (record { ticks = s * ticks_per_second }, ground arith, omega arith)
as_secs-from_secs release s h = (record { ticks = s * ticks_per_second }, ground arith, omega arith)

millis_lost :
    (m : ℕ)
    → let n = m * 32768 / 1000 * 1000 / 32768 in (n ≤ m) × (m ≤ n + 1) × ((n ≡ m) ↔ (m % 125 ≡ 0))
millis_lost m = (omega arith, omega arith, (omega arith, omega arith))

-- In both profiles a number of milliseconds whose product with the tick rate fits in 64 bits comes
-- back from `from_millis` and `as_millis`, without a panic, as itself or as one less, and as itself
-- exactly when it is a multiple of 125.
pub as_millis-from_millis :
    (p : Profile) (m : ℕ)
    → m * ticks_per_second < u64_mod
    → (d : Duration) × (n : ℕ) × (Duration.from_millis p m ≡ some d)
      × (Duration.as_millis p d ≡ some n)
      × (n ≤ m)
      × (m ≤ n + 1)
      × ((n ≡ m) ↔ (m % 125 ≡ 0))
unfolding Duration.from_millis Duration.as_millis
as_millis-from_millis p m h =
    let l = millis_lost m in
    (
      record { ticks = m * 32768 / 1000 },
      m * 32768 / 1000 * 1000 / 32768,
      ground arith,
      ground arith,
      l.0,
      l.1,
      l.2,
    )

-- A duration of more than 2^64 / 1000 ticks makes `as_millis` overflow: the dev profile panics, and
-- the release profile answers with fewer milliseconds than have passed.
pub as_millis_overflow :
    (d : Duration)
    → u64_mod ≤ d.ticks * 1000
    → (Duration.as_millis dev d ≡ none)
      × ((n : ℕ) × (Duration.as_millis release d ≡ some n)
          × (n < d.ticks * 1000 / ticks_per_second))
unfolding Duration.as_millis
as_millis_overflow d h =
    (ground arith, (d.ticks * 1000 % u64_mod / ticks_per_second, refl, omega arith))
