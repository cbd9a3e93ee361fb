-- ===== src/Time/Arithmetic.antt =====
-- How the sums and differences of instants and durations of time/ fit together.
use embassy.Base.{ℕ, ◌<◌, ◌≡◌, ◌↔◌, Option, none, some, arith}
use embassy.Time.Duration
use embassy.Time.Duration.{Duration}
use embassy.Time.Instant
use embassy.Time.Instant.{Instant}

-- If adding a duration to an instant does not panic, then the later instant less the earlier one is
-- the duration, also by the saturating difference, and the later one less the duration is the
-- earlier one.
sub-add :
    (i j : Instant) (d : Duration)
    → Instant.add i d ≡ some j
    → (Instant.duration_since j i ≡ some d)
      × (Instant.saturating_duration_since j i ≡ d)
      × (Instant.sub j d ≡ some i)
unfolding Instant.add Instant.sub Instant.duration_since Instant.saturating_duration_since
sub-add i j d e = (ground arith, ground arith, ground arith)

abbrev pub or_zero : Option Duration → Duration
or_zero none = record { ticks = 0 }
or_zero (some d) = d

-- The three differences of instants agree: the panicking one panics where the checked one is `none`,
-- which is where the first instant is before the second, and the saturating one is zero there and
-- the same duration elsewhere.
differences_agree :
    (i earlier : Instant)
    → (Instant.duration_since i earlier ≡ Instant.checked_duration_since i earlier)
      × ((Instant.checked_duration_since i earlier ≡ none) ↔ (i.ticks < earlier.ticks))
      × (Instant.saturating_duration_since i earlier
          ≡ or_zero (Instant.checked_duration_since i earlier))
unfolding Instant.duration_since Instant.checked_duration_since Instant.saturating_duration_since
differences_agree i earlier = (ground arith, ground arith, ground arith)

-- If the sum of two durations does not panic, subtracting one from it gives the other back. If the
-- product with a non-zero scalar does not panic, dividing it by the scalar gives the duration back.
div-mul :
    (a b s t : Duration) (k : ℕ)
    → 0 < k
    → Duration.add a b ≡ some s
    → Duration.mul a k ≡ some t
    → (Duration.sub s b ≡ some a) × (Duration.div t k ≡ some a)
unfolding Duration.add Duration.sub Duration.mul Duration.div
div-mul a b s t k pos e1 e2 = (ground arith, grind arith)
