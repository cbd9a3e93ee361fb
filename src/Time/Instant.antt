-- ===== src/Time/Instant.antt =====
-- embassy/src/time/instant.rs: a point in time, in ticks since startup.
use mathlib.Core.Option
use embassy.Base.{ℕ, ◌-◌, ◌*◌, ◌/◌, Option, none, some, ltb, if◌then◌else◌}
use embassy.Time.{ticks_per_second, u64_max, Profile, to_u64, checked_add_u64, checked_sub_u64, now}
use embassy.Time.Duration.{Duration}

pub record Instant : Type 0 where
  pub ticks : ℕ

abbrev pub min_instant : Instant
min_instant = record { ticks = 0 }

abbrev pub max_instant : Instant
max_instant = record { ticks = u64_max }

-- `Instant::now`; `none` is the panic of a clock that is not set.
unfoldable pub now_instant : Option ℕ → Option Instant
unfolding now
now_instant clock = Option.map (λ t. record { ticks = t }) (now clock)

unfoldable pub from_ticks : ℕ → Instant
from_ticks t = record { ticks = t }

unfoldable pub from_millis : Profile → ℕ → Option Instant
from_millis p millis =
    Option.map (λ t. record { ticks = t / 1000 }) (to_u64 p (millis * ticks_per_second))

unfoldable pub from_secs : Profile → ℕ → Option Instant
from_secs p secs = Option.map (λ t. record { ticks = t }) (to_u64 p (secs * ticks_per_second))

unfoldable pub as_ticks : Instant → ℕ
as_ticks i = i.ticks

unfoldable pub as_secs : Instant → ℕ
as_secs i = i.ticks / ticks_per_second

unfoldable pub as_millis : Profile → Instant → Option ℕ
as_millis p i = Option.map (λ t. t / ticks_per_second) (to_u64 p (i.ticks * 1000))

-- It unwraps the checked difference.
unfoldable pub duration_since : Instant → Instant → Option Duration
duration_since i earlier =
    Option.map (λ t. record { ticks = t }) (checked_sub_u64 i.ticks earlier.ticks)

unfoldable pub checked_duration_since : Instant → Instant → Option Duration
checked_duration_since i earlier =
    if ltb i.ticks earlier.ticks then none else some (record { ticks = i.ticks - earlier.ticks })

unfoldable pub saturating_duration_since : Instant → Instant → Duration
saturating_duration_since i earlier = record {
  ticks = if ltb i.ticks earlier.ticks then 0 else i.ticks - earlier.ticks;
}

unfoldable pub checked_add : Instant → Duration → Option Instant
checked_add i d = Option.map (λ t. record { ticks = t }) (checked_add_u64 i.ticks d.ticks)

unfoldable pub checked_sub : Instant → Duration → Option Instant
checked_sub i d = Option.map (λ t. record { ticks = t }) (checked_sub_u64 i.ticks d.ticks)

-- The operators `expect` the checked operation.
unfoldable pub add : Instant → Duration → Option Instant
unfolding checked_add
add i d = checked_add i d

unfoldable pub sub : Instant → Duration → Option Instant
unfolding checked_sub
sub i d = checked_sub i d

unfoldable pub elapsed : Option ℕ → Instant → Option Duration
unfolding now_instant duration_since
elapsed clock i = elim (now_instant clock) [ none ↦ none | some t ↦ duration_since t i ]
