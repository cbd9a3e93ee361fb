-- ===== src/Time/Duration.antt =====
-- embassy/src/time/duration.rs: a number of ticks, with checked and panicking arithmetic.
use mathlib.Core.Option
use embassy.Base.{ℕ, ◌*◌, ◌/◌, Option}
use embassy.Time.{
  ticks_per_second, Profile, to_u64, checked_add_u64, checked_sub_u64, checked_mul_u64,
  checked_div_u64,
}

pub record Duration : Type 0 where
  pub ticks : ℕ

unfoldable pub as_ticks : Duration → ℕ
as_ticks d = d.ticks

unfoldable pub as_secs : Duration → ℕ
as_secs d = d.ticks / ticks_per_second

-- The product is computed first, in u64, and then divided.
unfoldable pub as_millis : Profile → Duration → Option ℕ
as_millis p d = Option.map (λ t. t / ticks_per_second) (to_u64 p (d.ticks * 1000))

unfoldable pub as_micros : Profile → Duration → Option ℕ
as_micros p d = Option.map (λ t. t / ticks_per_second) (to_u64 p (d.ticks * 1000000))

unfoldable pub from_ticks : ℕ → Duration
from_ticks t = record { ticks = t }

unfoldable pub from_secs : Profile → ℕ → Option Duration
from_secs p secs = Option.map (λ t. record { ticks = t }) (to_u64 p (secs * ticks_per_second))

unfoldable pub from_millis : Profile → ℕ → Option Duration
from_millis p millis =
    Option.map (λ t. record { ticks = t / 1000 }) (to_u64 p (millis * ticks_per_second))

unfoldable pub from_micros : Profile → ℕ → Option Duration
from_micros p micros =
    Option.map (λ t. record { ticks = t / 1000000 }) (to_u64 p (micros * ticks_per_second))

unfoldable pub checked_add : Duration → Duration → Option Duration
checked_add a b = Option.map (λ t. record { ticks = t }) (checked_add_u64 a.ticks b.ticks)

unfoldable pub checked_sub : Duration → Duration → Option Duration
checked_sub a b = Option.map (λ t. record { ticks = t }) (checked_sub_u64 a.ticks b.ticks)

-- The scalar is a u32.
unfoldable pub checked_mul : Duration → ℕ → Option Duration
checked_mul a k = Option.map (λ t. record { ticks = t }) (checked_mul_u64 a.ticks k)

unfoldable pub checked_div : Duration → ℕ → Option Duration
checked_div a k = Option.map (λ t. record { ticks = t }) (checked_div_u64 a.ticks k)

-- The operators `expect` the checked operation: `none` is their panic.
unfoldable pub add : Duration → Duration → Option Duration
unfolding checked_add
add a b = checked_add a b

unfoldable pub sub : Duration → Duration → Option Duration
unfolding checked_sub
sub a b = checked_sub a b

unfoldable pub mul : Duration → ℕ → Option Duration
unfolding checked_mul
mul a k = checked_mul a k

unfoldable pub div : Duration → ℕ → Option Duration
unfolding checked_div
div a k = checked_div a k
