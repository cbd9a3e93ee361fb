-- ===== src/Time.antt =====
-- embassy/src/time/mod.rs: the clock, the tick rate, and 64-bit arithmetic in the two build profiles.
-- A panic is `none`. Plain `+ - *` on u64 panic on overflow where the profile has overflow checks
-- (`profile.dev` of Cargo.example.toml) and wrap where it has none (`profile.release`).
pub mod Duration
pub mod Instant
pub mod Convert
pub mod Arithmetic
mod Tests
use embassy.Base.{
  ℕ, ◌+◌, ◌-◌, ◌*◌, ◌/◌, ◌%◌, ◌^◌, Option, none, some, ltb, leb, ◌==◌, if◌then◌else◌,
}

abbrev pub ticks_per_second : ℕ
ticks_per_second = 32768

abbrev pub u64_mod : ℕ
u64_mod = 2 ^ 64

abbrev pub u64_max : ℕ
u64_max = u64_mod - 1

pub data Profile : Type 0 where
  dev release : Profile

-- The value of a sum or product whose exact result is `n`.
abbrev pub to_u64 : Profile → ℕ → Option ℕ
to_u64 dev n = if ltb n u64_mod then some n else none
to_u64 release n = some (n % u64_mod)

-- A plain difference, which wraps where it is not checked, and the same on u32.
abbrev pub sub_u64 : Profile → ℕ → ℕ → Option ℕ
sub_u64 dev a b = if leb b a then some (a - b) else none
sub_u64 release a b = some ((a + u64_mod - b) % u64_mod)

abbrev pub to_u32 : Profile → ℕ → Option ℕ
to_u32 dev n = if ltb n (2 ^ 32) then some n else none
to_u32 release n = some (n % 2 ^ 32)

abbrev pub sub_u32 : Profile → ℕ → ℕ → Option ℕ
sub_u32 dev a b = if leb b a then some (a - b) else none
sub_u32 release a b = some ((a + 2 ^ 32 - b) % 2 ^ 32)

-- `u64::checked_add`, `checked_sub`, `checked_mul`, `checked_div` of the standard library.
abbrev pub checked_add_u64 : ℕ → ℕ → Option ℕ
checked_add_u64 a b = if ltb (a + b) u64_mod then some (a + b) else none

abbrev pub checked_sub_u64 : ℕ → ℕ → Option ℕ
checked_sub_u64 a b = if leb b a then some (a - b) else none

abbrev pub checked_mul_u64 : ℕ → ℕ → Option ℕ
checked_mul_u64 a b = if ltb (a * b) u64_mod then some (a * b) else none

abbrev pub checked_div_u64 : ℕ → ℕ → Option ℕ
checked_div_u64 a b = if b == 0 then none else some (a / b)

-- `now`: `CLOCK` is `none` until `set_clock`, and a call before it panics. The clock's reading is
-- the parameter.
unfoldable pub now : Option ℕ → Option ℕ
now clock = clock
