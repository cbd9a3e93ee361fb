-- ===== src/Stm32/Rtc.antt =====
-- embassy-stm32/src/rtc.rs: the clock, a 16-bit counter that is extended to 64 bits, and its alarms,
-- over a timer's registers. Compare channel 0 is for the middle of the counter, channel n for alarm
-- n. The counter is what is read of it; flags are raised by the timer. A panic is `none`.
pub mod Clock
pub mod Periods
pub mod Masked
pub mod Missed
pub mod Early
mod Tests
use mathlib.Core.Option
use Prim.Native.Nat.{bit_xor}
use embassy.Base.{
  ℕ, ◌+◌, ◌-◌, ◌*◌, ◌/◌, ◌%◌, ◌^◌, max, Bool, true, false, Option, none, some, ltb, leb, ◌==◌,
  if◌then◌else◌,
}
use embassy.Base.Options.{◌>>=◌}
use embassy.Base.Tables.{put}
use embassy.Time.{ticks_per_second, u64_max, Profile, sub_u64, to_u32, sub_u32}

-- `period << 15` and `counter ^ ((period & 1) << 15)`.
unfoldable pub calc_now : ℕ → ℕ → ℕ
calc_now period counter = period * 2 ^ 15 + bit_xor counter (period % 2 * 2 ^ 15)

pub record AlarmState : Type 0 where
  pub timestamp : ℕ
  pub callback : Option ℕ

abbrev pub new_alarm : AlarmState
new_alarm = record { timestamp = u64_max; callback = none }

-- A timer: its compare registers, the bits of its interrupt enable and status registers, and
-- whether it counts.
pub record Timer : Type 0 where
  pub ccr : ℕ → ℕ
  pub dier : ℕ → Bool
  pub sr : ℕ → Bool
  pub psc : ℕ
  pub arr : ℕ
  pub counts : Bool

-- What `impl_timer` gives for a timer whose last compare channel is `last`: 3, or 1.
abbrev pub set_compare : ℕ → ℕ → ℕ → Timer → Timer
set_compare last n value t = if leb n last then record t { ccr = put t.ccr n value } else t

abbrev pub set_compare_interrupt : ℕ → ℕ → Bool → Timer → Timer
set_compare_interrupt last n enable t =
    if ltb last n then t else record t { dier = put t.dier (n + 1) enable }

abbrev pub compare_interrupt_status : ℕ → ℕ → Timer → Bool
compare_interrupt_status last n t = if leb n last then t.sr (n + 1) else false

abbrev pub compare_clear_flag : ℕ → ℕ → Timer → Timer
compare_clear_flag last n t = if ltb last n then t else record t { sr = put t.sr (n + 1) false }

abbrev pub overflow_interrupt_status : Timer → Bool
overflow_interrupt_status t = t.sr 0

abbrev pub overflow_clear_flag : Timer → Timer
overflow_clear_flag t = record t { sr = put t.sr 0 false }

abbrev pub set_psc_arr : ℕ → ℕ → Timer → Timer
set_psc_arr psc arr t = record t { psc = psc; arr = arr }

abbrev pub stop_and_reset : Timer → Timer
stop_and_reset t = record t { counts = false }

abbrev pub start_timer : Timer → Timer
start_timer t = record t { counts = true }

-- The alarms stand in the array from index 0, and are called by 1 to 3.
pub record Rtc : Type 0 where
  pub period : ℕ
  pub alarms : ℕ → AlarmState
  pub timer : Timer

unfoldable pub new_rtc : Timer → Rtc
new_rtc t = record { period = 0; alarms = λ n. new_alarm; timer = t }

-- The prescaler that `start` computes from the bus clock: the product and the difference are on u32,
-- and `try_into().unwrap()` panics past 16 bits.
unfoldable pub prescaler : Profile → ℕ → ℕ → Option ℕ
prescaler p ppre pclk = do
  freq ← to_u32 p (pclk * (if ppre == 1 then 1 else 2))
  psc ← sub_u32 p (freq / ticks_per_second) 1
  if ltb psc (2 ^ 16) then some psc else none

-- `start`, before it sets its handler and enables its interrupt.
unfoldable pub start : ℕ → Profile → ℕ → ℕ → Rtc → Option Rtc
unfolding prescaler
start last p ppre pclk r =
    Option.map
      (λ psc. record r {
        timer = start_timer (
            set_compare_interrupt last 0 true
              (set_compare last 0 0x8000 (set_psc_arr psc (2 ^ 16 - 1) (stop_and_reset r.timer))));
      })
      (prescaler p ppre pclk)

unfoldable pub rtc_now : Rtc → ℕ → ℕ
unfolding calc_now
rtc_now r counter = calc_now r.period counter

abbrev pub set_timestamp : Rtc → ℕ → ℕ → Rtc
set_timestamp r n at = record r {
  alarms = put r.alarms (n - 1) (record (r.alarms (n - 1)) { timestamp = at });
}

-- Compare channel n is given a value, and its interrupt enabled; or that is disabled.
abbrev pub arm : ℕ → ℕ → ℕ → Rtc → Rtc
arm last n value r = record r {
  timer = set_compare_interrupt last n true (set_compare last n value r.timer);
}

abbrev pub disarm : ℕ → ℕ → Rtc → Rtc
disarm last n r = record r { timer = set_compare_interrupt last n false r.timer }

-- A callback is called with the driver's state, where it may set alarms.
module _ (last : ℕ) (call : ℕ → Rtc → Rtc) where
  unfoldable pub trigger_alarm : ℕ → Rtc → Rtc
  trigger_alarm n r =
      let quiet = set_timestamp (disarm last n r) n u64_max in
      elim (r.alarms (n - 1)).callback [ none ↦ quiet | some f ↦ call f quiet ]

  unfoldable pub set_alarm : ℕ → ℕ → ℕ → Rtc → Rtc
  unfolding rtc_now trigger_alarm
  set_alarm counter n timestamp r =
      let set = set_timestamp r n timestamp in
      let t = rtc_now set counter in
      if leb timestamp t
      then trigger_alarm n set
      else if ltb (timestamp - t) 0xc000
      then arm last n (max timestamp (t + 3) % 2 ^ 16) set
      else disarm last n set

unfoldable pub set_alarm_callback : ℕ → ℕ → Rtc → Rtc
set_alarm_callback n f r = record r {
  alarms = put r.alarms (n - 1) (record (r.alarms (n - 1)) { callback = some f });
}

-- `alarm1`, `alarm2` and `alarm3`: whether a timer with `count` alarms has the one of that number.
abbrev pub has_alarm : ℕ → ℕ → Bool
has_alarm count n = leb n count

-- The body of the loop of `next_period`, at the start `t` of the period.
unfoldable pub rearm : ℕ → Profile → ℕ → ℕ → Rtc → Option Rtc
rearm last p t n r =
    let at = (r.alarms (n - 1)).timestamp in
    Option.map (λ diff. if ltb diff 0xc000 then arm last n (at % 2 ^ 16) r else r) (sub_u64 p at t)

unfoldable pub next_period : ℕ → Profile → Rtc → Option Rtc
unfolding rearm
next_period last p r = do
  period ← to_u32 p (r.period + 1)
  r1 ← rearm last p (period * 2 ^ 15) 1 (record r { period = (r.period + 1) % 2 ^ 32 })
  r2 ← rearm last p (period * 2 ^ 15) 2 r1
  rearm last p (period * 2 ^ 15) 3 r2

module _ (last : ℕ) (call : ℕ → Rtc → Rtc) where
  unfoldable pub overflow_event : Profile → Rtc → Option Rtc
  unfolding next_period
  overflow_event p r =
      if overflow_interrupt_status r.timer
      then next_period last p (record r { timer = overflow_clear_flag r.timer })
      else some r

  unfoldable pub half_event : Profile → Rtc → Option Rtc
  unfolding next_period
  half_event p r =
      if compare_interrupt_status last 0 r.timer
      then next_period last p (record r { timer = compare_clear_flag last 0 r.timer })
      else some r

  -- The body of the loop over the alarms.
  unfoldable pub compare_event : ℕ → Rtc → Rtc
  unfolding trigger_alarm
  compare_event n r =
      if compare_interrupt_status last n r.timer
      then trigger_alarm last call n (record r { timer = compare_clear_flag last n r.timer })
      else r

  unfoldable pub on_interrupt : Profile → Rtc → Option Rtc
  unfolding overflow_event half_event compare_event
  on_interrupt p r = do
    r' ← overflow_event p r
    r'' ← half_event p r'
    some (compare_event 3 (compare_event 2 (compare_event 1 r'')))
