-- ===== src/Stm32/Rtc/Tests.antt =====
-- The theorems on the timer's clock at concrete states, and runs of the code.
use embassy.Base.{ℕ, ◌%◌, ◌^◌, ◌≡◌, refl, Bool, false, none, some, arith, leb, ◌==◌}
use embassy.Time.{u64_max, dev, release}
use embassy.Stm32.Rtc.{
  calc_now, new_alarm, Timer, Rtc, new_rtc, prescaler, start, rtc_now, set_timestamp, set_alarm,
  rearm, next_period, overflow_event, half_event, compare_event, on_interrupt,
}
use embassy.Stm32.Rtc.Clock.{counter_read, started}
use embassy.Stm32.Rtc.Masked.{overflow_enabled, raised, begin, set, here, next, overflow_masked}
use embassy.Stm32.Rtc.Missed.{IsFirst, alarm_missed}
use embassy.Stm32.Rtc.Early.{IsQuiet, stale_flag_fires}

-- A timer after reset.
abbrev reset_timer : Timer
reset_timer = record {
  ccr = λ n. 0;
  dier = λ b. false;
  sr = λ b. false;
  psc = 0;
  arr = 0xFFFF;
  counts = false;
}

abbrev idle : Rtc
idle = record { period = 0; alarms = λ n. new_alarm; timer = reset_timer }

new_idle : new_rtc reset_timer ≡ idle
unfolding new_rtc
new_idle = refl

-- A bus at 84 MHz without a prescaler of its timers.
abbrev started_idle : Rtc
started_idle = started 2562 idle

start_idle : start 3 dev 1 84_000_000 idle ≡ some started_idle
unfolding start prescaler
start_idle = refl

-- The counter has wrapped, and the handler has not run.
abbrev wrapped : Rtc
wrapped = record idle { period = 1 }

read_wrapped : rtc_now wrapped (0x1_0005 % 2 ^ 16) ≡ 0x1_0005
read_wrapped = counter_read wrapped 0xFFFF 0x1_0005 refl (omega arith) (omega arith)

abbrev signal : ℕ → Rtc → Rtc
signal f r = r

abbrev far_set : Rtc
far_set = set_alarm 3 signal 0 2 100_000 started_idle

overflow_masked_example : overflow_enabled far_set ≡ overflow_enabled idle
overflow_masked_example =
    overflow_masked 3 signal (λ f r. refl) {p = dev} {r = idle} {r' = far_set}
      (next (next here (begin 1 84_000_000 start_idle)) (set 0 2 100_000 refl))

-- Both halves of the counter have passed when the handler runs.
abbrev both_flags : ℕ → Bool
both_flags b = leb b 1

abbrev late : Rtc
late = raised both_flags (record (set_timestamp idle 1 0x1_6000) { period = 1 })

alarm_missed_example :
    (r' : Rtc) × (on_interrupt 3 signal release late ≡ some r')
    × (r'.period ≡ 3)
    × ((r'.alarms 0).timestamp ≡ 0x1_6000)
    × IsFirst 0x1_8000 (r'.timer.ccr 1) 0x2_6000
alarm_missed_example =
    alarm_missed 3 signal 1 0x1_6000 late (omega arith) (omega arith) (omega arith) (omega arith)
      refl refl (λ m lo hi. ground arith) refl (omega arith) (omega arith)

-- With overflow checks the same state panics.
late_panics : on_interrupt 3 signal dev late ≡ none
unfolding on_interrupt overflow_event half_event next_period rearm compare_event
late_panics = refl

abbrev second_flag : ℕ → Bool
second_flag b = b == 3

signal-IsQuiet : IsQuiet signal
signal-IsQuiet = record { alarms_kept = λ f r. refl; flags_kept = λ f r. refl }

stale_flag_fires_example :
    ((set_alarm 3 signal 0 2 100_000 started_idle).timer.dier 3 ≡ false)
    × ((r' : Rtc) × (on_interrupt 3 signal dev
            (raised second_flag (set_alarm 3 signal 0 2 100_000 started_idle))
          ≡ some r')
        × ((r'.alarms 1).timestamp ≡ u64_max))
unfolding rtc_now calc_now
stale_flag_fires_example =
    stale_flag_fires 3 signal signal-IsQuiet dev 0 2 100_000 second_flag started_idle (omega arith)
      (omega arith) (omega arith) (omega arith) refl refl refl
