-- ===== src/Nrf/Rtc/Tests.antt =====
-- The theorems on the clock at concrete states, and runs of the code.
use embassy.Base.{ℕ, ◌+◌, ◌≤◌, ◌<◌, max, ◌≡◌, refl, ◌⊎◌, true, false, none, some, arith}
use embassy.Time.{u64_mod, dev, release}
use embassy.Nrf.Rtc.{
  calc_now, compare_n, new_alarm, Rtc, set_timestamp, new_rtc, start, rtc_now, trigger_alarm,
  set_alarm, next_period,
}
use embassy.Nrf.Rtc.Alarms.{IsFirst, set_alarm_lem}
use embassy.Nrf.Rtc.Channels.{channel, channel_after}
use embassy.Nrf.Rtc.Periods.{next_start, IsAhead, next_period_lem}
use embassy.Nrf.Rtc.Armed.{IsArmed}
use embassy.Nrf.Rtc.Events.{raised, clock_tick}
use embassy.Nrf.Rtc.Handled.{IsRunning}
use embassy.Nrf.Rtc.Steps.{tick, set, Reach, begin, next, alarms-IsArmed}
use embassy.Nrf.Rtc.Late.{alarm_put_off}

abbrev idle : Rtc
idle = record {
  period = 1;
  alarms = λ n. new_alarm;
  cc = λ n. 0;
  inten = λ b. false;
  events_ovrflw = false;
  events_compare = λ n. false;
}

-- The table of the source's own test.
calc_now_table :
    (calc_now 0 0x7FFFFF ≡ 0x7FFFFF)
    × (calc_now 1 0x7FFFFF ≡ 0x1_7FFFFF)
    × (calc_now 0 0x800000 ≡ 0x800000)
    × (calc_now 1 0x800001 ≡ 0x800001)
    × (calc_now 2 0xFFFFFF ≡ 0x1_FFFFFF)
    × (calc_now 1 0x000000 ≡ 0x1_000000)
unfolding calc_now
calc_now_table = (refl, refl, refl, refl, refl, refl)

abbrev silent : ℕ → Rtc → Rtc
silent f r = r

abbrev set_near : Rtc
set_near = set_alarm silent 0x800100 1 0x800101 idle

set_alarm_lem_example :
    ((0x800101 ≤ 0x800100) × (set_near ≡ trigger_alarm silent 1 (set_timestamp idle 1 0x800101)))
    ⊎ (((0x800100 < 0x800101)
          × (0x800101 < 0x800100 + 0xc00000)
          × ((set_near.alarms 1).timestamp ≡ 0x800101)
          × (set_near.inten (compare_n 1) ≡ true)
          × IsFirst 0x800100 (set_near.cc 1) (max 0x800101 0x800103))
        ⊎ ((0x800100 + 0xc00000 ≤ 0x800101)
            × ((set_near.alarms 1).timestamp ≡ 0x800101)
            × (set_near.inten (compare_n 1) ≡ false)))
unfolding rtc_now calc_now
set_alarm_lem_example = set_alarm_lem silent 0x800100 1 0x800100 0x800101 idle refl

-- An alarm that the clock has passed, and that was not triggered yet.
abbrev passed : Rtc
passed = set_timestamp idle 1 0xFFFFFE

next_period_lem_example :
    ((next_period dev passed ≡ none)
      × (dev ≡ dev)
      × ((n : ℕ) × (n < 3) × ((passed.alarms n).timestamp < next_start passed)))
    ⊎ ((r' : Rtc) × (next_period dev passed ≡ some r')
        × IsAhead dev (next_start passed) passed
        × (r'.period ≡ 2)
        × ((n : ℕ) → n < 3 → channel n r' ≡ channel_after (next_start passed) (channel n passed)))
next_period_lem_example = next_period_lem dev passed (omega arith) (λ n. fits n)
  where
    fits : (n : ℕ) → (passed.alarms n).timestamp < u64_mod
    fits n = ground arith

abbrev soon : Rtc
soon = set_alarm silent 0 2 100 (start (new_rtc (λ n. 0)))

silent_keeps : (f time : ℕ) (r : Rtc) → IsRunning time r → IsRunning time (silent f r)
silent_keeps f time r k = k

soon-Reach : Reach release silent (λ n. 0) 0 soon
soon-Reach = next begin (set 2 100 (omega arith) (omega arith) refl refl)

-- A tick later, with the events that are raised.
abbrev later : Rtc
later = raised 1 soon

later-Reach : Reach release silent (λ n. 0) 1 later
unfolding clock_tick start new_rtc set_alarm rtc_now calc_now
later-Reach = next soon-Reach (tick (omega arith) refl refl)

alarms-IsArmed_example :
    (rtc_now later 1 ≡ 1)
    × (((later.alarms 2).timestamp ≤ 1)
        ⊎ ((1 + 0x400000 ≤ (later.alarms 2).timestamp) ⊎ IsArmed (channel 2 later)))
alarms-IsArmed_example = alarms-IsArmed silent silent_keeps 2 later-Reach (omega arith)

alarm_put_off_example :
    IsFirst 0xFFFFFE ((set_alarm silent 0xFFFFFE 0 0x1_000000 idle).cc 0) 0x1_000001
    × ((r' : Rtc) × (next_period release (set_alarm silent 0xFFFFFE 0 0x1_000000 idle) ≡ some r')
        × IsFirst 0x1_000000 (r'.cc 0) 0x2_000000)
unfolding rtc_now calc_now
alarm_put_off_example =
    alarm_put_off release silent 0xFFFFFE 0 idle (omega arith) (omega arith) (λ n. omega arith)
      (λ m. omega arith) refl
