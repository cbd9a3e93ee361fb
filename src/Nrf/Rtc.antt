-- ===== src/Nrf/Rtc.antt =====
-- embassy-nrf/src/rtc.rs: the clock, a 24-bit counter that is extended to 64 bits, and its alarms.
-- The registers are those that the driver writes: `cc` as it was written, and the set of enabled
-- interrupts, by their bits, which `intenset` adds to and `intenclr` takes from. The counter is what
-- is read of it. A panic is `none`.
pub mod Now
pub mod Alarms
pub mod Channels
pub mod Periods
pub mod Armed
pub mod Events
pub mod Handled
pub mod Ticks
pub mod Steps
pub mod Late
mod Tests
use mathlib.Core.Option
use Prim.Native.Nat.{bit_xor}
use embassy.Base.{
  ℕ, ◌+◌, ◌-◌, ◌*◌, ◌%◌, ◌^◌, max, Bool, true, false, Option, none, some, ltb, leb, if◌then◌else◌,
}
use embassy.Base.Tables.{put}
use embassy.Time.{u64_max, Profile, sub_u64, to_u32}

-- `period << 23` and `counter ^ ((period & 1) << 23)`.
unfoldable pub calc_now : ℕ → ℕ → ℕ
calc_now period counter = period * 2 ^ 23 + bit_xor counter (period % 2 * 2 ^ 23)

-- The bit of `compare_n`, and of the other two interrupts that are used.
abbrev pub compare_n : ℕ → ℕ
compare_n n = n + 16

abbrev pub ovrflw_bit : ℕ
ovrflw_bit = 1

abbrev pub alarm_count : ℕ
alarm_count = 3

pub record AlarmState : Type 0 where
  pub timestamp : ℕ
  pub callback : Option ℕ

abbrev pub new_alarm : AlarmState
new_alarm = record { timestamp = u64_max; callback = none }

pub record Rtc : Type 0 where
  pub period : ℕ
  pub alarms : ℕ → AlarmState
  pub cc : ℕ → ℕ
  pub inten : ℕ → Bool
  pub events_ovrflw : Bool
  pub events_compare : ℕ → Bool

abbrev pub write_cc : Rtc → ℕ → ℕ → Rtc
write_cc r n v = record r { cc = put r.cc n v }

abbrev pub intenset : Rtc → ℕ → Rtc
intenset r bit = record r { inten = put r.inten bit true }

abbrev pub intenclr : Rtc → ℕ → Rtc
intenclr r bit = record r { inten = put r.inten bit false }

abbrev pub set_timestamp : Rtc → ℕ → ℕ → Rtc
set_timestamp r n at = record r { alarms = put r.alarms n (record (r.alarms n) { timestamp = at }) }

unfoldable pub new_rtc : (ℕ → ℕ) → Rtc
new_rtc cc = record {
  period = 0;
  alarms = λ n. new_alarm;
  cc = cc;
  inten = λ b. false;
  events_ovrflw = false;
  events_compare = λ n. false;
}

-- The registers that `start` writes; then it waits until the counter reads 0, and enables its
-- interrupt.
unfoldable pub start : Rtc → Rtc
start r = intenset (intenset (write_cc r 3 0x800000) ovrflw_bit) (compare_n 3)

-- `Clock::now`: the period is read first, then the counter.
unfoldable pub rtc_now : Rtc → ℕ → ℕ
unfolding calc_now
rtc_now r counter = calc_now r.period counter

-- A callback is called with the driver's state, where it may set alarms.
module _ (call : ℕ → Rtc → Rtc) where
  unfoldable pub trigger_alarm : ℕ → Rtc → Rtc
  trigger_alarm n r =
      let quiet = set_timestamp (intenclr r (compare_n n)) n u64_max in
      elim (r.alarms n).callback [ none ↦ quiet | some f ↦ call f quiet ]

  unfoldable pub set_alarm : ℕ → ℕ → ℕ → Rtc → Rtc
  unfolding rtc_now trigger_alarm
  set_alarm counter n timestamp r =
      let set = set_timestamp r n timestamp in
      let t = rtc_now set counter in
      let safe_timestamp = max timestamp (t + 3) in
      if leb timestamp t
      then trigger_alarm n set
      else if ltb (timestamp - t) 0xc00000
      then intenset (write_cc set n (safe_timestamp % 2 ^ 24)) (compare_n n)
      else intenclr set (compare_n n)

  -- The methods of `Alarm`.
  unfoldable pub alarm_set : ℕ → ℕ → ℕ → Rtc → Rtc
  unfolding set_alarm
  alarm_set counter n timestamp r = set_alarm counter n timestamp r

  unfoldable pub alarm_clear : ℕ → ℕ → Rtc → Rtc
  unfolding set_alarm
  alarm_clear counter n r = set_alarm counter n u64_max r

unfoldable pub set_alarm_callback : ℕ → ℕ → Rtc → Rtc
set_alarm_callback n f r = record r {
  alarms = put r.alarms n (record (r.alarms n) { callback = some f });
}

-- The body of the loop of `next_period`, at the start `t` of the period.
unfoldable pub rearm : Profile → ℕ → ℕ → Rtc → Option Rtc
rearm p t n r =
    let at = (r.alarms n).timestamp in
    let armed = intenset (write_cc r n (at % 2 ^ 24)) (compare_n n) in
    Option.map (λ diff. if ltb diff 0xc00000 then armed else r) (sub_u64 p at t)

unfoldable pub rearm_all : Profile → ℕ → Rtc → Option Rtc
unfolding rearm
rearm_all p t r = elim (rearm p t 0 r) [
  | none ↦ none
  | some r0 ↦ elim (rearm p t 1 r0) [ none ↦ none | some r1 ↦ rearm p t 2 r1 ]
]

-- `fetch_add` wraps; the sum after it is an ordinary one.
unfoldable pub next_period : Profile → Rtc → Option Rtc
unfolding rearm_all
next_period p r =
    let counted = record r { period = (r.period + 1) % 2 ^ 32 } in
    elim (to_u32 p (r.period + 1)) [
      | none ↦ none
      | some period ↦ rearm_all p (period * 2 ^ 23) counted
    ]

module _ (call : ℕ → Rtc → Rtc) where
  -- The body of the loop of `on_interrupt`.
  unfoldable pub compare_event : ℕ → Rtc → Rtc
  unfolding trigger_alarm
  compare_event n r =
      let cleared = record r { events_compare = put r.events_compare n false } in
      if r.events_compare n then trigger_alarm call n cleared else r

  unfoldable pub period_event : Profile → Rtc → Option Rtc
  unfolding next_period
  period_event p r =
      if r.events_ovrflw then next_period p (record r { events_ovrflw = false }) else some r

  unfoldable pub half_event : Profile → Rtc → Option Rtc
  unfolding next_period
  half_event p r =
      let cleared = record r { events_compare = put r.events_compare 3 false } in
      if r.events_compare 3 then next_period p cleared else some r

  unfoldable pub on_interrupt : Profile → Rtc → Option Rtc
  unfolding period_event half_event compare_event
  on_interrupt p r = elim (period_event p r) [
    | none ↦ none
    | some r' ↦
        Option.map (λ h. compare_event 2 (compare_event 1 (compare_event 0 h))) (half_event p r')
  ]
