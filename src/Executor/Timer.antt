-- ===== src/Executor/Timer.antt =====
-- embassy/src/executor/timer.rs: futures that wait for a time. A poll is by a task, at a reading of
-- the clock (`none` is a clock that is not set), and on the executor's state, where it registers
-- its time. `none` is a panic.
mod Polls
mod Tests
use mathlib.Core.Option
use embassy.Base.{ℕ, Bool, true, false, not, Option, none, some, leb, if◌then◌else◌}
use embassy.Poll.{Poll, pending, ready}
use embassy.Time.{Profile}
use embassy.Time.Duration
use embassy.Time.Duration.{Duration}
use embassy.Time.Instant
use embassy.Time.Instant.{Instant}
use embassy.Executor.{System}
use embassy.Executor.Raw.{register_timer}

pub record Timer : Type 0 where
  pub expires_at : Instant
  pub yielded_once : Bool

unfoldable pub timer_at : Instant → Timer
timer_at i = record { expires_at = i; yielded_once = false }

unfoldable pub timer_after : Option ℕ → Duration → Option Timer
unfolding Instant.now_instant Instant.add
timer_after clock d = elim (Instant.now_instant clock) [
  | none ↦ none
  | some i ↦ Option.map (λ e. record { expires_at = e; yielded_once = false }) (Instant.add i d)
]

-- The part of `Timer::poll` that waits.
abbrev pub timer_wait : ℕ → Timer → System → Poll (Unit {0}) × Timer × System
timer_wait t self s =
    (pending, record self { yielded_once = true }, register_timer s t self.expires_at.ticks)

-- `Timer::poll`: the clock is read only after the first poll.
unfoldable pub timer_poll :
    Option ℕ → ℕ → Timer → System → Option (Poll (Unit {0}) × Timer × System)
unfolding Instant.now_instant
timer_poll clock t self s =
    if not self.yielded_once then some (timer_wait t self s) else elim (Instant.now_instant clock) [
      | none ↦ none
      | some i ↦
          if leb self.expires_at.ticks i.ticks
          then some (ready tt, self, s)
          else some (timer_wait t self s)
    ]

-- `Delay::delay_ms` and `Delay::delay_us`.
unfoldable pub delay_ms : Profile → Option ℕ → ℕ → Option Timer
unfolding timer_after Duration.from_millis
delay_ms p clock millis = elim (Duration.from_millis p millis) [
  | none ↦ none
  | some d ↦ timer_after clock d
]

unfoldable pub delay_us : Profile → Option ℕ → ℕ → Option Timer
unfolding timer_after Duration.from_micros
delay_us p clock micros = elim (Duration.from_micros p micros) [
  | none ↦ none
  | some d ↦ timer_after clock d
]

pub record Ticker : Type 0 where
  pub expires_at : Instant
  pub duration : Duration

unfoldable pub every : Option ℕ → Duration → Option Ticker
unfolding Instant.now_instant Instant.add
every clock d = elim (Instant.now_instant clock) [
  | none ↦ none
  | some i ↦ Option.map (λ e. record { expires_at = e; duration = d }) (Instant.add i d)
]

-- `Ticker::poll_next`; the stream has no end, so what is ready is always an item.
unfoldable pub poll_next :
    Option ℕ → ℕ → Ticker → System → Option (Poll (Unit {0}) × Ticker × System)
unfolding Instant.now_instant Instant.add
poll_next clock t self s = elim (Instant.now_instant clock) [
  | none ↦ none
  | some i ↦
      if leb self.expires_at.ticks i.ticks
      then elim (Instant.add self.expires_at self.duration) [
        | none ↦ none
        | some e ↦ some (ready tt, record self { expires_at = e }, s)
      ]
      else some (pending, self, register_timer s t self.expires_at.ticks)
]

-- What `with_timeout` awaits to: the output of the future, or `TimeoutError`.
pub data TimeoutResult (A : Type 0) : Type 0 where
  in_time : A → TimeoutResult A
  timeout_error : TimeoutResult A

-- The future that `with_timeout` is: its timer is made at the first poll.
pub data WithTimeout (F : Type 0) : Type 0 where
  not_started : Duration → F → WithTimeout F
  racing : Timer → F → WithTimeout F

module _ {F A : Type 0} (poll_fut : F → System → Poll A × F × System) where
  unfoldable pub start_timeout : Option ℕ → WithTimeout F → Option (Timer × F)
  unfolding timer_after
  start_timeout clock (not_started d f) = Option.map (λ tm. (tm, f)) (timer_after clock d)
  start_timeout clock (racing tm f) = some (tm, f)

  -- `select`: the future is polled first, and the timer if that is pending.
  unfoldable pub select :
      Option ℕ → ℕ → Timer → F → System → Option (Poll (TimeoutResult A) × WithTimeout F × System)
  unfolding timer_poll
  select clock t tm f s =
      let (p, f', s') = poll_fut f s in
      let timed : Option (Poll (TimeoutResult A) × WithTimeout F × System) =
        elim (timer_poll clock t tm s') [
          | none ↦ none
          | some (q, tm', s'') ↦
              let answer : Poll (TimeoutResult A) = elim q [
                | pending ↦ pending
                | ready u ↦ ready timeout_error
              ] in
              some (answer, racing tm' f', s'')
        ] in
      elim p [ pending ↦ timed | ready a ↦ some (ready (in_time a), racing tm f', s') ]

  unfoldable pub with_timeout_poll :
      Option ℕ
      → ℕ
      → WithTimeout F
      → System
      → Option (Poll (TimeoutResult A) × WithTimeout F × System)
  unfolding start_timeout select
  with_timeout_poll clock t w s = elim (start_timeout clock w) [
    | none ↦ none
    | some (tm, f) ↦ select clock t tm f s
  ]
