-- ===== src/Nrf/Rtc/Steps.antt =====
-- What is reached from the start of the clock, and that its alarms stay armed.
use embassy.Base.{
  ℕ, suc, ◌+◌, ◌%◌, ◌^◌, ◌≤◌, ◌<◌, ◌≡◌, refl, sym, subst, ◌⊎◌, inl, inr, Bool, false, some, arith,
  ◌==◌, le-or-lt,
}
use embassy.Time.{u64_mod, Profile}
use embassy.Base.Tables.{put}
use embassy.Nrf.Rtc.{Rtc, new_rtc, start, rtc_now, set_alarm, on_interrupt}
use embassy.Nrf.Rtc.Now.{rtc_now-eq}
use embassy.Nrf.Rtc.Channels.{channel}
use embassy.Nrf.Rtc.Armed.{IsArmed}
use embassy.Nrf.Rtc.Events.{clock_tick, IsStarted}
use embassy.Nrf.Rtc.Handled.{IsRunning, IsRunning-set, IsClock-events}
use embassy.Nrf.Rtc.Ticks.{IsRunning-on_interrupt, IsRunning-clock_tick}

-- What may happen: a tick, whose interrupt is handled before the next tick, a call of `set_alarm`, the
-- interrupt at some other time, and a compare event of an alarm that is raised or not.
pub data Step (p : Profile) (call : ℕ → Rtc → Rtc) (time : ℕ) (r : Rtc) (time' : ℕ) (r' : Rtc)
    : Type 0 where
  tick :
      suc time < 2 ^ 55
      → time' ≡ suc time
      → clock_tick call p (suc time) r ≡ some r'
      → Step p call time r time' r'
  set :
      (n at : ℕ)
      → n < 3
      → at < u64_mod
      → time' ≡ time
      → r' ≡ set_alarm call (time % 2 ^ 24) n at r
      → Step p call time r time' r'
  interrupt : time' ≡ time → on_interrupt call p r ≡ some r' → Step p call time r time' r'
  raise :
      (n : ℕ) (b : Bool)
      → n < 3
      → time' ≡ time
      → r' ≡ record r { events_compare = put r.events_compare n b }
      → Step p call time r time' r'

module _ (call : ℕ → Rtc → Rtc)
    (keeps : (f time : ℕ) (r : Rtc) → IsRunning time r → IsRunning time (call f r)) where
  IsRunning-raise :
      (time n : ℕ) (b : Bool) (r : Rtc)
      → n < 3
      → IsRunning time r
      → IsRunning time (record r { events_compare = put r.events_compare n b })
  IsRunning-raise time n b r h (k, i) =
      let other : (3 == n) ≡ false = ground arith in
      let raised = record r { events_compare = put r.events_compare n b } in
      let still : IsStarted raised = record {
        half = i.half;
        overflows = i.overflows;
        halves = i.halves;
        no_overflow = i.no_overflow;
        no_half = rw other i.no_half;
      } in
      (IsClock-events time r r.events_ovrflw raised.events_compare k, still)

  IsRunning-Step :
      (p : Profile) (time time' : ℕ) (r r' : Rtc)
      → IsRunning time r
      → Step p call time r time' r'
      → IsRunning time' r'
  IsRunning-Step p time time' r r' k (tick small et er) =
      subst (λ u. IsRunning u r') (sym et) (IsRunning-clock_tick call keeps p time r r' k small er)
  IsRunning-Step p time time' r r' k (set n at h fits et er) =
      subst (λ u. IsRunning u r') (sym et)
        (subst (IsRunning time) (sym er) (IsRunning-set call keeps time n at r h k fits))
  IsRunning-Step p time time' r r' k (interrupt et er) =
      subst (λ u. IsRunning u r') (sym et) (IsRunning-on_interrupt call keeps p time r r' k er)
  IsRunning-Step p time time' r r' k (raise n b h et er) =
      subst (λ u. IsRunning u r') (sym et)
        (subst (IsRunning time) (sym er) (IsRunning-raise time n b r h k))

IsRunning-start : (cc : ℕ → ℕ) → IsRunning 0 (start (new_rtc cc))
unfolding start new_rtc
IsRunning-start cc = (
  record {
    early = omega arith;
    counts = refl;
    fits = λ n. omega arith;
    armed = λ n h lo hi. absurd (omega arith);
  },
  record { half = refl; overflows = refl; halves = refl; no_overflow = refl; no_half = refl },
)

-- What the driver reaches from its start at time 0.
pub data Reach (p : Profile) (call : ℕ → Rtc → Rtc) (cc : ℕ → ℕ) : ℕ → Rtc → Type 0 where
  begin : Reach p call cc 0 (start (new_rtc cc))
  next :
      {time time' : ℕ} {r r' : Rtc}
      → Reach p call cc time r
      → Step p call time r time' r'
      → Reach p call cc time' r'

module _ (call : ℕ → Rtc → Rtc)
    (keeps : (f time : ℕ) (r : Rtc) → IsRunning time r → IsRunning time (call f r)) where
  IsRunning-Reach :
      {p : Profile} {cc : ℕ → ℕ} {time : ℕ} {r : Rtc} → Reach p call cc time r → IsRunning time r
  IsRunning-Reach {cc} begin = IsRunning-start cc
  IsRunning-Reach {p} (next {time} {time'} {r} {r'} before step) =
      IsRunning-Step call keeps p time time' r r' (IsRunning-Reach before) step

  -- Whatever ticks, with the events that the hardware raises at them and the interrupts that those
  -- cause, alarms that are set, and other interrupts have come since the start, the clock reads the
  -- time, and an alarm whose time has not come, but comes within 0x400000 ticks, has its compare event
  -- enabled for its time or at most 2 ticks later, if callbacks keep the driver's clock and registers.
  pub alarms-IsArmed :
      {p : Profile} {cc : ℕ → ℕ} {time : ℕ} {r : Rtc} (n : ℕ)
      → Reach p call cc time r
      → n < 3
      → (rtc_now r (time % 2 ^ 24) ≡ time)
        × (((r.alarms n).timestamp ≤ time)
            ⊎ ((time + 0x400000 ≤ (r.alarms n).timestamp) ⊎ IsArmed (channel n r)))
  alarms-IsArmed {time} {r} n reach h =
      let (k, i) = IsRunning-Reach reach in
      let counts = k.counts in
      (
        rtc_now-eq r time time k.counts (omega arith) (omega (arith, counts)),
        elim (le-or-lt (r.alarms n).timestamp time) [
          | inl past ↦ inl past
          | inr lo ↦ elim (le-or-lt (time + 0x400000) (r.alarms n).timestamp) [
            | inl far ↦ inr (inl far)
            | inr hi ↦ inr (inr (k.armed n h lo (omega arith)))
          ]
        ],
      )
