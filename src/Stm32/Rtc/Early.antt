-- ===== src/Stm32/Rtc/Early.antt =====
-- An alarm that is triggered before its time, by a flag that the timer raised while it was disabled.
use embassy.Base.{
  ℕ, zero, suc, ◌+◌, ◌-◌, ◌≤◌, ◌<◌, ◌≡◌, refl, ap, ◌∙◌, inl, inr, Bool, true, false, none, some,
  arith, ltb, leb, ◌==◌, ==_refl, Bool-cases,
}
use embassy.Time.{u64_max, Profile}
use embassy.Stm32.Rtc.{
  calc_now, compare_interrupt_status, compare_clear_flag, Rtc, rtc_now, set_timestamp, disarm,
  trigger_alarm, set_alarm, overflow_event, half_event, compare_event, on_interrupt,
}
use embassy.Stm32.Rtc.Masked.{raised}

-- A callback leaves the alarms and the flags.
pub record IsQuiet (call : ℕ → Rtc → Rtc) : Type 0 where
  pub alarms_kept : (f : ℕ) (r : Rtc) → (call f r).alarms ≡ r.alarms
  pub flags_kept : (f : ℕ) (r : Rtc) → (call f r).timer.sr ≡ r.timer.sr

abbrev IsOff : ℕ → Rtc → Type 0
IsOff n r = (r.alarms (n - 1)).timestamp ≡ u64_max

-- A far alarm is not armed.
set_alarm-far :
    (last : ℕ) (call : ℕ → Rtc → Rtc) (counter n at : ℕ) (r : Rtc)
    → rtc_now r counter + 0xc000 ≤ at
    → set_alarm last call counter n at r ≡ disarm last n (set_timestamp r n at)
unfolding set_alarm rtc_now
set_alarm-far last call counter n at r far =
    let t = calc_now r.period counter in
    let later : leb at t ≡ false = ground arith in
    let not_near : ltb (at - t) 0xc000 ≡ false = ground arith in rw (later, not_near) refl

module _ (last : ℕ) (call : ℕ → Rtc → Rtc) (quiet : IsQuiet call) where
  abbrev hushed : ℕ → Rtc → Rtc
  hushed n r = set_timestamp (disarm last n r) n u64_max

  trigger_alarm-alarms :
      (n : ℕ) (r : Rtc) → (trigger_alarm last call n r).alarms ≡ (hushed n r).alarms
  unfolding trigger_alarm
  trigger_alarm-alarms n r =
      elim (r.alarms (n - 1)).callback
        as (λ o.
          (elim o as (λ x. Rtc) [ none ↦ hushed n r | some f ↦ call f (hushed n r) ]).alarms
          ≡ (hushed n r).alarms) [ none ↦ refl | some f ↦ quiet.alarms_kept f (hushed n r) ]

  trigger_alarm-flags : (n : ℕ) (r : Rtc) → (trigger_alarm last call n r).timer.sr ≡ r.timer.sr
  unfolding trigger_alarm
  trigger_alarm-flags n r =
      elim (r.alarms (n - 1)).callback
        as (λ o.
          (elim o as (λ x. Rtc) [ none ↦ hushed n r | some f ↦ call f (hushed n r) ]).timer.sr
          ≡ r.timer.sr) [ none ↦ same | some f ↦ quiet.flags_kept f (hushed n r) ∙ same ]
    where
      same : (hushed n r).timer.sr ≡ r.timer.sr
      same = ground arith

  IsOff-trigger_alarm : (n : ℕ) (r : Rtc) → IsOff n (trigger_alarm last call n r)
  IsOff-trigger_alarm n r =
      ap (λ a. (a (n - 1)).timestamp) (trigger_alarm-alarms n r) ∙ rw (==_refl (n - 1)) refl

  trigger_alarm-IsOff : (m n : ℕ) (r : Rtc) → IsOff n r → IsOff n (trigger_alarm last call m r)
  trigger_alarm-IsOff m n r off =
      ap (λ a. (a (n - 1)).timestamp) (trigger_alarm-alarms m r)
      ∙ elim (Bool-cases (n - 1 == m - 1)) [ inl is ↦ rw is refl | inr other ↦ rw other off ]

  abbrev flag_cleared : ℕ → Rtc → Rtc
  flag_cleared n r = record r { timer = compare_clear_flag last n r.timer }

  compare_event-fires :
      (n : ℕ) (r : Rtc)
      → n ≤ last
      → r.timer.sr (n + 1) ≡ true
      → IsOff n (compare_event last call n r)
  unfolding compare_event
  compare_event-fires n r has flag =
      let fires : compare_interrupt_status last n r.timer ≡ true = ground arith in
      rw fires (IsOff-trigger_alarm n (flag_cleared n r))

  compare_event-IsOff : (m n : ℕ) (r : Rtc) → IsOff n r → IsOff n (compare_event last call m r)
  unfolding compare_event
  compare_event-IsOff m n r off = elim (Bool-cases (compare_interrupt_status last m r.timer)) [
    | inl fires ↦ rw fires (trigger_alarm-IsOff m n (flag_cleared m r) off)
    | inr other ↦ rw other off
  ]

  flag_cleared-flag :
      (m n : ℕ) (r : Rtc) → m < n → (flag_cleared m r).timer.sr (n + 1) ≡ r.timer.sr (n + 1)
  flag_cleared-flag m n r before = ground arith

  compare_event-flag :
      (m n : ℕ) (r : Rtc)
      → m < n
      → (compare_event last call m r).timer.sr (n + 1) ≡ r.timer.sr (n + 1)
  unfolding compare_event
  compare_event-flag m n r before = elim (Bool-cases (compare_interrupt_status last m r.timer)) [
    | inl fires ↦ rw fires (
        ap (λ f. f (n + 1)) (trigger_alarm-flags m (flag_cleared m r))
        ∙ flag_cleared-flag m n r before)
    | inr other ↦ rw other refl
  ]

  abbrev compare_events : Rtc → Rtc
  compare_events r =
      compare_event last call 3 (compare_event last call 2 (compare_event last call 1 r))

  compare_events-fire :
      (n : ℕ) (r : Rtc)
      → 0 < n
      → n < 4
      → n ≤ last
      → r.timer.sr (n + 1) ≡ true
      → IsOff n (compare_events r)
  compare_events-fire zero r pos small has flag = absurd (omega arith)
  compare_events-fire (suc zero) r pos small has flag =
      compare_event-IsOff 3 1 _ (compare_event-IsOff 2 1 _ (compare_event-fires 1 r has flag))
  compare_events-fire (suc (suc zero)) r pos small has flag =
      compare_event-IsOff 3 2 _
        (compare_event-fires 2 _ has (compare_event-flag 1 2 r (omega arith) ∙ flag))
  compare_events-fire (suc (suc (suc zero))) r pos small has flag =
      compare_event-fires 3 _ has
        (compare_event-flag 2 3 _ (omega arith) ∙ compare_event-flag 1 3 r (omega arith) ∙ flag)
  compare_events-fire (suc (suc (suc (suc n)))) r pos small has flag = absurd (omega arith)

  on_interrupt-compare_events :
      (p : Profile) (r : Rtc)
      → r.timer.sr 0 ≡ false
      → r.timer.sr 1 ≡ false
      → on_interrupt last call p r ≡ some (compare_events r)
  unfolding on_interrupt overflow_event half_event
  on_interrupt-compare_events p r over half =
      let no_half : compare_interrupt_status last 0 r.timer ≡ false = ground arith in
      rw (over, no_half) refl

  -- An alarm that is set 0xc000 ticks ahead or more has its interrupt disabled. If the timer has its
  -- flag raised when the handler runs, and no period starts, then the alarm is triggered all the same:
  -- it is off from then on, if callbacks leave alarms and flags.
  pub stale_flag_fires :
      (p : Profile) (counter n at : ℕ) (sr : ℕ → Bool) (r : Rtc)
      → 0 < n
      → n < 4
      → n ≤ last
      → rtc_now r counter + 0xc000 ≤ at
      → sr 0 ≡ false
      → sr 1 ≡ false
      → sr (n + 1) ≡ true
      → ((set_alarm last call counter n at r).timer.dier (n + 1) ≡ false)
        × ((r' : Rtc) × (on_interrupt last call p (raised sr (set_alarm last call counter n at r))
              ≡ some r')
            × ((r'.alarms (n - 1)).timestamp ≡ u64_max))
  stale_flag_fires p counter n at sr r pos small has far over half flag =
      let s = raised sr (set_alarm last call counter n at r) in
      (
        ap (λ x. x.timer.dier (n + 1)) (set_alarm-far last call counter n at r far) ∙ ground arith,
        (
          compare_events s,
          on_interrupt-compare_events p s over half,
          compare_events-fire n s pos small has flag,
        ),
      )
