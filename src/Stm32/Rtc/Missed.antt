-- ===== src/Stm32/Rtc/Missed.antt =====
-- An alarm that the handler sees only after its time, as it runs at the middle of the counter only.
use embassy.Base.{
  ℕ, ◌+◌, ◌-◌, ◌*◌, ◌%◌, ◌^◌, ◌≤◌, ◌<◌, ◌≡◌, refl, sym, ap, ◌∙◌, subst, ◌≢◌, inl, inr, true, false,
  some, arith, ltb, leb, Bool-cases,
}
use embassy.Base.Options.{>>=-eq}
use embassy.Time.{u64_mod, release}
use embassy.Stm32.Rtc.{
  compare_interrupt_status, compare_clear_flag, overflow_clear_flag, Rtc, overflow_event,
  half_event, compare_event, on_interrupt,
}
use embassy.Stm32.Rtc.Periods.{
  after_start, next_period-after_start, alarms-after_start, period-after_start, sr-after_start,
  ccr-after_start,
}

-- The first time after `time` at which the 16-bit counter is `ccr`.
pub record IsFirst (time ccr first : ℕ) : Type 0 where
  pub later : time < first
  pub matches : first % 2 ^ 16 ≡ ccr
  pub none_before : (u : ℕ) → time < u → u < first → u % 2 ^ 16 ≢ ccr

IsFirst-past :
    (time at : ℕ) → at ≤ time → time < at + 2 ^ 16 → IsFirst time (at % 2 ^ 16) (at + 2 ^ 16)
IsFirst-past time at past near = record {
  later = near;
  matches = omega arith;
  none_before = λ u lo hi e. omega arith;
}

compare_event-quiet :
    (last : ℕ) (call : ℕ → Rtc → Rtc) (n : ℕ) (r : Rtc)
    → r.timer.sr (n + 1) ≡ false
    → compare_event last call n r ≡ r
unfolding compare_event
compare_event-quiet last call n r quiet = elim (Bool-cases (leb n last)) [
  | inl has ↦ rw (has, quiet) refl
  | inr other ↦ rw other refl
]

abbrev overflow_cleared : Rtc → Rtc
overflow_cleared r = record r { timer = overflow_clear_flag r.timer }

abbrev half_cleared : ℕ → Rtc → Rtc
half_cleared last r = record r { timer = compare_clear_flag last 0 r.timer }

-- The state when both starts of periods were handled.
abbrev after_both : ℕ → Rtc → Rtc
after_both last r = after_start last (half_cleared last (after_start last (overflow_cleared r)))

sr-half_cleared :
    (last n : ℕ) (r : Rtc) → 0 < n → (half_cleared last r).timer.sr (n + 1) ≡ r.timer.sr (n + 1)
sr-half_cleared last n r pos = ground arith

ccr-half_cleared : (last : ℕ) (r : Rtc) → (half_cleared last r).timer.ccr ≡ r.timer.ccr
ccr-half_cleared last r = ground arith

sr-after_both :
    (last n : ℕ) (r : Rtc) → 0 < n → (after_both last r).timer.sr (n + 1) ≡ r.timer.sr (n + 1)
sr-after_both last n r pos =
    ap (λ f. f (n + 1))
      (sr-after_start last (half_cleared last (after_start last (overflow_cleared r))))
    ∙ sr-half_cleared last n (after_start last (overflow_cleared r)) pos
    ∙ ap (λ f. f (n + 1)) (sr-after_start last (overflow_cleared r))
    ∙ ground arith

overflow_event-after_start :
    (last : ℕ) (call : ℕ → Rtc → Rtc) (r : Rtc)
    → r.timer.sr 0 ≡ true
    → overflow_event last call release r ≡ some (after_start last (overflow_cleared r))
unfolding overflow_event
overflow_event-after_start last call r over =
    rw over (next_period-after_start last (overflow_cleared r))

half_event-after_start :
    (last : ℕ) (call : ℕ → Rtc → Rtc) (r : Rtc)
    → r.timer.sr 1 ≡ true
    → half_event last call release r ≡ some (after_start last (half_cleared last r))
unfolding half_event
half_event-after_start last call r half =
    let raised : compare_interrupt_status last 0 r.timer ≡ true = ground arith in
    rw raised (next_period-after_start last (half_cleared last r))

compare_events-quiet :
    (last : ℕ) (call : ℕ → Rtc → Rtc) (r : Rtc)
    → ((n : ℕ) → 0 < n → n < 4 → r.timer.sr (n + 1) ≡ false)
    → compare_event last call 3 (compare_event last call 2 (compare_event last call 1 r)) ≡ r
compare_events-quiet last call r quiet =
    let step : (n : ℕ) → 0 < n → n < 4 → compare_event last call n r ≡ r =
      λ n lo hi. compare_event-quiet last call n r (quiet n lo hi) in
    ap (λ s. compare_event last call 3 (compare_event last call 2 s))
      (step 1 (omega arith) (omega arith))
    ∙ ap (compare_event last call 3) (step 2 (omega arith) (omega arith))
    ∙ step 3 (omega arith) (omega arith)

on_interrupt-after_both :
    (last : ℕ) (call : ℕ → Rtc → Rtc) (r : Rtc)
    → r.timer.sr 0 ≡ true
    → r.timer.sr 1 ≡ true
    → ((n : ℕ) → 0 < n → n < 4 → r.timer.sr (n + 1) ≡ false)
    → on_interrupt last call release r ≡ some (after_both last r)
unfolding on_interrupt
on_interrupt-after_both last call r over half quiet =
    let overflowed = after_start last (overflow_cleared r) in
    >>=-eq (overflow_event last call release r) _ overflowed
      (overflow_event-after_start last call r over)
    ∙ >>=-eq (half_event last call release overflowed) _ (after_both last r) (
        half_event-after_start last call overflowed
          (ap (λ f. f 1) (sr-after_start last (overflow_cleared r)) ∙ half))
    ∙ ap some (
        compare_events-quiet last call (after_both last r)
          (λ n lo hi. sr-after_both last n r lo ∙ quiet n lo hi))

-- A period's start passes over an alarm of the period before.
ccr-after_start_past :
    (last n at : ℕ) (r : Rtc)
    → 0 < n
    → n < 4
    → n ≤ last
    → r.period + 1 < 2 ^ 32
    → (r.alarms (n - 1)).timestamp ≡ at
    → r.period * 2 ^ 15 ≤ at
    → at < (r.period + 1) * 2 ^ 15
    → (after_start last r).timer.ccr n ≡ r.timer.ccr n
ccr-after_start_past last n at r pos small has early is lo hi =
    let start : (r.period + 1) % 2 ^ 32 * 2 ^ 15 ≡ (r.period + 1) * 2 ^ 15 = omega arith in
    let far : ltb ((at + u64_mod - (r.period + 1) * 2 ^ 15) % u64_mod) 0xc000 ≡ false =
      ground arith in
    ccr-after_start last n r pos small has ∙ rw (is, start, far) refl

ccr-after_start_due :
    (last n at : ℕ) (r : Rtc)
    → 0 < n
    → n < 4
    → n ≤ last
    → r.period + 1 < 2 ^ 32
    → (r.alarms (n - 1)).timestamp ≡ at
    → (r.period + 1) * 2 ^ 15 ≤ at
    → at < (r.period + 2) * 2 ^ 15
    → (after_start last r).timer.ccr n ≡ at % 2 ^ 16
ccr-after_start_due last n at r pos small has early is lo hi =
    let start : (r.period + 1) % 2 ^ 32 * 2 ^ 15 ≡ (r.period + 1) * 2 ^ 15 = omega arith in
    let near : ltb ((at + u64_mod - (r.period + 1) * 2 ^ 15) % u64_mod) 0xc000 ≡ true =
      ground arith in
    ccr-after_start last n r pos small has ∙ rw (is, start, near) refl

-- What the handler makes of compare channel n when it sees two periods at once.
ccr-after_both :
    (last n at : ℕ) (r : Rtc)
    → 0 < n
    → n < 4
    → n ≤ last
    → r.period + 2 < 2 ^ 32
    → (r.alarms (n - 1)).timestamp ≡ at
    → (r.period + 1) * 2 ^ 15 ≤ at
    → at < (r.period + 2) * 2 ^ 15
    → (after_both last r).timer.ccr n ≡ at % 2 ^ 16
ccr-after_both last n at r pos small has early is lo hi =
    let overflowed = after_start last (overflow_cleared r) in
    let counted : overflowed.period ≡ r.period + 1 =
      period-after_start last (overflow_cleared r) ∙ omega arith in
    let kept : (overflowed.alarms (n - 1)).timestamp ≡ at =
      ap (λ a. (a (n - 1)).timestamp) (alarms-after_start last (overflow_cleared r)) ∙ is in
    ccr-after_start_past last n at (half_cleared last overflowed) pos small has (omega arith) kept
      (omega arith) (omega arith)
    ∙ ap (λ f. f n) (ccr-half_cleared last overflowed)
    ∙ ccr-after_start_due last n at (overflow_cleared r) pos small has (omega arith) is lo hi

-- If the handler sees the start of a period and its end at once, and no other flag, then without
-- overflow checks it leaves an alarm of that period as it is, with a compare value that next comes a
-- whole turn of the counter after the alarm's time.
pub alarm_missed :
    (last : ℕ) (call : ℕ → Rtc → Rtc) (n at : ℕ) (r : Rtc)
    → 0 < n
    → n < 4
    → n ≤ last
    → r.period + 2 < 2 ^ 32
    → r.timer.sr 0 ≡ true
    → r.timer.sr 1 ≡ true
    → ((m : ℕ) → 0 < m → m < 4 → r.timer.sr (m + 1) ≡ false)
    → (r.alarms (n - 1)).timestamp ≡ at
    → (r.period + 1) * 2 ^ 15 ≤ at
    → at < (r.period + 2) * 2 ^ 15
    → (r' : Rtc) × (on_interrupt last call release r ≡ some r')
      × (r'.period ≡ r.period + 2)
      × ((r'.alarms (n - 1)).timestamp ≡ at)
      × IsFirst ((r.period + 2) * 2 ^ 15) (r'.timer.ccr n) (at + 2 ^ 16)
alarm_missed last call n at r pos small has early over half quiet is lo hi =
    let overflowed = after_start last (overflow_cleared r) in
    let counted : overflowed.period ≡ r.period + 1 =
      period-after_start last (overflow_cleared r) ∙ omega arith in
    (
      after_both last r,
      on_interrupt-after_both last call r over half quiet,
      period-after_start last (half_cleared last overflowed) ∙ omega arith,
      ap (λ a. (a (n - 1)).timestamp)
            (alarms-after_start last (half_cleared last overflowed)
              ∙ alarms-after_start last (overflow_cleared r))
          ∙ is,
      subst (λ c. IsFirst ((r.period + 2) * 2 ^ 15) c (at + 2 ^ 16))
          (sym (ccr-after_both last n at r pos small has early is lo hi))
          (IsFirst-past ((r.period + 2) * 2 ^ 15) at (omega arith) (omega arith)),
    )
