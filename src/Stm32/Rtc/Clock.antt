-- ===== src/Stm32/Rtc/Clock.antt =====
-- When the clock starts, and what it reads.
use embassy.Base.{
  ℕ, ◌+◌, ◌-◌, ◌*◌, ◌/◌, ◌%◌, ◌^◌, ◌≤◌, ◌<◌, ◌≡◌, refl, sym, ap, ◌∙◌, ◌⊎◌, inl, inr, true, Option,
  none, some, arith, ltb, ◌==◌, if◌then◌else◌, le-or-lt,
}
use embassy.Base.Tables.{put}
use embassy.Base.Options.{◌>>=◌}
use embassy.Base.Words.{bit_xor-top16, bit_xor-zero, parity}
use embassy.Time.{Profile, dev, release, sub_u32}
use embassy.Stm32.Rtc.{
  calc_now, Timer, set_compare, set_compare_interrupt, set_psc_arr, stop_and_reset, start_timer,
  Rtc, prescaler, start, rtc_now,
}

-- The frequency of a timer: that of its bus, or twice that if the bus has a prescaler.
abbrev pub timer_freq : ℕ → ℕ → ℕ
timer_freq ppre pclk = if ppre == 1 then pclk else pclk * 2

-- The prescaler from the frequency.
abbrev of_freq : Profile → ℕ → Option ℕ
of_freq p freq = sub_u32 p (freq / 32768) 1 >>= λ psc. if ltb psc (2 ^ 16) then some psc else none

prescaler-of_freq :
    (p : Profile) (ppre pclk : ℕ)
    → timer_freq ppre pclk < 2 ^ 32
    → prescaler p ppre pclk ≡ of_freq p (timer_freq ppre pclk)
unfolding prescaler
prescaler-of_freq dev ppre pclk h = ground arith
prescaler-of_freq release ppre pclk h = ground arith

of_freq_low : (p : Profile) (freq : ℕ) → freq < 32768 → of_freq p freq ≡ none
of_freq_low dev freq h = ground arith
of_freq_low release freq h = ground arith

of_freq_high :
    (p : Profile) (freq : ℕ) → freq < 2 ^ 32 → 65537 * 32768 ≤ freq → of_freq p freq ≡ none
of_freq_high dev freq h high = ground arith
of_freq_high release freq h high = ground arith

of_freq_fits :
    (p : Profile) (freq : ℕ)
    → freq < 2 ^ 32
    → 32768 ≤ freq
    → freq < 65537 * 32768
    → of_freq p freq ≡ some (freq / 32768 - 1)
of_freq_fits dev freq h lo hi = ground arith
of_freq_fits release freq h lo hi = ground arith

-- If the timer's frequency fits in 32 bits, then the clock starts exactly if that is at least one tick
-- rate and below 65,537 of them; it panics otherwise, with or without overflow checks. The timer's
-- rate is then at least 32,768 ticks per second, and too high by less than the part
-- 1 / (prescaler + 1) of that.
pub prescaler_lem :
    (p : Profile) (ppre pclk : ℕ)
    → timer_freq ppre pclk < 2 ^ 32
    → ((prescaler p ppre pclk ≡ none)
        × ((timer_freq ppre pclk < 32768) ⊎ (65537 * 32768 ≤ timer_freq ppre pclk)))
      ⊎ ((psc : ℕ) × (prescaler p ppre pclk ≡ some psc)
          × (psc < 2 ^ 16)
          × ((psc + 1) * 32768 ≤ timer_freq ppre pclk)
          × (timer_freq ppre pclk < (psc + 2) * 32768))
unfolding prescaler
prescaler_lem p ppre pclk h =
    let freq = timer_freq ppre pclk in
    let e = prescaler-of_freq p ppre pclk h in
    elim (le-or-lt 32768 freq) [
      | inr low ↦ inl (e ∙ of_freq_low p freq low, inl low)
      | inl some_ticks ↦ elim (le-or-lt (65537 * 32768) freq) [
        | inl high ↦ inl (e ∙ of_freq_high p freq h high, inr high)
        | inr fits ↦ inr (
          freq / 32768 - 1,
          e ∙ of_freq_fits p freq h some_ticks fits,
          omega arith,
          omega arith,
          omega arith,
        )
      ]
    ]

calc_now-eq :
    (period before time : ℕ)
    → period ≡ before / 2 ^ 15
    → before ≤ time
    → time / 2 ^ 15 ≤ period + 1
    → calc_now period (time % 2 ^ 16) ≡ time
unfolding calc_now
calc_now-eq period before time right le near = elim (parity period) [
  | inl even ↦ rw even (omega (arith, bit_xor-zero (time % 2 ^ 16)))
  | inr odd ↦ rw odd (omega (arith, bit_xor-top16 (time % 2 ^ 16) (omega arith)))
]

-- If the period that is read was right at some time before, and at most one more has started by the
-- time at which the 16-bit counter is read, then the clock reads that time.
pub counter_read :
    (r : Rtc) (before time : ℕ)
    → r.period ≡ before / 2 ^ 15
    → before ≤ time
    → time / 2 ^ 15 ≤ r.period + 1
    → rtc_now r (time % 2 ^ 16) ≡ time
unfolding rtc_now
counter_read r before time right le near = calc_now-eq r.period before time right le near

-- Every timer has compare channel 0.
set_compare-middle :
    (last value : ℕ) (t : Timer) → set_compare last 0 value t ≡ record t { ccr = put t.ccr 0 value }
set_compare-middle last value t = ground arith

set_compare_interrupt-middle :
    (last : ℕ) (t : Timer)
    → set_compare_interrupt last 0 true t ≡ record t { dier = put t.dier 1 true }
set_compare_interrupt-middle last t = ground arith

-- The state of a clock that was started.
abbrev pub started : ℕ → Rtc → Rtc
started psc r = record r {
  timer = record r.timer {
    ccr = put r.timer.ccr 0 0x8000;
    dier = put r.timer.dier 1 true;
    psc = psc;
    arr = 2 ^ 16 - 1;
    counts = true;
  };
}

-- If the timer's frequency fits in 32 bits, then `start` panics exactly if that is below one tick rate
-- or at least 65,537 of them, with or without overflow checks. Otherwise the timer counts at no less
-- than 32,768 ticks per second, and at less than that for the next prescaler; its whole 16 bits are
-- counted, and its middle raises an interrupt.
start_lem :
    (last : ℕ) (p : Profile) (ppre pclk : ℕ) (r : Rtc)
    → timer_freq ppre pclk < 2 ^ 32
    → ((start last p ppre pclk r ≡ none)
        × ((timer_freq ppre pclk < 32768) ⊎ (65537 * 32768 ≤ timer_freq ppre pclk)))
      ⊎ ((r' : Rtc) × (start last p ppre pclk r ≡ some r')
          × ((r'.timer.psc + 1) * 32768 ≤ timer_freq ppre pclk)
          × (timer_freq ppre pclk < (r'.timer.psc + 2) * 32768)
          × (r'.timer.psc < 2 ^ 16)
          × (r'.timer.arr ≡ 0xFFFF)
          × (r'.timer.ccr 0 ≡ 0x8000)
          × (r'.timer.dier 1 ≡ true)
          × (r'.timer.counts ≡ true))
unfolding start
start_lem last p ppre pclk r h = elim (prescaler_lem p ppre pclk h) [
  | inl (panics, why) ↦ inl (rw panics refl, why)
  | inr (psc, e, fits, lo, hi) ↦
      inr (started psc r, rw e (ap some (sym (middle psc))), lo, hi, fits, refl, refl, refl, refl)
]
  where
    with_timer : Timer → Rtc
    with_timer t = record r { timer = start_timer t }

    enabled : Timer → Timer
    enabled t = record t { dier = put t.dier 1 true }

    set_up : ℕ → Timer
    set_up psc = set_psc_arr psc (2 ^ 16 - 1) (stop_and_reset r.timer)

    middle :
        (psc : ℕ)
        → started psc r ≡ record r {
          timer =
              start_timer
                (set_compare_interrupt last 0 true (set_compare last 0 0x8000 (set_up psc)));
        }
    middle psc = ap with_timer (
        sym (
          set_compare_interrupt-middle last (set_compare last 0 0x8000 (set_up psc))
          ∙ ap enabled (set_compare-middle last 0x8000 (set_up psc))))
