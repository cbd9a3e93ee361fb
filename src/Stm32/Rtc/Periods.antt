-- ===== src/Stm32/Rtc/Periods.antt =====
-- What the starts of periods do to the alarms, without overflow checks.
use embassy.Base.{
  ℕ, zero, suc, ◌+◌, ◌-◌, ◌*◌, ◌%◌, ◌^◌, ◌≤◌, ◌<◌, ◌≡◌, refl, some, arith, ltb, if◌then◌else◌,
}
use embassy.Time.{u64_mod, release}
use embassy.Stm32.Rtc.{Rtc, arm, rearm, next_period}

-- How far an alarm is ahead of a time, as the driver computes it.
abbrev ahead : Rtc → ℕ → ℕ → ℕ
ahead r t n = ((r.alarms (n - 1)).timestamp + u64_mod - t) % u64_mod

abbrev rearmed : ℕ → ℕ → ℕ → Rtc → Rtc
rearmed last t n r =
    if ltb (ahead r t n) 0xc000 then arm last n ((r.alarms (n - 1)).timestamp % 2 ^ 16) r else r

rearm-rearmed : (last t n : ℕ) (r : Rtc) → rearm last release t n r ≡ some (rearmed last t n r)
unfolding rearm
rearm-rearmed last t n r = refl

-- The state after a period has started.
abbrev pub after_start : ℕ → Rtc → Rtc
after_start last r =
    let t = (r.period + 1) % 2 ^ 32 * 2 ^ 15 in
    rearmed last t 3
      (rearmed last t 2 (rearmed last t 1 (record r { period = (r.period + 1) % 2 ^ 32 })))

pub next_period-after_start :
    (last : ℕ) (r : Rtc) → next_period last release r ≡ some (after_start last r)
unfolding next_period rearm
next_period-after_start last r = refl

alarms-rearmed : (last t n : ℕ) (r : Rtc) → (rearmed last t n r).alarms ≡ r.alarms
alarms-rearmed last t n r = ground arith

pub alarms-after_start : (last : ℕ) (r : Rtc) → (after_start last r).alarms ≡ r.alarms
alarms-after_start last r = ground arith

pub period-after_start :
    (last : ℕ) (r : Rtc) → (after_start last r).period ≡ (r.period + 1) % 2 ^ 32
period-after_start last r = ground arith

pub sr-after_start : (last : ℕ) (r : Rtc) → (after_start last r).timer.sr ≡ r.timer.sr
sr-after_start last r = ground arith

pub ccr-after_start :
    (last n : ℕ) (r : Rtc)
    → 0 < n
    → n < 4
    → n ≤ last
    → (after_start last r).timer.ccr n ≡ (
        if ltb (ahead r ((r.period + 1) % 2 ^ 32 * 2 ^ 15) n) 0xc000
        then (r.alarms (n - 1)).timestamp % 2 ^ 16
        else r.timer.ccr n)
ccr-after_start last zero r pos small has = absurd (omega arith)
ccr-after_start last (suc zero) r pos small has = ground arith
ccr-after_start last (suc (suc zero)) r pos small has = ground arith
ccr-after_start last (suc (suc (suc zero))) r pos small has = ground arith
ccr-after_start last (suc (suc (suc (suc n)))) r pos small has = absurd (omega arith)
