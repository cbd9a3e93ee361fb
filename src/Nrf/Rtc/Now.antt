-- ===== src/Nrf/Rtc/Now.antt =====
-- The time that the clock reads, also when a period starts between its two reads.
use embassy.Base.{ℕ, ◌+◌, ◌/◌, ◌%◌, ◌^◌, ◌≤◌, ◌≡◌, inl, inr, arith}
use embassy.Base.Words.{bit_xor-top24, bit_xor-zero, parity}
use embassy.Nrf.Rtc.{calc_now, Rtc, rtc_now}

-- The counter is the time modulo 2^24.
calc_now-eq :
    (period before time : ℕ)
    → period ≡ before / 2 ^ 23
    → before ≤ time
    → time / 2 ^ 23 ≤ period + 1
    → calc_now period (time % 2 ^ 24) ≡ time
unfolding calc_now
calc_now-eq period before time right le near = elim (parity period) [
  | inl even ↦ rw even (omega (arith, bit_xor-zero (time % 2 ^ 24)))
  | inr odd ↦ rw odd (omega (arith, bit_xor-top24 (time % 2 ^ 24) (omega arith)))
]

-- If the period that is read was right at some time before, and at most one more has started by the
-- time at which the 24-bit counter is read, then the clock reads that time.
pub rtc_now-eq :
    (r : Rtc) (before time : ℕ)
    → r.period ≡ before / 2 ^ 23
    → before ≤ time
    → time / 2 ^ 23 ≤ r.period + 1
    → rtc_now r (time % 2 ^ 24) ≡ time
unfolding rtc_now
rtc_now-eq r before time right le near = calc_now-eq r.period before time right le near
