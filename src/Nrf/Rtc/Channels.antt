-- ===== src/Nrf/Rtc/Channels.antt =====
-- One alarm's part of the driver's state, at the start of a period.
use embassy.Base.{
  ℕ, zero, suc, ◌+◌, ◌%◌, ◌^◌, ◌<◌, ◌≡◌, refl, sym, ap, ◌∙◌, subst, Bool, true, false, ◌&&◌, arith,
  ltb, leb, ◌==◌, if◌then◌else◌, ==_refl,
}
use embassy.Time.{u64_mod}
use embassy.Nrf.Rtc.{compare_n, AlarmState, Rtc}
use embassy.Nrf.Rtc.Alarms.{rearmed}

-- What the driver keeps of one alarm: its state, and its compare event and value.
abbrev pub channel : ℕ → Rtc → AlarmState × Bool × ℕ
channel n r = (r.alarms n, r.inten (compare_n n), r.cc n)

abbrev pub is_near : ℕ → ℕ → Bool
is_near t at = leb t at && ltb at (t + 0xc00000)

-- An alarm at the start `t` of a period.
abbrev pub channel_after : ℕ → AlarmState × Bool × ℕ → AlarmState × Bool × ℕ
channel_after t (a, enabled, cc) =
    if is_near t a.timestamp then (a, true, a.timestamp % 2 ^ 24) else (a, enabled, cc)

module _ (t n : ℕ) (r : Rtc) where
  pub alarms-rearmed : (rearmed t n r).alarms ≡ r.alarms
  alarms-rearmed = ground arith

  period-rearmed : (rearmed t n r).period ≡ r.period
  period-rearmed = ground arith

  channel-rearmed_self : channel n (rearmed t n r) ≡ channel_after t (channel n r)
  channel-rearmed_self = ground (arith, ==_refl n, ==_refl (n + 16))

  channel-rearmed_other : (m : ℕ) → (m == n) ≡ false → channel m (rearmed t n r) ≡ channel m r
  channel-rearmed_other m ne = let ne' : (m + 16 == n + 16) ≡ false = ground arith in ground arith

abbrev pub all_rearmed : ℕ → Rtc → Rtc
all_rearmed t r = rearmed t 2 (rearmed t 1 (rearmed t 0 r))

pub channel-all_rearmed :
    (t n : ℕ) (r : Rtc) → n < 3 → channel n (all_rearmed t r) ≡ channel_after t (channel n r)
channel-all_rearmed t zero r h =
    channel-rearmed_other t 2 (rearmed t 1 (rearmed t 0 r)) 0 refl
    ∙ channel-rearmed_other t 1 (rearmed t 0 r) 0 refl
    ∙ channel-rearmed_self t 0 r
channel-all_rearmed t (suc zero) r h =
    channel-rearmed_other t 2 (rearmed t 1 (rearmed t 0 r)) 1 refl
    ∙ channel-rearmed_self t 1 (rearmed t 0 r)
    ∙ ap (channel_after t) (channel-rearmed_other t 0 r 1 refl)
channel-all_rearmed t (suc (suc zero)) r h =
    channel-rearmed_self t 2 (rearmed t 1 (rearmed t 0 r))
    ∙ ap (channel_after t)
        (channel-rearmed_other t 1 (rearmed t 0 r) 2 refl ∙ channel-rearmed_other t 0 r 2 refl)
channel-all_rearmed t (suc (suc (suc n))) r h = absurd (omega arith)

abbrev pub Fits : Rtc → Type 0
Fits r = (n : ℕ) → (r.alarms n).timestamp < u64_mod

pub period-all_rearmed : (t : ℕ) (r : Rtc) → (all_rearmed t r).period ≡ r.period
period-all_rearmed t r =
    let r0 = rearmed t 0 r in
    let r1 = rearmed t 1 r0 in period-rearmed t 2 r1 ∙ period-rearmed t 1 r0 ∙ period-rearmed t 0 r

pub alarms-all_rearmed : (t : ℕ) (r : Rtc) → (all_rearmed t r).alarms ≡ r.alarms
alarms-all_rearmed t r =
    let r0 = rearmed t 0 r in
    let r1 = rearmed t 1 r0 in alarms-rearmed t 2 r1 ∙ alarms-rearmed t 1 r0 ∙ alarms-rearmed t 0 r

pub Fits-rearmed : (t n : ℕ) (r r' : Rtc) → r' ≡ rearmed t n r → Fits r → Fits r'
Fits-rearmed t n r r' e fits m =
    subst (λ a. (a m).timestamp < u64_mod) (sym (ap (λ s. s.alarms) e ∙ alarms-rearmed t n r))
      (fits m)
