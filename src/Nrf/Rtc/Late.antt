-- ===== src/Nrf/Rtc/Late.antt =====
-- An alarm that the start of a period puts off by a turn of the counter.
use embassy.Base.{
  ℕ, ◌+◌, ◌%◌, ◌^◌, ◌≤◌, ◌<◌, max, ◌≡◌, refl, sym, ap, ◌∙◌, subst, inl, inr, Bool, some, arith,
  ◌==◌, Bool-cases,
}
use embassy.Time.{u64_mod, Profile}
use embassy.Base.Tables.{}
use embassy.Nrf.Rtc.{
  compare_n, AlarmState, Rtc, write_cc, intenset, set_timestamp, rtc_now, set_alarm, next_period,
}
use embassy.Nrf.Rtc.Alarms.{IsFirst, IsFirst-turn, set_alarm-eq, set_alarm_branches}
use embassy.Nrf.Rtc.Channels.{channel, channel_after, Fits}
use embassy.Nrf.Rtc.Periods.{next_start, next_period_branches}

channel_after_now :
    (t : ℕ) (c : AlarmState × Bool × ℕ) → c.0.timestamp ≡ t → (channel_after t c).2 ≡ t % 2 ^ 24
channel_after_now t (a, enabled, cc) e = ground arith

timestamp_put :
    (r : Rtc) (n at m : ℕ) (P : ℕ → Type 0)
    → P (r.alarms m).timestamp
    → P at
    → P ((set_timestamp r n at).alarms m).timestamp
timestamp_put r n at m P old new = elim (Bool-cases (m == n)) [
  | inl is ↦ rw is new
  | inr other ↦ rw other old
]

put_off :
    (p : Profile) (n : ℕ) (s : Rtc)
    → n < 3
    → s.period + 1 < 2 ^ 32
    → Fits s
    → ((m : ℕ) → next_start s ≤ (s.alarms m).timestamp)
    → (s.alarms n).timestamp ≡ next_start s
    → (r' : Rtc) × (next_period p s ≡ some r')
      × IsFirst (next_start s) (r'.cc n) (next_start s + 2 ^ 24)
put_off p n s h small fits ahead present =
    let t = next_start s in
    let o = (next_period_branches p s small fits).0 (λ m _. inl (ahead m)) in
    let cc : o.0.cc n ≡ t % 2 ^ 24 =
      ap (λ c. c.2) (o.3 n h) ∙ channel_after_now t (channel n s) present in
    (o.0, o.1, subst (λ c. IsFirst t c (t + 2 ^ 24)) (sym cc) (IsFirst-turn t))

-- An alarm for the start of the next period that is set 2 ticks before it, while no other alarm is
-- due earlier, is given a compare value that comes a tick after that start. Then the start of the
-- period does not panic, and gives it one that next comes 2^24 ticks later.
pub alarm_put_off :
    (p : Profile) (call : ℕ → Rtc → Rtc) (counter n : ℕ) (r : Rtc)
    → n < 3
    → r.period + 1 < 2 ^ 32
    → Fits r
    → ((m : ℕ) → next_start r ≤ (r.alarms m).timestamp)
    → rtc_now r counter + 2 ≡ next_start r
    → IsFirst
        (rtc_now r counter)
        ((set_alarm call counter n (next_start r) r).cc n)
        (next_start r + 1)
      × ((r' : Rtc) × (next_period p (set_alarm call counter n (next_start r) r) ≡ some r')
          × IsFirst (next_start r) (r'.cc n) (next_start r + 2 ^ 24))
alarm_put_off p call counter n r h small fits ahead e =
    let present = rtc_now r counter in
    let t = next_start r in
    let eq = (set_alarm-eq call counter n present t r refl).1 (omega arith) (omega arith) in
    let lem = (set_alarm_branches call counter n present t r refl).1 (omega arith) (omega arith) in
    let then_on : max t (present + 3) ≡ t + 1 = omega arith in
    let s : Rtc =
      intenset (write_cc (set_timestamp r n t) n (max t (present + 3) % 2 ^ 24)) (compare_n n) in
    let on_time : (s.alarms n).timestamp ≡ t = ap (λ x. (x.alarms n).timestamp) (sym eq) ∙ lem.0 in
    (
      subst (IsFirst present ((set_alarm call counter n t r).cc n)) then_on lem.2,
      subst (λ x. (r' : Rtc) × (next_period p x ≡ some r') × IsFirst t (r'.cc n) (t + 2 ^ 24))
          (sym eq)
          (put_off p n s h small
            (λ m. timestamp_put r n t m (λ v. v < u64_mod) (fits m) (omega arith))
            (λ m. timestamp_put r n t m (λ v. t ≤ v) (ahead m) (omega arith)) on_time),
    )
