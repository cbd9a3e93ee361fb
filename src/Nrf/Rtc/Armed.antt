-- ===== src/Nrf/Rtc/Armed.antt =====
-- Every alarm that is due soon has its compare event enabled, whatever happened before.
use embassy.Base.{
  ℕ, suc, ◌+◌, ◌*◌, ◌/◌, ◌%◌, ◌^◌, ◌≤◌, ◌<◌, ◌≡◌, refl, sym, ◌∙◌, subst, inl, inr, Bool, true,
  false, some, arith, ◌==◌, ==_refl, Bool-cases,
}
use embassy.Time.{u64_mod, Profile}
use embassy.Base.Tables.{put}
use embassy.Nrf.Rtc.{compare_n, AlarmState, Rtc, start, next_period}
use embassy.Nrf.Rtc.Channels.{
  channel, is_near, channel_after, channel-all_rearmed, Fits, period-all_rearmed,
  alarms-all_rearmed,
}
use embassy.Nrf.Rtc.Periods.{next_start, next_period-all_rearmed}

-- A channel whose event is enabled for its alarm's time, or at most 2 ticks after it.
abbrev pub IsArmed : AlarmState × Bool × ℕ → Type 0
IsArmed (a, enabled, cc) =
    (enabled ≡ true) × ((d : ℕ) × (d ≤ 2) × (cc ≡ (a.timestamp + d) % 2 ^ 24))

-- So is a channel whose alarm is due within the period of that time or 0x400000 ticks of the next.
abbrev pub Covers : ℕ → AlarmState × Bool × ℕ → Type 0
Covers time c = time < c.0.timestamp → c.0.timestamp < time / 2 ^ 23 * 2 ^ 23 + 0xc00000 → IsArmed c

-- The driver at a time: the period is counted, and the alarms that are due within the period or
-- 0x400000 ticks of the next are armed.
pub record IsClock (time : ℕ) (r : Rtc) : Type 0 where
  pub early : time < 2 ^ 55
  pub counts : r.period ≡ time / 2 ^ 23
  pub fits : Fits r
  pub armed : (n : ℕ) → n < 3 → Covers time (channel n r)

Covers-after :
    (time : ℕ) (c : AlarmState × Bool × ℕ) → time % 2 ^ 23 ≡ 0 → Covers time (channel_after time c)
Covers-after time (a, enabled, cc) start = elim (Bool-cases (is_near time a.timestamp)) [
  | inl near ↦ rw near (λ lo hi.
      let e : a.timestamp % 2 ^ 24 ≡ (a.timestamp + 0) % 2 ^ 24 = omega arith in
      (refl, (0, omega arith, e)))
  | inr far ↦ rw far (λ lo hi. absurd (ground arith))
]

module _ (time : ℕ) (r : Rtc) (k : IsClock time r) where
  pub IsClock-tick : suc time / 2 ^ 23 ≡ time / 2 ^ 23 → IsClock (suc time) r
  IsClock-tick same =
      let early = k.early in
      record {
        early = omega arith;
        counts = k.counts ∙ sym same;
        fits = k.fits;
        armed = λ n h lo hi. k.armed n h (omega arith) (omega arith);
      }

  pub IsClock-roll :
      (p : Profile) (r' : Rtc)
      → suc time % 2 ^ 23 ≡ 0
      → suc time < 2 ^ 55
      → next_period p r ≡ some r'
      → IsClock (suc time) r'
  IsClock-roll p r' new small e =
      let early = k.early in
      let counts = k.counts in
      let fits : (r.period + 1 < 2 ^ 32) = omega arith in
      let start : next_start r ≡ suc time = omega arith in
      let is = next_period-all_rearmed p r r' fits k.fits e in
      let c = record r { period = r.period + 1 } in
      let t = next_start r in
      let alarms = alarms-all_rearmed t c in
      subst (IsClock (suc time)) (sym is) (record {
        early = small;
        counts = period-all_rearmed t c ∙ omega arith;
        fits = λ n. subst (λ a. (a n).timestamp < u64_mod) (sym alarms) (k.fits n);
        armed = λ n h. subst (Covers (suc time)) (sym (channel-all_rearmed t n c h)) (
            subst (λ u. Covers (suc time) (channel_after u (channel n c))) (sym start)
              (Covers-after (suc time) (channel n c) new));
      })

  -- One channel is written.
  pub IsClock-put :
      (n : ℕ) (r' : Rtc)
      → r'.period ≡ r.period
      → Fits r'
      → ((m : ℕ) → (m == n) ≡ false → channel m r' ≡ channel m r)
      → Covers time (channel n r')
      → IsClock time r'
  IsClock-put n r' same fits others this = record {
    early = k.early;
    counts = same ∙ k.counts;
    fits = fits;
    armed = λ m h. elim (Bool-cases (m == n)) [
      | inl is ↦
          let e : m ≡ n = ground arith in subst (λ i. Covers time (channel i r')) (sym e) this
      | inr other ↦ subst (Covers time) (sym (others m other)) (k.armed m h)
    ];
  }

  -- The timestamp of an alarm is written, and its event enabled with a compare value, or disabled.
  abbrev pub written : ℕ → ℕ → Bool → ℕ → Rtc
  written n at enabled cc = record r {
    alarms = put r.alarms n (record (r.alarms n) { timestamp = at });
    inten = put r.inten (compare_n n) enabled;
    cc = put r.cc n cc;
  }

  pub IsClock-written :
      (n at : ℕ) (enabled : Bool) (cc : ℕ) (r' : Rtc)
      → at < u64_mod
      → r'.period ≡ r.period
      → ((m : ℕ) → channel m r' ≡ channel m (written n at enabled cc))
      → (time < at
          → at < time / 2 ^ 23 * 2 ^ 23 + 0xc00000
          → (enabled ≡ true) × ((d : ℕ) × (d ≤ 2) × (cc ≡ (at + d) % 2 ^ 24)))
      → IsClock time r'
  IsClock-written n at enabled cc r' fits period channels covers =
      IsClock-put n r' period
        (λ m. subst (λ c. c.0.timestamp < u64_mod) (sym (channels m)) (fits_written m))
        (λ m other. channels m ∙ other_written m other)
        (subst (Covers time) (sym (channels n)) self_written)
    where
      fits_written : (m : ℕ) → ((written n at enabled cc).alarms m).timestamp < u64_mod
      fits_written m = elim (Bool-cases (m == n)) [
        | inl is ↦ rw is fits
        | inr other ↦ rw other (k.fits m)
      ]

      other_written : (m : ℕ) → (m == n) ≡ false → channel m (written n at enabled cc) ≡ channel m r
      other_written m other =
          let next : (m + 16 == n + 16) ≡ false = ground arith in rw (other, next) refl

      self_written : Covers time (channel n (written n at enabled cc))
      self_written = rw (==_refl n, ==_refl (n + 16)) covers
