-- ===== src/Nrf/Rtc/Handled.antt =====
-- What the driver does keeps its clock and its registers: alarms that are set, and interrupts.
use embassy.Base.{
  ℕ, suc, ◌+◌, ◌-◌, ◌%◌, ◌^◌, ◌<◌, max, ◌≡◌, refl, sym, ap, ◌∙◌, subst, inl, inr, Bool, true, false,
  none, some, arith, ◌==◌, if◌then◌else◌, ==_refl, le-or-lt, Bool-cases,
}
use embassy.Time.{u64_mod, u64_max, Profile}
use embassy.Base.Tables.{put}
use embassy.Nrf.Rtc.{
  compare_n, Rtc, intenclr, set_timestamp, trigger_alarm, set_alarm, next_period, compare_event,
}
use embassy.Nrf.Rtc.Now.{rtc_now-eq}
use embassy.Nrf.Rtc.Alarms.{set_alarm-eq}
use embassy.Nrf.Rtc.Channels.{channel}
use embassy.Nrf.Rtc.Periods.{next_start, next_period-all_rearmed}
use embassy.Nrf.Rtc.Armed.{IsClock, IsClock-roll, IsClock-put, written, IsClock-written}
use embassy.Nrf.Rtc.Events.{IsStarted, IsStarted-written, IsStarted-masked, IsStarted-all_rearmed}

put_same : (f : ℕ → ℕ) (n m : ℕ) → put f n (f n) m ≡ f m
put_same f n m = elim (Bool-cases (m == n)) [
  | inl is ↦ let e : m ≡ n = ground arith in rw is (ap f (sym e))
  | inr other ↦ rw other refl
]

-- The driver at a time, with the registers that `start` wrote.
abbrev pub IsRunning : ℕ → Rtc → Type 0
IsRunning time r = IsClock time r × IsStarted r

module _ (call : ℕ → Rtc → Rtc)
    (keeps : (f time : ℕ) (r : Rtc) → IsRunning time r → IsRunning time (call f r)) where
  -- Triggering an alarm whose time may just have been written.
  IsRunning-trigger :
      (time n : ℕ) (r s : Rtc)
      → IsClock time r
      → s.period ≡ r.period
      → ((m : ℕ) → (m == n) ≡ false → channel m s ≡ channel m r)
      → n < 3
      → IsStarted s
      → IsRunning time (trigger_alarm call n s)
  unfolding trigger_alarm
  IsRunning-trigger time n r s k period others h i =
      elim (s.alarms n).callback
        as (λ o. IsRunning time (elim o as (λ x. Rtc) [ none ↦ quiet | some f ↦ call f quiet ])) [
          | none ↦ (kept, set)
          | some f ↦ keeps f time quiet (kept, set)
        ]
    where
      early : time < 2 ^ 55
      early = k.early

      quiet : Rtc
      quiet = set_timestamp (intenclr s (compare_n n)) n u64_max

      set : IsStarted quiet
      set = IsStarted-masked s n false quiet.alarms h i

      kept : IsClock time quiet
      kept =
          IsClock-put time r k n quiet period
            (λ m. elim (Bool-cases (m == n)) [
              | inl is ↦ rw is (omega arith)
              | inr other ↦
                  rw other (subst (λ c. c.0.timestamp < u64_mod) (sym (others m other)) (k.fits m))
            ])
            (λ m other.
              let next : (m + 16 == n + 16) ≡ false = ground arith in
              (rw (other, next) refl) ∙ others m other)
            (rw (==_refl n) (λ lo hi. absurd (omega (arith, early))))

  pub IsRunning-set :
      (time n at : ℕ) (r : Rtc)
      → n < 3
      → IsRunning time r
      → at < u64_mod
      → IsRunning time (set_alarm call (time % 2 ^ 24) n at r)
  IsRunning-set time n at r h (k, i) fits =
      let counts = k.counts in
      let reads = rtc_now-eq r time time k.counts (omega arith) (omega (arith, counts)) in
      let eqs = set_alarm-eq call (time % 2 ^ 24) n time at r reads in
      elim (le-or-lt at time) [
        | inl due ↦
            let set = set_timestamp r n at in
            subst (IsRunning time) (sym (eqs.0 due)) (
              IsRunning-trigger time n r set k refl (λ m other. rw other refl) h
                (record {
                  half = i.half;
                  overflows = i.overflows;
                  halves = i.halves;
                  no_overflow = i.no_overflow;
                  no_half = i.no_half;
                }))
        | inr after ↦ elim (le-or-lt (time + 0xc00000) at) [
          | inl far ↦ subst (IsRunning time) (sym (eqs.2 far)) (
            IsClock-written time r k n at false (r.cc n) _ fits refl
                (λ m.
                  ap
                    (λ c. (
                      (written time r k n at false (r.cc n)).alarms m,
                      put r.inten (compare_n n) false (compare_n m),
                      c,
                    ))
                    (sym (put_same r.cc n m)))
                (λ lo hi. absurd (omega arith)),
            IsStarted-masked r n false _ h i,
          )
          | inr near ↦ subst (IsRunning time) (sym (eqs.1 after near)) (
            IsClock-written time r k n at true (max at (time + 3) % 2 ^ 24) _ fits refl (λ m. refl)
                (λ lo hi. (
                  refl,
                  (max at (time + 3) - at, omega arith, ap (λ x. x % 2 ^ 24) (omega arith)),
                )),
            IsStarted-written r n _ true _ h i,
          )
        ]
      ]

  IsRunning-compare_event :
      (time n : ℕ) (r : Rtc) → n < 3 → IsRunning time r → IsRunning time (compare_event call n r)
  unfolding compare_event
  IsRunning-compare_event time n r h (k, i) = fired (r.events_compare n)
    where
      cleared : Rtc
      cleared = record r { events_compare = put r.events_compare n false }

      other : (3 == n) ≡ false
      other = ground arith

      still : IsStarted cleared
      still = record {
        half = i.half;
        overflows = i.overflows;
        halves = i.halves;
        no_overflow = i.no_overflow;
        no_half = rw other i.no_half;
      }

      fired : (b : Bool) → IsRunning time (if b then trigger_alarm call n cleared else r)
      fired true = IsRunning-trigger time n r cleared k refl (λ m e. refl) h still
      fired false = (k, i)

  pub IsRunning-compare_events :
      (time : ℕ) (r : Rtc)
      → IsRunning time r
      → IsRunning time (compare_event call 2 (compare_event call 1 (compare_event call 0 r)))
  IsRunning-compare_events time r k =
      let r0 = compare_event call 0 r in
      let r1 = compare_event call 1 r0 in
      IsRunning-compare_event time 2 r1 (omega arith) (
        IsRunning-compare_event time 1 r0 (omega arith)
          (IsRunning-compare_event time 0 r (omega arith) k))

-- The events do not matter to the clock.
pub IsClock-events :
    (time : ℕ) (r : Rtc) (o : Bool) (c : ℕ → Bool)
    → IsClock time r
    → IsClock time (record r { events_ovrflw = o; events_compare = c })
IsClock-events time r o c k = record {
  early = k.early;
  counts = k.counts;
  fits = k.fits;
  armed = k.armed;
}

-- A period that starts, at its time.
pub IsRunning-next_period :
    (p : Profile) (time : ℕ) (r r' : Rtc)
    → IsRunning time r
    → suc time % 2 ^ 23 ≡ 0
    → suc time < 2 ^ 55
    → next_period p r ≡ some r'
    → IsRunning (suc time) r'
IsRunning-next_period p time r r' (k, i) new small e =
    let counts = k.counts in
    let fits : r.period + 1 < 2 ^ 32 = omega arith in
    let counted = record r { period = r.period + 1 } in
    let still : IsStarted counted = record {
      half = i.half;
      overflows = i.overflows;
      halves = i.halves;
      no_overflow = i.no_overflow;
      no_half = i.no_half;
    } in
    (
      IsClock-roll time r k p r' new small e,
      subst IsStarted (sym (next_period-all_rearmed p r r' fits k.fits e))
          (IsStarted-all_rearmed (next_start r) counted still),
    )
