-- ===== src/Nrf/Rtc/Ticks.antt =====
-- A tick of the clock, with the events that it raises and the interrupt handler that they run.
use embassy.Base.{
  ℕ, suc, ◌%◌, ◌^◌, ◌<◌, ◌≡◌, refl, sym, ap, ◌∙◌, subst, inl, inr, true, false, some, arith, ◌==◌,
  if◌then◌else◌, Bool-cases,
}
use mathlib.Core.Option
use embassy.Base.Options.{bind-some, map-some, some-injective}
use embassy.Time.{Profile}
use embassy.Base.Tables.{put}
use embassy.Nrf.Rtc.{Rtc, next_period, compare_event, period_event, half_event, on_interrupt}
use embassy.Nrf.Rtc.Armed.{IsClock, IsClock-tick}
use embassy.Nrf.Rtc.Events.{raised, pending, clock_tick, IsStarted}
use embassy.Nrf.Rtc.Handled.{
  IsRunning, IsRunning-compare_events, IsClock-events, IsRunning-next_period,
}

module _ (call : ℕ → Rtc → Rtc) (p : Profile) where
  abbrev compare_events : Rtc → Rtc
  compare_events r = compare_event call 2 (compare_event call 1 (compare_event call 0 r))

  on_interrupt-parts :
      (r r' : Rtc)
      → on_interrupt call p r ≡ some r'
      → (r1 : Rtc) × (period_event call p r ≡ some r1)
        × ((r2 : Rtc) × (half_event call p r1 ≡ some r2) × (compare_events r2 ≡ r'))
  unfolding on_interrupt
  on_interrupt-parts r r' e =
      let rest = λ (s : Rtc). Option.map compare_events (half_event call p s) in
      let first = bind-some (period_event call p r) rest r' e in
      (first.0, first.1, map-some (half_event call p first.0) compare_events r' first.2)

  abbrev overflow_cleared : Rtc → Rtc
  overflow_cleared r = record r { events_ovrflw = false }

  abbrev half_cleared : Rtc → Rtc
  half_cleared r = record r { events_compare = put r.events_compare 3 false }

  period_event-true :
      (r : Rtc)
      → r.events_ovrflw ≡ true
      → period_event call p r ≡ next_period p (overflow_cleared r)
  unfolding period_event
  period_event-true r e = ap (λ b. if b then next_period p (overflow_cleared r) else some r) e

  period_event-false : (r : Rtc) → r.events_ovrflw ≡ false → period_event call p r ≡ some r
  unfolding period_event
  period_event-false r e = ap (λ b. if b then next_period p (overflow_cleared r) else some r) e

  half_event-true :
      (r : Rtc) → r.events_compare 3 ≡ true → half_event call p r ≡ next_period p (half_cleared r)
  unfolding half_event
  half_event-true r e = ap (λ b. if b then next_period p (half_cleared r) else some r) e

  half_event-false : (r : Rtc) → r.events_compare 3 ≡ false → half_event call p r ≡ some r
  unfolding half_event
  half_event-false r e = ap (λ b. if b then next_period p (half_cleared r) else some r) e

  clock_tick-pending :
      (time : ℕ) (r : Rtc)
      → pending (raised (time % 2 ^ 24) r) ≡ true
      → clock_tick call p time r ≡ on_interrupt call p (raised (time % 2 ^ 24) r)
  unfolding clock_tick
  clock_tick-pending time r e =
      let r1 = raised (time % 2 ^ 24) r in ap (λ b. if b then on_interrupt call p r1 else some r1) e

  clock_tick-quiet :
      (time : ℕ) (r : Rtc)
      → pending (raised (time % 2 ^ 24) r) ≡ false
      → clock_tick call p time r ≡ some (raised (time % 2 ^ 24) r)
  unfolding clock_tick
  clock_tick-quiet time r e =
      let r1 = raised (time % 2 ^ 24) r in ap (λ b. if b then on_interrupt call p r1 else some r1) e

module _ (call : ℕ → Rtc → Rtc)
    (keeps : (f time : ℕ) (r : Rtc) → IsRunning time r → IsRunning time (call f r)) (p : Profile)
    (time : ℕ) where
  -- The interrupt at the start of a period: the counter overflows.
  IsRunning-overflow :
      (r r' : Rtc)
      → IsClock time r
      → IsStarted (overflow_cleared call p r)
      → r.events_ovrflw ≡ true
      → suc time % 2 ^ 23 ≡ 0
      → suc time < 2 ^ 55
      → on_interrupt call p r ≡ some r'
      → IsRunning (suc time) r'
  IsRunning-overflow r r' k i event new small e =
      let (r1, first, more) = on_interrupt-parts call p r r' e in
      let (r2, second, last) = more in
      let after =
        IsRunning-next_period p time (overflow_cleared call p r) r1
          (IsClock-events time r false r.events_compare k, i) new small
          (sym (period_event-true call p r event) ∙ first) in
      let same : r1 ≡ r2 =
        some-injective (sym (half_event-false call p r1 after.1.no_half) ∙ second) in
      subst (IsRunning (suc time)) last (
        IsRunning-compare_events call keeps (suc time) r2 (subst (IsRunning (suc time)) same after))

  -- And at that of the half: the counter reaches the compare value.
  IsRunning-half :
      (r r' : Rtc)
      → IsClock time r
      → IsStarted (half_cleared call p r)
      → r.events_compare 3 ≡ true
      → suc time % 2 ^ 23 ≡ 0
      → suc time < 2 ^ 55
      → on_interrupt call p r ≡ some r'
      → IsRunning (suc time) r'
  IsRunning-half r r' k i event new small e =
      let (r1, first, more) = on_interrupt-parts call p r r' e in
      let (r2, second, last) = more in
      let same : r ≡ r1 =
        some-injective (sym (period_event-false call p r i.no_overflow) ∙ first) in
      let second' : half_event call p r ≡ some r2 =
        subst (λ s. half_event call p s ≡ some r2) (sym same) second in
      let cleared = half_cleared call p r in
      let after =
        IsRunning-next_period p time cleared r2
          (IsClock-events time r r.events_ovrflw cleared.events_compare k, i) new small
          (sym (half_event-true call p r event) ∙ second') in
      subst (IsRunning (suc time)) last (IsRunning-compare_events call keeps (suc time) r2 after)

-- An interrupt with no event of a period.
pub IsRunning-on_interrupt :
    (call : ℕ → Rtc → Rtc)
    (keeps : (f time : ℕ) (r : Rtc) → IsRunning time r → IsRunning time (call f r)) (p : Profile)
    (time : ℕ) (r r' : Rtc)
    → IsRunning time r
    → on_interrupt call p r ≡ some r'
    → IsRunning time r'
IsRunning-on_interrupt call keeps p time r r' (k, i) e =
    let (r1, first, more) = on_interrupt-parts call p r r' e in
    let (r2, second, last) = more in
    let same : r ≡ r1 = some-injective (sym (period_event-false call p r i.no_overflow) ∙ first) in
    let second' : half_event call p r ≡ some r2 =
      subst (λ s. half_event call p s ≡ some r2) (sym same) second in
    let same2 : r ≡ r2 = some-injective (sym (half_event-false call p r i.no_half) ∙ second') in
    subst (IsRunning time) last
      (IsRunning-compare_events call keeps time r2 (subst (IsRunning time) same2 (k, i)))

module _ (call : ℕ → Rtc → Rtc)
    (keeps : (f time : ℕ) (r : Rtc) → IsRunning time r → IsRunning time (call f r)) where
  pub IsRunning-clock_tick :
      (p : Profile) (time : ℕ) (r r' : Rtc)
      → IsRunning time r
      → suc time < 2 ^ 55
      → clock_tick call p (suc time) r ≡ some r'
      → IsRunning (suc time) r'
  IsRunning-clock_tick p time r r' (k, i) small e =
      let c = suc time % 2 ^ 24 in
      let r1 = raised c r in
      let k1 = IsClock-events time r r1.events_ovrflw r1.events_compare k in
      let whole : r1.events_ovrflw ≡ (c == 0) = rw (i.no_overflow, i.overflows) refl in
      let half : r1.events_compare 3 ≡ (0x800000 == c) = rw (i.no_half, i.halves, i.half) refl in
      elim (Bool-cases (c == 0)) [
        | inl turned ↦
            let event : r1.events_ovrflw ≡ true = whole ∙ turned in
            let off : (0x800000 == c) ≡ false = ground arith in
            let pend : pending r1 ≡ true = rw (event, i.overflows) refl in
            IsRunning-overflow call keeps p time r1 r' k1
              (record {
                half = i.half;
                overflows = i.overflows;
                halves = i.halves;
                no_overflow = refl;
                no_half = half ∙ off;
              })
              event (ground arith) small (sym (clock_tick-pending call p (suc time) r pend) ∙ e)
        | inr within ↦ elim (Bool-cases (0x800000 == c)) [
          | inl middle ↦
              let event : r1.events_compare 3 ≡ true = half ∙ middle in
              let pend : pending r1 ≡ true = rw (whole ∙ within, event, i.halves) refl in
              IsRunning-half call keeps p time r1 r' k1
                (record {
                  half = i.half;
                  overflows = i.overflows;
                  halves = i.halves;
                  no_overflow = whole ∙ within;
                  no_half = refl;
                })
                event (ground arith) small (sym (clock_tick-pending call p (suc time) r pend) ∙ e)
          | inr inside ↦
              let still : IsStarted r1 = record {
                half = i.half;
                overflows = i.overflows;
                halves = i.halves;
                no_overflow = whole ∙ within;
                no_half = half ∙ inside;
              } in
              let now = IsClock-tick time r1 k1 (ground arith) in
              elim (Bool-cases (pending r1)) [
                | inl pend ↦
                    IsRunning-on_interrupt call keeps p (suc time) r1 r' (now, still)
                      (sym (clock_tick-pending call p (suc time) r pend) ∙ e)
                | inr quiet ↦
                    subst (IsRunning (suc time))
                      (some-injective (sym (clock_tick-quiet call p (suc time) r quiet) ∙ e))
                      (now, still)
              ]
        ]
      ]
