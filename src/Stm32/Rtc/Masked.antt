-- ===== src/Stm32/Rtc/Masked.antt =====
-- The timer's overflow interrupt is never enabled.
use embassy.Base.{
  ℕ, ◌+◌, ◌-◌, ◌*◌, ◌%◌, ◌^◌, max, ◌≡◌, refl, sym, ap, ◌∙◌, inl, inr, Bool, true, false, none, some,
  arith, ltb, leb, if◌then◌else◌, le-or-lt, Bool-cases,
}
use embassy.Base.Options.{>>=-some, map-some, some-injective}
use embassy.Time.{u64_max, Profile, sub_u64, to_u32}
use embassy.Stm32.Rtc.{
  compare_interrupt_status, compare_clear_flag, overflow_interrupt_status, overflow_clear_flag, Rtc,
  prescaler, start, rtc_now, set_timestamp, arm, disarm, trigger_alarm, set_alarm,
  set_alarm_callback, rearm, next_period, overflow_event, half_event, compare_event, on_interrupt,
}

-- Whether an overflow raises the timer's interrupt.
abbrev pub overflow_enabled : Rtc → Bool
overflow_enabled r = r.timer.dier 0

abbrev pub raised : (ℕ → Bool) → Rtc → Rtc
raised sr r = record r { timer = record r.timer { sr = sr } }

-- What may happen: the clock is started, alarms and callbacks are set, the handler runs, and the
-- timer raises flags.
pub data Step (last : ℕ) (call : ℕ → Rtc → Rtc) (p : Profile) (r r' : Rtc) : Type 0 where
  begin : (ppre pclk : ℕ) → start last p ppre pclk r ≡ some r' → Step last call p r r'
  set : (counter n at : ℕ) → r' ≡ set_alarm last call counter n at r → Step last call p r r'
  listen : (n f : ℕ) → r' ≡ set_alarm_callback n f r → Step last call p r r'
  handle : on_interrupt last call p r ≡ some r' → Step last call p r r'
  raise : (sr : ℕ → Bool) → r' ≡ raised sr r → Step last call p r r'

pub data Reach (last : ℕ) (call : ℕ → Rtc → Rtc) (p : Profile) (r : Rtc) : Rtc → Type 0 where
  here : Reach last call p r r
  next : {s s' : Rtc} → Reach last call p r s → Step last call p s s' → Reach last call p r s'

enabled-arm : (last n v : ℕ) (r : Rtc) → overflow_enabled (arm last n v r) ≡ overflow_enabled r
enabled-arm last n v r = ground arith

enabled-disarm : (last n : ℕ) (r : Rtc) → overflow_enabled (disarm last n r) ≡ overflow_enabled r
enabled-disarm last n r = ground arith

enabled-cleared :
    (last n : ℕ) (r : Rtc)
    → overflow_enabled (record r { timer = compare_clear_flag last n r.timer }) ≡ overflow_enabled r
enabled-cleared last n r = ground arith

enabled-rearm :
    (last : ℕ) (p : Profile) (t n : ℕ) (r r' : Rtc)
    → rearm last p t n r ≡ some r'
    → overflow_enabled r' ≡ overflow_enabled r
unfolding rearm
enabled-rearm last p t n r r' e =
    let (diff, is, done) = map-some (sub_u64 p (r.alarms (n - 1)).timestamp t) armed r' e in
    ap overflow_enabled (sym done) ∙ kept diff
  where
    armed : ℕ → Rtc
    armed diff = if ltb diff 0xc000 then arm last n ((r.alarms (n - 1)).timestamp % 2 ^ 16) r else r

    kept : (diff : ℕ) → overflow_enabled (armed diff) ≡ overflow_enabled r
    kept diff = ground arith

enabled-next_period :
    (last : ℕ) (p : Profile) (r r' : Rtc)
    → next_period last p r ≡ some r'
    → overflow_enabled r' ≡ overflow_enabled r
unfolding next_period
enabled-next_period last p r r' e =
    let (period, fits, e1) = >>=-some (to_u32 p (r.period + 1)) _ r' e in
    let t = period * 2 ^ 15 in
    let counted = record r { period = (r.period + 1) % 2 ^ 32 } in
    let (r1, is1, e2) = >>=-some (rearm last p t 1 counted) _ r' e1 in
    let (r2, is2, e3) = >>=-some (rearm last p t 2 r1) _ r' e2 in
    enabled-rearm last p t 3 r2 r' e3
    ∙ enabled-rearm last p t 2 r1 r2 is2
    ∙ enabled-rearm last p t 1 counted r1 is1

enabled-start :
    (last : ℕ) (p : Profile) (ppre pclk : ℕ) (r r' : Rtc)
    → start last p ppre pclk r ≡ some r'
    → overflow_enabled r' ≡ overflow_enabled r
unfolding start
enabled-start last p ppre pclk r r' e =
    let (psc, is, done) = map-some (prescaler p ppre pclk) _ r' e in
    ap overflow_enabled (sym done) ∙ ground arith

-- A period starts if an event has come.
enabled-event :
    (b : Bool) (last : ℕ) (p : Profile) (cleared r r' : Rtc)
    → overflow_enabled cleared ≡ overflow_enabled r
    → (if b then next_period last p cleared else some r) ≡ some r'
    → overflow_enabled r' ≡ overflow_enabled r
enabled-event true last p cleared r r' same e = enabled-next_period last p cleared r' e ∙ same
enabled-event false last p cleared r r' same e = ap overflow_enabled (sym (some-injective e))

-- The callbacks keep whether an overflow raises the interrupt.
module _ (last : ℕ) (call : ℕ → Rtc → Rtc)
    (keeps : (f : ℕ) (r : Rtc) → overflow_enabled (call f r) ≡ overflow_enabled r) where
  enabled-trigger_alarm :
      (n : ℕ) (r : Rtc) → overflow_enabled (trigger_alarm last call n r) ≡ overflow_enabled r
  unfolding trigger_alarm
  enabled-trigger_alarm n r =
      elim (r.alarms (n - 1)).callback
        as (λ o.
          overflow_enabled (elim o as (λ x. Rtc) [ none ↦ quiet | some f ↦ call f quiet ])
          ≡ overflow_enabled r) [
            | none ↦ enabled-disarm last n r
            | some f ↦ keeps f quiet ∙ enabled-disarm last n r
          ]
    where
      quiet : Rtc
      quiet = set_timestamp (disarm last n r) n u64_max

  enabled-set_alarm :
      (counter n at : ℕ) (r : Rtc)
      → overflow_enabled (set_alarm last call counter n at r) ≡ overflow_enabled r
  unfolding set_alarm
  enabled-set_alarm counter n at r =
      let set = set_timestamp r n at in
      let t = rtc_now set counter in
      elim (le-or-lt at t) [
        | inl due ↦ let b : leb at t ≡ true = ground arith in rw b (enabled-trigger_alarm n set)
        | inr after ↦
            let b : leb at t ≡ false = ground arith in
            rw b (branches (at - t) (max at (t + 3) % 2 ^ 16) set)
      ]
    where
      branches :
          (diff v : ℕ) (s : Rtc)
          → overflow_enabled (if ltb diff 0xc000 then arm last n v s else disarm last n s)
            ≡ overflow_enabled s
      branches diff v s = ground arith

  enabled-compare_event :
      (n : ℕ) (r : Rtc) → overflow_enabled (compare_event last call n r) ≡ overflow_enabled r
  unfolding compare_event
  enabled-compare_event n r = elim (Bool-cases (compare_interrupt_status last n r.timer)) [
    | inl is ↦ rw is (
        enabled-trigger_alarm n (record r { timer = compare_clear_flag last n r.timer })
        ∙ enabled-cleared last n r)
    | inr other ↦ rw other refl
  ]

  enabled-on_interrupt :
      (p : Profile) (r r' : Rtc)
      → on_interrupt last call p r ≡ some r'
      → overflow_enabled r' ≡ overflow_enabled r
  unfolding on_interrupt overflow_event half_event
  enabled-on_interrupt p r r' e =
      let (r1, is1, e1) = >>=-some (overflow_event last call p r) _ r' e in
      let (r2, is2, e2) = >>=-some (half_event last call p r1) _ r' e1 in
      ap overflow_enabled (sym (some-injective e2))
      ∙ enabled-compare_event 3 (compare_event last call 2 (compare_event last call 1 r2))
      ∙ enabled-compare_event 2 (compare_event last call 1 r2)
      ∙ enabled-compare_event 1 r2
      ∙ enabled-event (compare_interrupt_status last 0 r1.timer) last p
          (record r1 { timer = compare_clear_flag last 0 r1.timer }) r1 r2
          (enabled-cleared last 0 r1) is2
      ∙ enabled-event (overflow_interrupt_status r.timer) last p
          (record r { timer = overflow_clear_flag r.timer }) r r1 refl is1

  enabled-Step :
      {p : Profile} {r r' : Rtc} → Step last call p r r' → overflow_enabled r' ≡ overflow_enabled r
  unfolding set_alarm_callback
  enabled-Step {p} {r} {r'} (begin ppre pclk e) = enabled-start last p ppre pclk r r' e
  enabled-Step {p} {r} {r'} (set counter n at e) =
      ap overflow_enabled e ∙ enabled-set_alarm counter n at r
  enabled-Step {p} {r} {r'} (listen n f e) = ap overflow_enabled e
  enabled-Step {p} {r} {r'} (handle e) = enabled-on_interrupt p r r' e
  enabled-Step {p} {r} {r'} (raise sr e) = ap overflow_enabled e

  -- Whatever is done with the clock, and whatever flags the timer raises, an overflow raises the
  -- interrupt only if it did so before the start, if callbacks keep to that.
  pub overflow_masked :
      {p : Profile} {r r' : Rtc} → Reach last call p r r' → overflow_enabled r' ≡ overflow_enabled r
  overflow_masked here = refl
  overflow_masked (next before step) = enabled-Step step ∙ overflow_masked before
