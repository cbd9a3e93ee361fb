-- ===== src/Nrf/Rtc/Periods.antt =====
-- What the start of a period does to the alarms.
use embassy.Base.{
  ℕ, zero, suc, ◌+◌, ◌*◌, ◌%◌, ◌^◌, ◌≤◌, ◌<◌, ◌≡◌, refl, sym, ap, ap₂, ◌∙◌, subst, ◌⊎◌, inl, inr,
  Option, none, some, arith, le-or-lt, Option-cases,
}
use embassy.Time.{u64_mod, Profile, dev, release, to_u32}
use embassy.Nrf.Rtc.{Rtc, rearm, rearm_all, next_period}
use embassy.Nrf.Rtc.Channels.{
  channel, channel_after, alarms-rearmed, all_rearmed, channel-all_rearmed, Fits,
  period-all_rearmed, Fits-rearmed,
}
use embassy.Base.Options.{bind-some, bind}
use embassy.Nrf.Rtc.Alarms.{rearmed, rearm-rearmed}

to_u32_small : (p : Profile) (n : ℕ) → n < 2 ^ 32 → to_u32 p n ≡ some n
to_u32_small dev n h = ground arith
to_u32_small release n h = ground arith

rearm_all-all_rearmed :
    (p : Profile) (t : ℕ) (r r' : Rtc)
    → t < 2 ^ 56
    → Fits r
    → rearm_all p t r ≡ some r'
    → r' ≡ all_rearmed t r
unfolding rearm_all
rearm_all-all_rearmed p t r r' small fits e =
    let last = λ (s : Rtc). rearm p t 2 s in
    let two =
      λ (s : Rtc). elim (rearm p t 1 s) as (λ x. Option Rtc) [ none ↦ none | some r1 ↦ last r1 ] in
    let first = bind-some (rearm p t 0 r) two r' e in
    let r0 = first.0 in
    let eq0 = rearm-rearmed p t 0 r r0 small (fits 0) first.1 in
    let fits0 = Fits-rearmed t 0 r r0 eq0 fits in
    let second = bind-some (rearm p t 1 r0) last r' first.2 in
    let r1 = second.0 in
    let eq1 = rearm-rearmed p t 1 r0 r1 small (fits0 1) second.1 in
    let fits1 = Fits-rearmed t 1 r0 r1 eq1 fits0 in
    rearm-rearmed p t 2 r1 r' small (fits1 2) second.2
    ∙ ap (rearmed t 2) (eq1 ∙ ap (rearmed t 1) eq0)

-- The time at which the next period starts.
abbrev pub next_start : Rtc → ℕ
next_start r = (r.period + 1) * 2 ^ 23

abbrev counted : Rtc → Rtc
counted r = record r { period = r.period + 1 }

next_period-rearm_all :
    (p : Profile) (r : Rtc)
    → r.period + 1 < 2 ^ 32
    → next_period p r ≡ rearm_all p (next_start r) (counted r)
unfolding next_period
next_period-rearm_all p r small =
    let whole : (r.period + 1) % 2 ^ 32 ≡ r.period + 1 = omega arith in
    ap₂
      (λ o k. elim o as (λ x. Option Rtc) [
        | none ↦ none
        | some period ↦ rearm_all p (period * 2 ^ 23) (record r { period = k })
      ])
      (to_u32_small p (r.period + 1) small) whole

-- Where the start of a period does not panic, it counts it and rearms the alarms.
pub next_period-all_rearmed :
    (p : Profile) (r r' : Rtc)
    → r.period + 1 < 2 ^ 32
    → Fits r
    → next_period p r ≡ some r'
    → r' ≡ all_rearmed (next_start r) (counted r)
next_period-all_rearmed p r r' small fits e =
    rearm_all-all_rearmed p (next_start r) (counted r) r' (omega arith) fits
      (sym (next_period-rearm_all p r small) ∙ e)

rearm-some :
    (p : Profile) (t n : ℕ) (r : Rtc)
    → t < 2 ^ 56
    → (r.alarms n).timestamp < u64_mod
    → (t ≤ (r.alarms n).timestamp) ⊎ (p ≡ release)
    → rearm p t n r ≡ some (rearmed t n r)
unfolding rearm
rearm-some dev t n r small fits (inl le) = ground arith
rearm-some dev t n r small fits (inr e) = cc
rearm-some release t n r small fits h = ground arith

rearm_dev_ahead : (t n : ℕ) (r r' : Rtc) → rearm dev t n r ≡ some r' → t ≤ (r.alarms n).timestamp
unfolding rearm
rearm_dev_ahead t n r r' e = ground arith

-- No alarm that makes the start of a period panic.
abbrev pub IsAhead : Profile → ℕ → Rtc → Type 0
IsAhead p t r = (n : ℕ) → n < 3 → (t ≤ (r.alarms n).timestamp) ⊎ (p ≡ release)

rearmed-IsAhead :
    (p : Profile) (t n : ℕ) (r r' : Rtc) → r' ≡ rearmed t n r → IsAhead p t r → IsAhead p t r'
rearmed-IsAhead p t n r r' e ahead m h =
    subst (λ a. (t ≤ (a m).timestamp) ⊎ (p ≡ release))
      (sym (ap (λ s. s.alarms) e ∙ alarms-rearmed t n r)) (ahead m h)

ahead_below_three :
    (t : ℕ) (r : Rtc)
    → t ≤ (r.alarms 0).timestamp
    → t ≤ (r.alarms 1).timestamp
    → t ≤ (r.alarms 2).timestamp
    → (n : ℕ) → n < 3
    → t ≤ (r.alarms n).timestamp
ahead_below_three t r a b c zero h = a
ahead_below_three t r a b c (suc zero) h = b
ahead_below_three t r a b c (suc (suc zero)) h = c
ahead_below_three t r a b c (suc (suc (suc n))) h = absurd (omega arith)

rearm_all-some :
    (p : Profile) (t : ℕ) (r : Rtc)
    → t < 2 ^ 56
    → Fits r
    → IsAhead p t r
    → rearm_all p t r ≡ some (all_rearmed t r)
unfolding rearm_all
rearm_all-some p t r small fits ahead =
    let r0 = rearmed t 0 r in
    let r1 = rearmed t 1 r0 in
    let fits0 = Fits-rearmed t 0 r r0 refl fits in
    let fits1 = Fits-rearmed t 1 r0 r1 refl fits0 in
    let ahead0 = rearmed-IsAhead p t 0 r r0 refl ahead in
    let ahead1 = rearmed-IsAhead p t 1 r0 r1 refl ahead0 in
    let e0 = rearm-some p t 0 r small (fits 0) (ahead 0 (omega arith)) in
    let e1 = rearm-some p t 1 r0 small (fits0 1) (ahead0 1 (omega arith)) in
    let e2 = rearm-some p t 2 r1 small (fits1 2) (ahead1 2 (omega arith)) in
    bind (rearm p t 0 r) r0 _ e0 ∙ bind (rearm p t 1 r0) r1 _ e1 ∙ e2

rearm_all_dev_ahead :
    (t : ℕ) (r r' : Rtc)
    → t < 2 ^ 56
    → Fits r
    → rearm_all dev t r ≡ some r'
    → (n : ℕ) → n < 3
    → t ≤ (r.alarms n).timestamp
unfolding rearm_all
rearm_all_dev_ahead t r r' small fits e n h =
    let last = λ (s : Rtc). rearm dev t 2 s in
    let two = λ (s : Rtc). elim (rearm dev t 1 s) as (λ x. Option Rtc) [
      | none ↦ none
      | some r1 ↦ last r1
    ] in
    let first = bind-some (rearm dev t 0 r) two r' e in
    let r0 = first.0 in
    let eq0 = rearm-rearmed dev t 0 r r0 small (fits 0) first.1 in
    let fits0 = Fits-rearmed t 0 r r0 eq0 fits in
    let second = bind-some (rearm dev t 1 r0) last r' first.2 in
    let r1 = second.0 in
    let eq1 = rearm-rearmed dev t 1 r0 r1 small (fits0 1) second.1 in
    let alarms0 : r0.alarms ≡ r.alarms = ap (λ s. s.alarms) eq0 ∙ alarms-rearmed t 0 r in
    let alarms1 : r1.alarms ≡ r.alarms = ap (λ s. s.alarms) eq1 ∙ alarms-rearmed t 1 r0 ∙ alarms0 in
    ahead_below_three t r (rearm_dev_ahead t 0 r r0 first.1)
      (subst (λ a. t ≤ (a 1).timestamp) alarms0 (rearm_dev_ahead t 1 r0 r1 second.1))
      (subst (λ a. t ≤ (a 2).timestamp) alarms1 (rearm_dev_ahead t 2 r1 r' second.2)) n h

pub next_period_branches :
    (p : Profile) (r : Rtc)
    → r.period + 1 < 2 ^ 32
    → Fits r
    → (IsAhead p (next_start r) r
        → (r' : Rtc) × (next_period p r ≡ some r')
          × (r'.period ≡ r.period + 1)
          × ((n : ℕ) → n < 3 → channel n r' ≡ channel_after (next_start r) (channel n r)))
      × ((n : ℕ) → n < 3 → (r.alarms n).timestamp < next_start r → next_period dev r ≡ none)
next_period_branches p r small fits = (
  λ ahead. (
    all_rearmed (next_start r) (counted r),
    next_period-rearm_all p r small
        ∙ rearm_all-some p (next_start r) (counted r) (omega arith) fits ahead,
    period-all_rearmed (next_start r) (counted r),
    λ n h. channel-all_rearmed (next_start r) n (counted r) h,
  ),
  λ n h late. elim (Option-cases (next_period dev r)) [
    | inl panics ↦ panics
    | inr (r', e) ↦
        let ran = sym (next_period-rearm_all dev r small) ∙ e in
        let ahead = rearm_all_dev_ahead (next_start r) (counted r) r' (omega arith) fits ran n h in
        absurd (omega arith)
  ],
)

-- The alarms that the start of a period finds passed, or that there are none.
some_late :
    (t : ℕ) (r : Rtc)
    → ((n : ℕ) × (n < 3) × ((r.alarms n).timestamp < t))
      ⊎ ((n : ℕ) → n < 3 → t ≤ (r.alarms n).timestamp)
some_late t r = elim (le-or-lt t (r.alarms 0).timestamp) [
  | inr late ↦ inl (0, omega arith, late)
  | inl a ↦ elim (le-or-lt t (r.alarms 1).timestamp) [
    | inr late ↦ inl (1, omega arith, late)
    | inl b ↦ elim (le-or-lt t (r.alarms 2).timestamp) [
      | inr late ↦ inl (2, omega arith, late)
      | inl c ↦ inr (ahead_below_three t r a b c)
    ]
  ]
]

-- The start of a period panics if there are overflow checks and an alarm's time has passed, while it
-- has not been triggered yet. Otherwise there are no checks or no such alarm, and it counts the
-- period and keeps every alarm's time; each alarm that is due within 0xc00000 ticks from the start is
-- enabled with its time as the compare value, and the others are left as they are.
pub next_period_lem :
    (p : Profile) (r : Rtc)
    → r.period + 1 < 2 ^ 32
    → Fits r
    → ((next_period p r ≡ none)
        × (p ≡ dev)
        × ((n : ℕ) × (n < 3) × ((r.alarms n).timestamp < next_start r)))
      ⊎ ((r' : Rtc) × (next_period p r ≡ some r')
          × IsAhead p (next_start r) r
          × (r'.period ≡ r.period + 1)
          × ((n : ℕ) → n < 3 → channel n r' ≡ channel_after (next_start r) (channel n r)))
next_period_lem release r small fits =
    let ahead : IsAhead release (next_start r) r = λ n h. inr refl in
    let o = (next_period_branches release r small fits).0 ahead in inr (o.0, o.1, ahead, o.2, o.3)
next_period_lem dev r small fits =
    let branches = next_period_branches dev r small fits in
    elim (some_late (next_start r) r) [
      | inl (n, h, late) ↦ inl (branches.1 n h late, refl, (n, h, late))
      | inr above ↦
          let o = branches.0 (λ n h. inl (above n h)) in
          inr (o.0, o.1, (λ n h. inl (above n h)), o.2, o.3)
    ]
