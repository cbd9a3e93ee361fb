-- ===== src/Nrf/Rtc/Alarms.antt =====
-- When an alarm's compare event comes, after `set_alarm` and after the start of a period.
use embassy.Base.{
  ℕ, ◌+◌, ◌-◌, ◌%◌, ◌^◌, ◌≤◌, ◌<◌, max, ◌≡◌, refl, sym, ap, ◌∙◌, subst, ◌≢◌, ◌⊎◌, inl, inr, true,
  false, ◌&&◌, some, arith, ltb, leb, if◌then◌else◌, le-or-lt,
}
use embassy.Time.{u64_mod, Profile, dev, release, now}
use embassy.Base.Tables.{put_self}
use embassy.Nrf.Rtc.{
  compare_n, Rtc, write_cc, intenset, intenclr, set_timestamp, rtc_now, trigger_alarm, set_alarm,
  rearm,
}

-- The first time after `time` at which a 24-bit counter that counts it equals `cc`.
pub record IsFirst (time cc first : ℕ) : Type 0 where
  pub later : time < first
  pub matches : first % 2 ^ 24 ≡ cc
  pub none_before : (u : ℕ) → time < u → u < first → u % 2 ^ 24 ≢ cc

IsFirst-near :
    (time first : ℕ) → time < first → first < time + 2 ^ 24 → IsFirst time (first % 2 ^ 24) first
IsFirst-near time first after near = record {
  later = after;
  matches = refl;
  none_before = λ u lo hi e. omega arith;
}

-- A compare value that is the counter's present one comes a whole turn of the counter later.
pub IsFirst-turn : (time : ℕ) → IsFirst time (time % 2 ^ 24) (time + 2 ^ 24)
IsFirst-turn time = record {
  later = omega arith;
  matches = omega arith;
  none_before = λ u lo hi e. omega arith;
}

module _ (call : ℕ → Rtc → Rtc) (counter n time at : ℕ) (r : Rtc) where
  -- What `set_alarm` does at the time that it reads.
  abbrev set_at : ℕ → Rtc
  set_at t =
      let set = set_timestamp r n at in
      if leb at t
      then trigger_alarm call n set
      else if ltb (at - t) 0xc00000
      then intenset (write_cc set n (max at (t + 3) % 2 ^ 24)) (compare_n n)
      else intenclr set (compare_n n)

  abbrev armed : Rtc
  armed = intenset (write_cc (set_timestamp r n at) n (max at (time + 3) % 2 ^ 24)) (compare_n n)

  pub set_alarm-eq :
      rtc_now r counter ≡ time
      → (at ≤ time → set_alarm call counter n at r ≡ trigger_alarm call n (set_timestamp r n at))
        × (time < at → at < time + 0xc00000 → set_alarm call counter n at r ≡ armed)
        × (time + 0xc00000 ≤ at
            → set_alarm call counter n at r ≡ intenclr (set_timestamp r n at) (compare_n n))
  unfolding set_alarm rtc_now
  set_alarm-eq e = (
    λ due. ap set_at e ∙ ground arith,
    λ after near. ap set_at e ∙ ground arith,
    λ far. ap set_at e ∙ ground arith,
  )

  pub set_alarm_branches :
      rtc_now r counter ≡ time
      → (at ≤ time → set_alarm call counter n at r ≡ trigger_alarm call n (set_timestamp r n at))
        × (time < at
            → at < time + 0xc00000
            → (((set_alarm call counter n at r).alarms n).timestamp ≡ at)
              × ((set_alarm call counter n at r).inten (compare_n n) ≡ true)
              × IsFirst time ((set_alarm call counter n at r).cc n) (max at (time + 3)))
        × (time + 0xc00000 ≤ at
            → (((set_alarm call counter n at r).alarms n).timestamp ≡ at)
              × ((set_alarm call counter n at r).inten (compare_n n) ≡ false))
  set_alarm_branches e =
      let eqs = set_alarm-eq e in
      (
        eqs.0,
        λ after near.
            subst
              (λ s.
                ((s.alarms n).timestamp ≡ at)
                × (s.inten (compare_n n) ≡ true)
                × IsFirst time (s.cc n) (max at (time + 3)))
              (sym (eqs.1 after near))
              (
                ap (λ a. a.timestamp)
                    (put_self r.alarms n (record (r.alarms n) { timestamp = at })),
                put_self r.inten (compare_n n) true,
                subst (λ c. IsFirst time c (max at (time + 3)))
                    (sym (put_self r.cc n (max at (time + 3) % 2 ^ 24)))
                    (IsFirst-near time (max at (time + 3)) (omega arith) (omega arith)),
              ),
        λ far.
            subst (λ s. ((s.alarms n).timestamp ≡ at) × (s.inten (compare_n n) ≡ false))
              (sym (eqs.2 far))
              (
                ap (λ a. a.timestamp)
                    (put_self r.alarms n (record (r.alarms n) { timestamp = at })),
                put_self r.inten (compare_n n) false,
              ),
      )

  -- An alarm that is set at a time that the clock reads right is triggered at once if its time has
  -- come. Otherwise it keeps its time, and if that is near, then its compare event is enabled and
  -- first comes at that time, or 3 ticks from now if that is later; if it is not, the event is
  -- disabled.
  pub set_alarm_lem :
      rtc_now r counter ≡ time
      → ((at ≤ time)
          × (set_alarm call counter n at r ≡ trigger_alarm call n (set_timestamp r n at)))
        ⊎ (((time < at)
              × (at < time + 0xc00000)
              × (((set_alarm call counter n at r).alarms n).timestamp ≡ at)
              × ((set_alarm call counter n at r).inten (compare_n n) ≡ true)
              × IsFirst time ((set_alarm call counter n at r).cc n) (max at (time + 3)))
            ⊎ ((time + 0xc00000 ≤ at)
                × (((set_alarm call counter n at r).alarms n).timestamp ≡ at)
                × ((set_alarm call counter n at r).inten (compare_n n) ≡ false)))
  set_alarm_lem e =
      let (now, near, far) = set_alarm_branches e in
      elim (le-or-lt at time) [
        | inl due ↦ inl (due, now due)
        | inr after ↦ elim (le-or-lt (time + 0xc00000) at) [
          | inl away ↦ inr (inr (away, (far away).0, (far away).1))
          | inr close ↦ let o = near after close in inr (inl (after, close, o.0, o.1, o.2))
        ]
      ]

-- What `rearm` leaves, where it does not panic.
abbrev pub rearmed : ℕ → ℕ → Rtc → Rtc
rearmed t n r =
    let at = (r.alarms n).timestamp in
    if leb t at && ltb at (t + 0xc00000)
    then intenset (write_cc r n (at % 2 ^ 24)) (compare_n n)
    else r

pub rearm-rearmed :
    (p : Profile) (t n : ℕ) (r r' : Rtc)
    → t < 2 ^ 56
    → (r.alarms n).timestamp < u64_mod
    → rearm p t n r ≡ some r'
    → r' ≡ rearmed t n r
unfolding rearm
rearm-rearmed dev t n r r' small fits e = ground arith
rearm-rearmed release t n r r' small fits e = ground arith
