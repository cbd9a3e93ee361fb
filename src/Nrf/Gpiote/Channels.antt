-- ===== src/Nrf/Gpiote/Channels.antt =====
-- What the loop of `on_irq` over channels does to each channel and to the tasks that wait.
use embassy.Base.{
  ℕ, zero, suc, ◌<◌, ◌≡◌, refl, ap, ◌∙◌, subst, inl, inr, Bool, true, false, ◌&&◌, some, arith, ltb,
  ◌==◌, if◌then◌else◌, Bool-cases,
}
use embassy.Base.Tables.{put}
use embassy.Executor.{System}
use embassy.Util.Woken.{IsLive, IsMarked, wake_atomic_marks, Stays, wake_atomic-Stays, Stays-trans}
use embassy.Nrf.Gpiote.{Gpiote, channel_event, channel_events}

abbrev with_inten : (ℕ → Bool) → Gpiote → Gpiote
with_inten m g = record g { inten = m }

-- The loop over channels changes no register but the interrupt's mask.
pub channel_events-registers :
    (n : ℕ) (st : Gpiote × System)
    → (channel_events n st).0 ≡ record st.0 { inten = (channel_events n st).0.inten }
unfolding channel_events channel_event
channel_events-registers zero st = refl
channel_events-registers (suc n) st =
    let before = channel_events n st in
    let old = channel_events-registers n st in
    elim (Bool-cases (before.0.events_in n)) [
      | inl has ↦ rw has (ap (with_inten (put before.0.inten n false)) old)
      | inr quiet ↦ rw quiet old
    ]

pub channel_events-inten :
    (n i : ℕ) (st : Gpiote × System)
    → (channel_events n st).0.inten i
      ≡ (if ltb i n && st.0.events_in i then false else st.0.inten i)
unfolding channel_events channel_event
channel_events-inten zero i st = ground arith
channel_events-inten (suc n) i st =
    let events : (channel_events n st).0.events_in ≡ st.0.events_in =
      ap (λ g. g.events_in) (channel_events-registers n st) in
    let old = channel_events-inten n i st in
    let kept : (channel_events n st).0.events_in n ≡ st.0.events_in n = ap (λ f. f n) events in
    elim (Bool-cases (st.0.events_in n)) [
      | inl has ↦
          rw (kept, has)
            (elim (Bool-cases (i == n)) [
              | inl is ↦
                  let same : i ≡ n = ground arith in
                  let here : st.0.events_in i ≡ true = ap st.0.events_in same ∙ has in
                  let below : ltb i (suc n) ≡ true = ground arith in rw (is, here, below) refl
              | inr other ↦
                  let bound : ltb i (suc n) ≡ ltb i n = ground arith in rw (other, bound) old
            ])
      | inr quiet ↦
          rw (kept, quiet)
            (elim (Bool-cases (i == n)) [
              | inl is ↦
                  let same : i ≡ n = ground arith in
                  let here : st.0.events_in i ≡ false = ap st.0.events_in same ∙ quiet in
                  old ∙ ground arith
              | inr other ↦ let bound : ltb i (suc n) ≡ ltb i n = ground arith in rw bound old
            ])
    ]

module _ (t : ℕ) where
  channel_event-Stays : (n : ℕ) (st : Gpiote × System) → Stays t st.1 (channel_event n st).1
  unfolding channel_event
  channel_event-Stays n st = elim (Bool-cases (st.0.events_in n)) [
    | inl has ↦ rw has (wake_atomic-Stays (st.0.channel_wakers n) t st.1)
    | inr quiet ↦ rw quiet (λ live. live, λ m. m)
  ]

  pub channel_events-Stays : (n : ℕ) (st : Gpiote × System) → Stays t st.1 (channel_events n st).1
  unfolding channel_events
  channel_events-Stays zero st = (λ live. live, λ m. m)
  channel_events-Stays (suc n) st =
      let before = channel_events n st in
      Stays-trans t st.1 before.1 (channel_event n before).1 (channel_events-Stays n st)
        (channel_event-Stays n before)

  channel_event-marks :
      (n : ℕ) (st : Gpiote × System)
      → st.0.events_in n ≡ true
      → (st.0.channel_wakers n).task ≡ some t
      → IsLive t st.1
      → IsMarked t (channel_event n st).1
  unfolding channel_event
  channel_event-marks n st has e live =
      rw has (wake_atomic_marks (st.0.channel_wakers n) t st.1 e live)

  pub channel_events-marks :
      (n i : ℕ) (st : Gpiote × System)
      → i < n
      → st.0.events_in i ≡ true
      → (st.0.channel_wakers i).task ≡ some t
      → IsLive t st.1
      → IsMarked t (channel_events n st).1
  unfolding channel_events
  channel_events-marks zero i st below has e live = absurd (omega arith)
  channel_events-marks (suc n) i st below has e live =
      let before = channel_events n st in
      let same = channel_events-registers n st in
      elim (Bool-cases (i == n)) [
        | inl is ↦
            let last : i ≡ n = ground arith in
            subst (λ y. IsMarked t (channel_event y before).1) last
              (channel_event-marks i before (ap (λ g. g.events_in i) same ∙ has)
                (ap (λ g. (g.channel_wakers i).task) same ∙ e) ((channel_events-Stays n st).0 live))
        | inr other ↦
            (channel_event-Stays n before).1 (channel_events-marks n i st (ground arith) has e live)
      ]
