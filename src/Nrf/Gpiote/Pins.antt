-- ===== src/Nrf/Gpiote/Pins.antt =====
-- What the loops of `on_irq` over ports and pins do to each pin and to the tasks that wait.
use embassy.Base.{
  ℕ, zero, suc, ◌+◌, ◌*◌, ◌/◌, ◌%◌, ◌≤◌, ◌<◌, ◌≡◌, refl, ap, ◌∙◌, subst, inl, inr, Bool, true,
  false, ◌&&◌, some, List, [], ◌∷◌, arith, ltb, ◌==◌, if◌then◌else◌, Bool-cases,
}
use embassy.Base.Bits.{bit}
use embassy.Base.Tables.{put}
use embassy.Executor.{System, mem}
use embassy.Util.Woken.{
  IsLive, IsMarked, wake_atomic-IsLive, wake_atomic_marks, Stays, wake_atomic-Stays, Stays-trans,
}
use embassy.Nrf.Gpiote.{
  Sense, sense_disabled, Gpiote, bit_iter, pin_event, pin_events, port_event, port_events, set,
}
use embassy.Nrf.Gpiote.Bits.{mem-bit_iter}

-- The loop over pins changes no register but their senses.
pin_events-registers :
    (port : ℕ) (pins : List ℕ) (st : Gpiote × System)
    → (pin_events port pins st).0 ≡ record st.0 { sense = (pin_events port pins st).0.sense }
unfolding pin_events
pin_events-registers port [] st = refl
pin_events-registers port (pin ∷ pins) st =
    let st' = pin_event port pin st in pin_events-registers port pins st'

pin_events-sense :
    (port k : ℕ) (pins : List ℕ) (st : Gpiote × System)
    → ((b : ℕ) → mem b pins ≡ true → b < 32)
    → (pin_events port pins st).0.sense k
      ≡ (if (k / 32 == port) && mem (k % 32) pins then sense_disabled else st.0.sense k)
unfolding pin_events
pin_events-sense port k [] st below = ground arith
pin_events-sense port k (pin ∷ pins) st below =
    let small : pin < 32 = below pin (ground arith) in
    let here : (k == port * 32 + pin) ≡ ((k / 32 == port) && (k % 32 == pin)) = ground arith in
    pin_events-sense port k pins (pin_event port pin st) (λ b m. below b (ground arith))
    ∙ ground arith

module _ (t : ℕ) where
  pin_events-Stays :
      (port : ℕ) (pins : List ℕ) (st : Gpiote × System) → Stays t st.1 (pin_events port pins st).1
  unfolding pin_events
  pin_events-Stays port [] st = (λ live. live, λ m. m)
  pin_events-Stays port (pin ∷ pins) st =
      let st' = pin_event port pin st in
      Stays-trans t st.1 st'.1 (pin_events port pins st').1
        (wake_atomic-Stays (st.0.port_wakers (port * 32 + pin)) t st.1)
        (pin_events-Stays port pins st')

  pin_events-marks :
      (port pin : ℕ) (pins : List ℕ) (st : Gpiote × System)
      → mem pin pins ≡ true
      → (st.0.port_wakers (port * 32 + pin)).task ≡ some t
      → IsLive t st.1
      → IsMarked t (pin_events port pins st).1
  unfolding pin_events
  pin_events-marks port pin [] st m e live = absurd (ground arith)
  pin_events-marks port pin (x ∷ pins) st m e live =
      let st' = pin_event port x st in
      elim (Bool-cases (pin == x)) [
        | inl is ↦
            let same : pin ≡ x = ground arith in
            (pin_events-Stays port pins st').1 (
              wake_atomic_marks (st.0.port_wakers (port * 32 + x)) t st.1
                (subst (λ y. (st.0.port_wakers (port * 32 + y)).task ≡ some t) same e) live)
        | inr other ↦
            pin_events-marks port pin pins st' (ground arith) e
              (wake_atomic-IsLive (st.0.port_wakers (port * 32 + x)) t st.1 live)
      ]

-- Whether the latch of a pin is set, of the first `n` ports.
abbrev pub latched : ℕ → Gpiote → ℕ → Bool
latched n g k = ltb (k / 32) n && bit (g.latch (k / 32)) (k % 32)

bit_iter-small : (bits b : ℕ) → mem b (bit_iter 32 32 bits) ≡ true → b < 32
bit_iter-small bits b m = let e = mem-bit_iter b bits in ground arith

port_event-sense :
    (port k : ℕ) (st : Gpiote × System)
    → (port_event port st).0.sense k ≡ (
        if (k / 32 == port) && bit (st.0.latch (k / 32)) (k % 32)
        then sense_disabled
        else st.0.sense k)
unfolding port_event
port_event-sense port k st =
    pin_events-sense port k (bit_iter 32 32 (st.0.latch port)) st (bit_iter-small (st.0.latch port))
    ∙ elim (Bool-cases (k / 32 == port)) [
      | inl is ↦
          let same : port ≡ k / 32 = ground arith in
          let seen = mem-bit_iter (k % 32) (st.0.latch port) in
          let latch : st.0.latch port ≡ st.0.latch (k / 32) = ap st.0.latch same in
          let small : ltb (k % 32) 32 ≡ true = ground arith in rw (is, seen, small, latch) refl
      | inr other ↦ rw other refl
    ]

-- A port's round keeps the latches of other ports, and who is registered.
port_event-latch :
    (port m : ℕ) (st : Gpiote × System)
    → (m == port) ≡ false
    → (port_event port st).0.latch m ≡ st.0.latch m
unfolding port_event
port_event-latch port m st other =
    rw other (ap (λ g. g.latch m) (pin_events-registers port (bit_iter 32 32 (st.0.latch port)) st))

abbrev with_pins : (ℕ → Sense) → (ℕ → ℕ) → Gpiote → Gpiote
with_pins sense latch g = record g { sense = sense; latch = latch }

port_event-registers :
    (port : ℕ) (st : Gpiote × System)
    → (port_event port st).0
      ≡ with_pins (port_event port st).0.sense (port_event port st).0.latch st.0
unfolding port_event
port_event-registers port st =
    let pins = bit_iter 32 32 (st.0.latch port) in
    let after = (pin_events port pins st).0 in
    ap (with_pins after.sense (put after.latch port 0)) (pin_events-registers port pins st)

-- The loop over ports changes no register but the senses and the latches.
pub port_events-registers :
    (n : ℕ) (st : Gpiote × System)
    → (port_events n st).0 ≡ with_pins (port_events n st).0.sense (port_events n st).0.latch st.0
unfolding port_events
port_events-registers zero st = refl
port_events-registers (suc n) st =
    let after = (port_event n (port_events n st)).0 in
    port_event-registers n (port_events n st)
    ∙ ap (with_pins after.sense after.latch) (port_events-registers n st)

port_events-latch :
    (n m : ℕ) (st : Gpiote × System) → n ≤ m → (port_events n st).0.latch m ≡ st.0.latch m
unfolding port_events
port_events-latch zero m st past = refl
port_events-latch (suc n) m st past =
    port_event-latch n m (port_events n st) (ground arith) ∙ port_events-latch n m st (omega arith)

pub port_events-sense :
    (n k : ℕ) (st : Gpiote × System)
    → (port_events n st).0.sense k ≡ (if latched n st.0 k then sense_disabled else st.0.sense k)
unfolding port_events
port_events-sense zero k st = ground arith
port_events-sense (suc n) k st =
    let before = port_events n st in
    port_event-sense n k before ∙ elim (Bool-cases (k / 32 == n)) [
      | inl is ↦
          let same : k / 32 ≡ n = ground arith in
          let latch = port_events-latch n (k / 32) st (omega arith) in
          let old = port_events-sense n k st in
          let last : ltb (k / 32) (suc n) ≡ true = ground arith in
          let new : ltb (k / 32) n ≡ false = ground arith in rw (is, latch, old, last, new) refl
      | inr other ↦
          let old = port_events-sense n k st in
          let bound : ltb (k / 32) (suc n) ≡ ltb (k / 32) n = ground arith in
          rw (other, old, bound) refl
    ]

module _ (t : ℕ) where
  port_event-Stays : (port : ℕ) (st : Gpiote × System) → Stays t st.1 (port_event port st).1
  unfolding port_event
  port_event-Stays port st = pin_events-Stays t port (bit_iter 32 32 (st.0.latch port)) st

  pub port_events-Stays : (n : ℕ) (st : Gpiote × System) → Stays t st.1 (port_events n st).1
  unfolding port_events
  port_events-Stays zero st = (λ live. live, λ m. m)
  port_events-Stays (suc n) st =
      let before = port_events n st in
      Stays-trans t st.1 before.1 (port_event n before).1 (port_events-Stays n st)
        (port_event-Stays n before)

  port_event-marks :
      (port k : ℕ) (st : Gpiote × System)
      → (k / 32 == port) ≡ true
      → bit (st.0.latch port) (k % 32) ≡ true
      → (st.0.port_wakers k).task ≡ some t
      → IsLive t st.1
      → IsMarked t (port_event port st).1
  unfolding port_event
  port_event-marks port k st is set e live =
      let place : k ≡ port * 32 + k % 32 = ground arith in
      let small : ltb (k % 32) 32 ≡ true = ground arith in
      let seen : mem (k % 32) (bit_iter 32 32 (st.0.latch port)) ≡ true =
        mem-bit_iter (k % 32) (st.0.latch port) ∙ rw (small, set) refl in
      pin_events-marks t port (k % 32) (bit_iter 32 32 (st.0.latch port)) st seen
        (subst (λ y. (st.0.port_wakers y).task ≡ some t) place e) live

  -- A task that waits for a pin whose latch is set is marked to run.
  pub port_events-marks :
      (n k : ℕ) (st : Gpiote × System)
      → latched n st.0 k ≡ true
      → (st.0.port_wakers k).task ≡ some t
      → IsLive t st.1
      → IsMarked t (port_events n st).1
  unfolding port_events
  port_events-marks zero k st set e live = absurd (ground arith)
  port_events-marks (suc n) k st set e live =
      let before = port_events n st in
      elim (Bool-cases (k / 32 == n)) [
        | inl is ↦
            let same : n ≡ k / 32 = ground arith in
            let latch : before.0.latch n ≡ st.0.latch (k / 32) =
              port_events-latch n n st (omega arith) ∙ ap st.0.latch same in
            let bit_set : bit (st.0.latch (k / 32)) (k % 32) ≡ true = ground arith in
            port_event-marks n k before is (rw latch bit_set)
              (ap (λ r. (r.port_wakers k).task) (port_events-registers n st) ∙ e)
              ((port_events-Stays n st).0 live)
        | inr other ↦ (port_event-Stays n before).1 (port_events-marks n k st (ground arith) e live)
      ]
