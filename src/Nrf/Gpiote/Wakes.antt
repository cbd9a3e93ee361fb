-- ===== src/Nrf/Gpiote/Wakes.antt =====
-- A task that waits for an event of a channel, or for the level of a pin, is woken by the handler.
use embassy.Base.{
  ℕ, ◌/◌, ◌%◌, ◌<◌, ◌≡◌, refl, sym, ap, ◌∙◌, subst, ◌⊎◌, inl, inr, Bool, true, false, some, arith,
  ltb, if◌then◌else◌, Bool-cases,
}
use embassy.Base.Bits.{bit}
use embassy.Base.Tables.{put, put_self}
use embassy.Poll.{Poll, pending, ready}
use embassy.Executor.{System}
use embassy.Util.Waker.{register_atomic}
use embassy.Util.Woken.{IsLive, IsMarked}
use embassy.Nrf.Gpiote.{
  Sense, sense_disabled, Gpiote, channel_count, channel_events, port_events, on_irq, wait,
  wait_poll, is_disabled, port_poll,
}
use embassy.Nrf.Gpiote.Channels.{
  channel_events-registers, channel_events-inten, channel_events-Stays, channel_events-marks,
}
use embassy.Nrf.Gpiote.Pins.{
  latched, port_events-registers, port_events-sense, port_events-Stays, port_events-marks,
}

-- The handler, if the event of the ports has come.
on_irq-ports :
    (ports : ℕ) (st : Gpiote × System)
    → st.0.events_port ≡ true
    → on_irq ports st ≡ (
        let (g, s) = channel_events channel_count st in
        port_events ports (record g { events_port = false }, s))
unfolding on_irq
on_irq-ports ports st has =
    let kept : (channel_events channel_count st).0.events_port ≡ true =
      ap (λ g. g.events_port) (channel_events-registers channel_count st) ∙ has in
    rw kept refl

on_irq-sense :
    (ports k : ℕ) (st : Gpiote × System)
    → st.0.events_port ≡ true
    → (on_irq ports st).0.sense k ≡ (if latched ports st.0 k then sense_disabled else st.0.sense k)
on_irq-sense ports k st has =
    let (g, s) = channel_events channel_count st in
    let kept = channel_events-registers channel_count st in
    ap (λ r. r.0.sense k) (on_irq-ports ports st has)
    ∙ port_events-sense ports k (record g { events_port = false }, s)
    ∙ ap (λ r. if latched ports r k then sense_disabled else r.sense k) kept

on_irq-marks :
    (ports k t : ℕ) (st : Gpiote × System)
    → st.0.events_port ≡ true
    → latched ports st.0 k ≡ true
    → (st.0.port_wakers k).task ≡ some t
    → IsLive t st.1
    → IsMarked t (on_irq ports st).1
on_irq-marks ports k t st has is_set e live =
    let (g, s) = channel_events channel_count st in
    let kept = channel_events-registers channel_count st in
    subst (λ r. IsMarked t r.1) (sym (on_irq-ports ports st has))
      (port_events-marks t ports k (record g { events_port = false }, s)
        (ap (λ r. latched ports r k) kept ∙ is_set) (ap (λ r. (r.port_wakers k).task) kept ∙ e)
        ((channel_events-Stays t channel_count st).0 live))

-- A task that polls the future of a pin is registered. When the event of the ports comes, and the
-- task is spawned, then either the pin's latch was set, and the task is marked to run and its next
-- poll is ready, or it was not, and the next poll is as the first.
pub pin_wakes :
    (ports k t u : ℕ) (g : Gpiote) (s : System)
    → IsLive t s
    → k / 32 < ports
    → g.events_port ≡ true
    → let first = port_poll k t g in
      let after = on_irq ports (first.1, s) in
      ((bit (g.latch (k / 32)) (k % 32) ≡ true)
        × IsMarked t after.1
        × ((port_poll k u after.0).0 ≡ ready tt))
      ⊎ ((bit (g.latch (k / 32)) (k % 32) ≡ false) × ((port_poll k u after.0).0 ≡ first.0))
unfolding port_poll register_atomic
pin_wakes ports k t u g s live has_port has =
    let g1 = (port_poll k t g).1 in
    let answer : Sense → Poll (Unit {0}) = λ x. if is_disabled x then ready tt else pending in
    let chosen : Bool → Sense = λ b. if b then sense_disabled else g.sense k in
    let sense = on_irq-sense ports k (g1, s) has in
    elim (Bool-cases (bit (g.latch (k / 32)) (k % 32))) [
      | inl is_set ↦
          let found : latched ports g k ≡ true = ground arith in
          inl (
            is_set,
            on_irq-marks ports k t (g1, s) has found
                (ap (λ a. a.task) (put_self g.port_wakers k (register_atomic t (g.port_wakers k))))
                live,
            ap answer (sense ∙ ap chosen found),
          )
      | inr unset ↦
          let missing : latched ports g k ≡ false = ground arith in
          inr (unset, ap answer (sense ∙ ap chosen missing))
    ]

on_irq-channels :
    (ports : ℕ) (st : Gpiote × System)
    → ((on_irq ports st).0.inten ≡ (channel_events channel_count st).0.inten)
      × ((on_irq ports st).0.events_in ≡ st.0.events_in)
      × ((t : ℕ) → IsMarked t (channel_events channel_count st).1 → IsMarked t (on_irq ports st).1)
unfolding on_irq
on_irq-channels ports st =
    let (g, s) = channel_events channel_count st in
    let kept = channel_events-registers channel_count st in
    let cleared = record g { events_port = false } in
    let pins = port_events-registers ports (cleared, s) in
    elim (Bool-cases g.events_port) [
      | inl has ↦ rw has (
        ap (λ r. r.inten) pins,
        ap (λ r. r.events_in) pins ∙ ap (λ r. r.events_in) kept,
        λ t. (port_events-Stays t ports (cleared, s)).1,
      )
      | inr quiet ↦ rw quiet (refl, ap (λ r. r.events_in) kept, λ t m. m)
    ]

-- The state once the event of a channel has come.
abbrev pub raise_in : ℕ → Gpiote → Gpiote
raise_in num g = record g { events_in = put g.events_in num true }

-- A spawned task that waits for a channel's event is pending at its first poll. If the handler then
-- runs for that event, then it masks the channel, marks the task to run, and the next poll is ready;
-- if it runs for anything else, then the channel stays unmasked, and the next poll is pending.
pub channel_wakes :
    (ports num t u : ℕ) (g : Gpiote) (s : System)
    → IsLive t s
    → num < channel_count
    → let first = wait_poll num t (wait num g) in
      let came = on_irq ports (raise_in num first.1, s) in
      let other = on_irq ports (first.1, s) in
      (first.0 ≡ pending)
      × (came.0.inten num ≡ false)
      × IsMarked t came.1
      × ((wait_poll num u came.0).0 ≡ ready tt)
      × (other.0.inten num ≡ true)
      × ((wait_poll num u other.0).0 ≡ pending)
unfolding wait wait_poll register_atomic
channel_wakes ports num t u g s live fits =
    let first = (wait_poll num t (wait num g)).1 in
    let came = raise_in num first in
    let answer : Bool → Poll (Unit {0}) = λ b. if b then ready tt else pending in
    let (inten, events, marks) = on_irq-channels ports (came, s) in
    let (inten', events', marks') = on_irq-channels ports (first, s) in
    let no_event : first.events_in num ≡ false = put_self g.events_in num false in
    let event : came.events_in num ≡ true = put_self first.events_in num true in
    let enabled : first.inten num ≡ true = put_self g.inten num true in
    let below : ltb num 8 ≡ true = ground arith in
    (
      ap answer no_event,
      ap (λ f. f num) inten
          ∙ channel_events-inten channel_count num (came, s)
          ∙ rw (below, event) refl,
      marks t (
          channel_events-marks t channel_count num (came, s) fits event
            (ap (λ a. a.task)
              (put_self g.channel_wakers num (register_atomic t (g.channel_wakers num))))
            live),
      ap answer (ap (λ f. f num) events ∙ event),
      ap (λ f. f num) inten'
          ∙ channel_events-inten channel_count num (first, s)
          ∙ rw (below, no_event) enabled,
      ap answer (ap (λ f. f num) events' ∙ no_event),
    )
