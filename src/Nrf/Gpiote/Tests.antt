-- ===== src/Nrf/Gpiote/Tests.antt =====
-- The theorems on the pin events at concrete states, and runs of the code.
use embassy.Base.{◌≡◌, refl, ◌⊎◌, true, false, [], ◌∷◌, arith, ◌==◌, if◌then◌else◌}
use embassy.Base.Bits.{bit}
use embassy.Poll.{pending, ready}
use embassy.Executor.{new_header, System, new_system}
use embassy.Util.Waker.{new_atomic}
use embassy.Util.Woken.{IsMarked}
use embassy.Nrf.Gpiote.{
  hi_to_lo, reset_config, sense_disabled, sense_high, Gpiote, initialize, next_bit, bit_iter,
  channel_event, channel_events, pin_event, pin_events, port_event, port_events, on_irq, new_input,
  wait, wait_poll, wait_for, port_poll,
}
use embassy.Nrf.Gpiote.Bits.{set_bits, bit_iter-set_bits}
use embassy.Nrf.Gpiote.Wakes.{pin_wakes, raise_in, channel_wakes}

abbrev off : Gpiote
off = record {
  events_in = λ i. false;
  events_port = false;
  inten = λ b. false;
  config = λ i. reset_config;
  triggers = [];
  ldetect = λ p. false;
  latch = λ p. 0;
  sense = λ k. sense_disabled;
  channel_wakers = λ i. new_atomic;
  port_wakers = λ k. new_atomic;
}

abbrev running : System
running = record new_system { headers = λ t. record new_header { spawned = true } }

-- Pin 34, of the second port, waits for a high level, and its latch is set.
abbrev latch_34 : Gpiote
latch_34 = record (wait_for sense_high 34 (initialize 2 off)) {
  events_port = true;
  latch = λ p. if p == 1 then 0b101 else 0;
}

bit_iter-set_bits_example : bit_iter 32 32 0x8001_0004 ≡ set_bits 32 0x8001_0004
bit_iter-set_bits_example = bit_iter-set_bits 32 32 0x8001_0004 (omega arith)

three_bits : bit_iter 32 32 0x8001_0004 ≡ 2 ∷ 16 ∷ 31 ∷ []
unfolding bit_iter next_bit
three_bits = refl

-- Both pins of the word are no longer sensed, and the latch is clear.
both_pins :
    let g = (on_irq 2 (latch_34, running)).0 in
    (g.sense 32 ≡ sense_disabled) × (g.sense 34 ≡ sense_disabled) × (g.latch 1 ≡ 0)
unfolding on_irq channel_events channel_event port_events port_event pin_events pin_event bit_iter
    next_bit wait_for initialize
both_pins = (refl, refl, refl)

pin_wakes_example :
    let first = port_poll 34 5 latch_34 in
    let after = on_irq 2 (first.1, running) in
    ((bit (latch_34.latch 1) 2 ≡ true)
      × IsMarked 5 after.1
      × ((port_poll 34 6 after.0).0 ≡ ready tt))
    ⊎ ((bit (latch_34.latch 1) 2 ≡ false) × ((port_poll 34 6 after.0).0 ≡ first.0))
pin_wakes_example = pin_wakes 2 34 5 6 latch_34 running refl (omega arith) refl

abbrev falling_input : Gpiote
falling_input = new_input 3 34 hi_to_lo (initialize 2 off)

channel_wakes_example :
    let first = wait_poll 3 5 (wait 3 falling_input) in
    let came = on_irq 2 (raise_in 3 first.1, running) in
    let other = on_irq 2 (first.1, running) in
    (first.0 ≡ pending)
    × (came.0.inten 3 ≡ false)
    × IsMarked 5 came.1
    × ((wait_poll 3 6 came.0).0 ≡ ready tt)
    × (other.0.inten 3 ≡ true)
    × ((wait_poll 3 6 other.0).0 ≡ pending)
channel_wakes_example = channel_wakes 2 3 5 6 falling_input running refl (omega arith)
