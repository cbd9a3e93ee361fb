-- ===== src/Stm32/Exti.antt =====
-- embassy-stm32/src/exti.rs: pins that wait for a level or an edge by an interrupt. What the hal crate
-- does with a pin is a parameter. A future is its state between two polls; a panic is `none`.
mod Waits
mod Tests
use embassy.Base.{ℕ, Bool, true, false, not, ◌&&◌, ◌||◌, Option, none, some, if◌then◌else◌}
use embassy.Poll.{Poll, pending, ready}
use embassy.Interrupt.{Nvic, Line}
use embassy.Util.InterruptFuture.{new_future, future_poll, drop_future}

pub data EdgeOption : Type 0 where
  rising falling rising_falling : EdgeOption

-- `Instance` and `InputPin`, on the state of a pin and its line; reading a level may fail.
pub record Instance (P : Type 0) : Type 0 where
  pub make_source : P → P
  pub clear_pending_bit : P → P
  pub trigger_edge : EdgeOption → P → P
  pub is_high : P → Option Bool
  pub is_low : P → Option Bool

pub record ExtiPin (N P : Type 0) : Type 0 where
  pub pin : P
  pub interrupt : Line N

-- The futures of `wait_for_state` and of `wait_for_edge`.
pub data Wait : Type 0 where
  for_state : Bool → Wait
  for_edge : EdgeOption → Wait
  waits : Wait
  done : Wait

abbrev pub or_false : Option Bool → Bool
or_false none = false
or_false (some b) = b

module _ {N P : Type 0} (nvic : Nvic N) (port : Instance P) where
  unfoldable pub new_pin : P → Line N → ExtiPin N P
  new_pin pin interrupt = record { pin = port.make_source pin; interrupt = interrupt }

  -- What the two functions do before their future.
  unfoldable pub wait_for_state : Bool → ExtiPin N P → Wait × ExtiPin N P
  wait_for_state state s = (for_state state, record s { pin = port.clear_pending_bit s.pin })

  unfoldable pub wait_for_edge : EdgeOption → ExtiPin N P → Wait × ExtiPin N P
  wait_for_edge state s = (for_edge state, record s { pin = port.clear_pending_bit s.pin })

  abbrev pub wait_for_high : ExtiPin N P → Wait × ExtiPin N P
  wait_for_high s = wait_for_state true s

  abbrev pub wait_for_low : ExtiPin N P → Wait × ExtiPin N P
  wait_for_low s = wait_for_state false s

  abbrev pub wait_for_rising_edge : ExtiPin N P → Wait × ExtiPin N P
  wait_for_rising_edge s = wait_for_edge rising s

  abbrev pub wait_for_falling_edge : ExtiPin N P → Wait × ExtiPin N P
  wait_for_falling_edge s = wait_for_edge falling s

  abbrev pub wait_for_any_edge : ExtiPin N P → Wait × ExtiPin N P
  wait_for_any_edge s = wait_for_edge rising_falling s

  -- A new future for the interrupt, and the edge.
  abbrev pub listen : EdgeOption → ExtiPin N P → ExtiPin N P
  listen edge s = record s {
    interrupt = new_future nvic s.interrupt;
    pin = port.trigger_edge edge s.pin;
  }

  abbrev pub Waited : Type 0
  Waited = Poll (Unit {0}) × Wait × ExtiPin N P

  -- What `fut.await` and the rest do with the answer of the future.
  unfoldable pub wait_answer : Poll (Unit {0}) → Line N → ExtiPin N P → Waited
  wait_answer pending line s = (pending, waits, record s { interrupt = line })
  wait_answer (ready _) line s = (
    ready tt,
    done,
    record s { interrupt = drop_future nvic line; pin = port.clear_pending_bit s.pin },
  )

  abbrev pub await : ℕ → ExtiPin N P → Waited
  await t s = let (answer, line) = future_poll nvic t s.interrupt in wait_answer answer line s

  abbrev pub at_level : Bool → P → Bool
  at_level state pin =
      (state && or_false (port.is_high pin)) || (not state && or_false (port.is_low pin))

  unfoldable pub wait_poll : ℕ → Wait → ExtiPin N P → Option Waited
  wait_poll t (for_state state) s =
      let s' = listen (if state then rising else falling) s in
      some (
        if at_level state s'.pin
        then (ready tt, done, record s' { interrupt = drop_future nvic s'.interrupt })
        else await t s')
  wait_poll t (for_edge edge) s = some (await t (listen edge s))
  wait_poll t waits s = some (await t s)
  wait_poll t done s = none

  -- A future that is dropped drops that of the interrupt.
  unfoldable pub wait_drop : Wait → ExtiPin N P → ExtiPin N P
  wait_drop (for_state state) s = s
  wait_drop (for_edge edge) s = s
  wait_drop waits s = record s { interrupt = drop_future nvic s.interrupt }
  wait_drop done s = s
