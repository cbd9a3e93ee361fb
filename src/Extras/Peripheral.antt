-- ===== src/Extras/Peripheral.antt =====
-- embassy-extras/src/peripheral.rs and peripheral_shared.rs: state that an interrupt shares. The
-- context of the handler is the place of the state, `addr`; the interrupt controller is a parameter.
pub mod Exclusion
mod Tests
use embassy.Base.{ℕ, Bool, true, false, some, if◌then◌else◌}
use embassy.Interrupt.{
  Nvic, HandlerFunc, other_func, Line, set_handler, remove_handler, set_handler_context, enable,
  disable,
}

pub record PeripheralMutex (S N : Type 0) : Type 0 where
  pub state : S
  pub irq_setup_done : Bool
  pub irq : Line N

-- The handlers that run `on_interrupt` on the state that the context points to.
abbrev pub run_on_interrupt : HandlerFunc
run_on_interrupt = other_func 0

unfoldable pub new_mutex : {S N : Type 0} → S → Line N → PeripheralMutex S N
new_mutex state irq = record { state = state; irq_setup_done = false; irq = irq }

module _ {S N : Type 0} (nvic : Nvic N) where
  -- `PeripheralMutex::register_interrupt`.
  unfoldable pub register_interrupt : ℕ → PeripheralMutex S N → PeripheralMutex S N
  unfolding disable set_handler set_handler_context enable
  register_interrupt addr m =
      let handled = set_handler nvic run_on_interrupt (disable nvic m.irq) in
      let irq = enable nvic (set_handler_context nvic (some addr) handled) in
      if m.irq_setup_done then m else record m { irq = irq; irq_setup_done = true }

  -- `PeripheralMutex::with`: the closure gets the state and the interrupt.
  unfoldable pub with_state :
      {R : Type 0} → (S → Line N → R × S × Line N) → PeripheralMutex S N → R × PeripheralMutex S N
  unfolding disable enable
  with_state f m =
      let (r, state, irq) = f m.state (disable nvic m.irq) in
      (r, record m { state = state; irq = enable nvic irq })

  -- `Drop` of both types.
  unfoldable pub drop_mutex : PeripheralMutex S N → PeripheralMutex S N
  unfolding disable remove_handler
  drop_mutex m = record m { irq = remove_handler nvic (disable nvic m.irq) }

-- `Peripheral` of peripheral_shared.rs, whose state changes only inside itself.
pub record Peripheral (S N : Type 0) : Type 0 where
  pub shared_state : S
  pub setup_done : Bool
  pub line : Line N

unfoldable pub new_peripheral : {S N : Type 0} → Line N → S → Peripheral S N
new_peripheral irq state = record { shared_state = state; setup_done = false; line = irq }

module _ {S N : Type 0} (nvic : Nvic N) where
  unfoldable pub register_shared : ℕ → Peripheral S N → Peripheral S N
  unfolding disable set_handler set_handler_context enable
  register_shared addr m =
      let handled = set_handler nvic run_on_interrupt (disable nvic m.line) in
      let irq = enable nvic (set_handler_context nvic (some addr) handled) in
      if m.setup_done then m else record m { line = irq; setup_done = true }

  unfoldable pub shared : Peripheral S N → S
  shared m = m.shared_state

  unfoldable pub drop_peripheral : Peripheral S N → Peripheral S N
  unfolding disable remove_handler
  drop_peripheral m = record m { line = remove_handler nvic (disable nvic m.line) }
