-- ===== src/Extras/Peripheral/Exclusion.antt =====
-- The handler runs only while no one else has the state, once it is registered.
use embassy.Base.{
  ℕ, ◌≡◌, ap, ◌∙◌, true, false, ◌&&◌, Option, none, some, ◌==◌, if◌then◌else◌, ==_refl,
}
use embassy.Interrupt.{
  Nvic, MaskLaws, HandlerFunc, irq_wake, other_func, Line, set_handler, set_handler_context, enable,
  disable, interrupted, interrupted-masked, interrupted-trampoline, trampoline-none,
  trampoline-some,
}
use embassy.Extras.Peripheral.{
  PeripheralMutex, run_on_interrupt, new_mutex, register_interrupt, with_state,
}

-- The handlers get the context, which is the place of the state: `run_on_interrupt` runs on the state
-- at `addr`. A context of none or of another place, or another handler, is undefined behaviour.
abbrev pub called :
    {S N : Type 0}
    → (S → S)
    → ℕ
    → HandlerFunc
    → Option ℕ
    → PeripheralMutex S N
    → Option (PeripheralMutex S N)
called on_interrupt addr irq_wake ctx m = none
called on_interrupt addr (other_func k) none m = none
called on_interrupt addr (other_func k) (some place) m =
    if (k == 0) && (place == addr) then some (record m { state = on_interrupt m.state }) else none

-- The interrupt is raised, of a mutex whose state is at `addr`.
unfoldable pub raise :
    {S N : Type 0} → Nvic N → (S → S) → ℕ → PeripheralMutex S N → Option (PeripheralMutex S N)
unfolding interrupted
raise nvic on_interrupt addr m = interrupted nvic (called on_interrupt addr) m.irq m

module _ {S N : Type 0} (nvic : Nvic N) (on_interrupt : S → S) (addr : ℕ)
    (m : PeripheralMutex S N) where
  raise_masked : nvic.is_enabled m.irq.controller ≡ false → raise nvic on_interrupt addr m ≡ some m
  unfolding raise
  raise_masked off = interrupted-masked nvic (called on_interrupt addr) m.irq m off

  raise_handled :
      nvic.is_enabled m.irq.controller ≡ true
      → m.irq.func ≡ some run_on_interrupt
      → m.irq.ctx ≡ some addr
      → raise nvic on_interrupt addr m ≡ some (record m { state = on_interrupt m.state })
  unfolding raise
  raise_handled on set placed =
      interrupted-trampoline nvic (called on_interrupt addr) m.irq m on
      ∙ trampoline-some nvic (called on_interrupt addr) m.irq m run_on_interrupt (some addr) set
          placed
      ∙ ap (λ b. if b then some (record m { state = on_interrupt m.state }) else none)
          (==_refl addr)

  raise_unset :
      nvic.is_enabled m.irq.controller ≡ true
      → m.irq.func ≡ none
      → raise nvic on_interrupt addr m ≡ none
  unfolding raise
  raise_unset on unset =
      interrupted-trampoline nvic (called on_interrupt addr) m.irq m on
      ∙ trampoline-none nvic (called on_interrupt addr) m.irq m unset

module _ {S N R : Type 0} (nvic : Nvic N) (laws : MaskLaws nvic) where
  open laws use {masked, unmasked}

  -- While `with` runs its closure, the interrupt changes nothing. After it the interrupt is enabled:
  -- if it was registered and the closure keeps its handler and context, then it runs on the state
  -- that the closure left; if it never was, then there is no handler to call.
  pub with_excludes :
      (on_interrupt : S → S) (addr : ℕ) (state : S) (irq : Line N) (f : S → Line N → R × S × Line N)
      → ((s : S) (l : Line N) → (f s l).2.func ≡ l.func)
      → ((s : S) (l : Line N) → (f s l).2.ctx ≡ l.ctx)
      → irq.func ≡ none
      → let fresh = new_mutex state irq in
        let ready = register_interrupt nvic addr fresh in
        let after = (with_state nvic f ready).1 in
        (raise nvic on_interrupt addr (record ready { irq = disable nvic ready.irq })
          ≡ some (record ready { irq = disable nvic ready.irq }))
        × (raise nvic on_interrupt addr after
            ≡ some (record after { state = on_interrupt (f state (disable nvic ready.irq)).1 }))
        × (raise nvic on_interrupt addr (with_state nvic f fresh).1 ≡ none)
  unfolding new_mutex register_interrupt with_state disable enable set_handler set_handler_context
  with_excludes on_interrupt addr state irq f keeps stays unset =
      let fresh = new_mutex state irq in
      let ready = register_interrupt nvic addr fresh in
      let held = record ready { irq = disable nvic ready.irq } in
      (
        raise_masked nvic on_interrupt addr held (masked ready.irq.controller),
        raise_handled nvic on_interrupt addr (with_state nvic f ready).1 (unmasked _)
            (keeps state (disable nvic ready.irq)) (stays state (disable nvic ready.irq)),
        raise_unset nvic on_interrupt addr (with_state nvic f fresh).1 (unmasked _)
            (keeps state (disable nvic irq) ∙ unset),
      )
