-- ===== src/Util/InterruptFuture.antt =====
-- embassy/src/util/signal.rs, `InterruptFuture` and `wake_on_interrupt`: a task that waits for an
-- interrupt, whose handler wakes it and masks the interrupt.
use embassy.Base.{
  ℕ, ◌≡◌, refl, ap, ◌∙◌, Bool, true, false, Option, none, some, arith, if◌then◌else◌,
}
use embassy.Poll.{Poll, pending, ready}
use embassy.Interrupt.{
  Nvic, MaskLaws, HandlerFunc, irq_wake, other_func, Line, set_handler, remove_handler,
  set_handler_context, enable, disable, unpend, is_enabled, interrupted, interrupted-trampoline,
  trampoline-some,
}
use embassy.Executor.{System}
use embassy.Executor.Raw.{enqueue}
use embassy.Executor.Invariant.Due.{enqueue_marks}

module _ {N : Type 0} (nvic : Nvic N) where
  unfoldable pub wake_on_interrupt : ℕ → Line N → Line N
  unfolding disable set_handler set_handler_context enable
  wake_on_interrupt t l =
      enable nvic (set_handler_context nvic (some t) (set_handler nvic irq_wake (disable nvic l)))

  -- The handler, with the context that it is called with, while the interrupt is active.
  unfoldable pub irq_wake_handler : Option ℕ → Line N → System → Line N × System
  unfolding enqueue disable
  irq_wake_handler ctx l s = (disable nvic l, elim ctx [ none ↦ s | some task ↦ enqueue s task ])

  -- What the handlers do: another function is none of this file's.
  unfoldable pub run_handler : HandlerFunc → Option ℕ → Line N × System → Option (Line N × System)
  unfolding irq_wake_handler
  run_handler irq_wake ctx (l, s) = some (irq_wake_handler ctx l s)
  run_handler (other_func k) ctx (l, s) = none

  -- The interrupt comes.
  unfoldable pub fire : Line N → System → Option (Line N × System)
  unfolding interrupted run_handler
  fire l s = interrupted nvic run_handler l (l, s)

  -- `InterruptFuture::new`.
  unfoldable pub new_future : Line N → Line N
  unfolding disable set_handler set_handler_context unpend enable
  new_future l =
      enable nvic
        (unpend nvic (set_handler_context nvic none (set_handler nvic irq_wake (disable nvic l))))

  -- `InterruptFuture::poll` by the task `t`.
  unfoldable pub future_poll : ℕ → Line N → Poll (Unit {0}) × Line N
  unfolding set_handler_context is_enabled
  future_poll t l =
      let l' = set_handler_context nvic (some t) l in
      (if is_enabled nvic l' then pending else ready tt, l')

  unfoldable pub drop_future : Line N → Line N
  unfolding disable remove_handler
  drop_future l = remove_handler nvic (disable nvic l)

  -- An interrupt that is enabled, and has `irq_wake` as its handler, runs it with its context.
  pub fire-irq_wake :
      (ctx : Option ℕ) (l : Line N) (s : System)
      → nvic.is_enabled l.controller ≡ true
      → l.func ≡ some irq_wake
      → l.ctx ≡ ctx
      → fire l s ≡ some (irq_wake_handler ctx l s)
  unfolding fire run_handler
  fire-irq_wake ctx l s on set has =
      interrupted-trampoline nvic run_handler l (l, s) on
      ∙ trampoline-some nvic run_handler l (l, s) irq_wake ctx set has

module _ {N : Type 0} (nvic : Nvic N) (laws : MaskLaws nvic) where
  open laws use {masked, unmasked}

  ready_after_handler :
      (u : ℕ) (ctx : Option ℕ) (l : Line N) (s : System)
      → (future_poll nvic u (irq_wake_handler nvic ctx l s).0).0 ≡ ready tt
  unfolding irq_wake_handler future_poll disable set_handler_context is_enabled
  ready_after_handler u ctx l s =
      let off : nvic.is_enabled (nvic.mask l.controller) ≡ false = masked l.controller in
      ground arith

  -- A new future is pending at its first poll, by a spawned task, unless the interrupt came before.
  -- If it comes after that poll, then it is not masked, its handler marks the task to run, and the
  -- next poll is ready; if it comes before, then it wakes nobody, and the first poll is ready.
  pub interrupt_wakes :
      (t u : ℕ) (l : Line N) (s : System)
      → (s.headers t).spawned ≡ true
      → let fresh = new_future nvic l in
        let first = future_poll nvic t fresh in
        let fired = irq_wake_handler nvic first.1.ctx first.1 s in
        let early = irq_wake_handler nvic fresh.ctx fresh s in
        (first.0 ≡ pending)
        × (fire nvic first.1 s ≡ some fired)
        × ((fired.1.headers t).run_queued ≡ true)
        × ((future_poll nvic u fired.0).0 ≡ ready tt)
        × (fire nvic fresh s ≡ some early)
        × (early.1 ≡ s)
        × ((future_poll nvic u early.0).0 ≡ ready tt)
  unfolding new_future irq_wake_handler future_poll disable set_handler set_handler_context unpend
      enable is_enabled
  interrupt_wakes t u l s live =
      let fresh = new_future nvic l in
      let first = (future_poll nvic t fresh).1 in
      let answer : Bool → Poll (Unit {0}) = λ b. if b then pending else ready tt in
      (
        ap answer (unmasked _),
        fire-irq_wake nvic (some t) first s (unmasked _) refl refl,
        enqueue_marks s t live,
        ready_after_handler u first.ctx first s,
        fire-irq_wake nvic none fresh s (unmasked _) refl refl,
        refl,
        ready_after_handler u fresh.ctx fresh s,
      )
