-- ===== src/Stm32/Exti/Waits.antt =====
-- A task that waits for a level or an edge is woken by the interrupt of the pin's line.
use embassy.Base.{ℕ, ◌≡◌, refl, ap, ◌∙◌, Bool, true, none, some, if◌then◌else◌}
use embassy.Poll.{pending, ready}
use embassy.Executor.{System}
use embassy.Interrupt.{Nvic, MaskLaws, Line, remove_handler}
use embassy.Util.InterruptFuture.{
  irq_wake_handler, fire, new_future, future_poll, drop_future, interrupt_wakes,
}
use embassy.Util.Woken.{IsMarked}
use embassy.Stm32.Exti.{
  EdgeOption, rising, falling, Instance, ExtiPin, Wait, for_edge, waits, done, wait_for_edge,
  listen, wait_answer, await, wait_poll,
}

-- The future f, in the state s, is pending at a poll by the task t. When the interrupt then comes,
-- the handler that it has marks the task, and a poll by the task v ends the wait, with the pending bit cleared.
abbrev pub Wakes :
    {N P : Type 0} → Nvic N → Instance P → ℕ → ℕ → Wait → ExtiPin N P → P → System → Type 0
Wakes {N} {P} nvic port t v f s pin w =
    (s1 : ExtiPin N P) × (wait_poll nvic port t f s ≡ some (pending, waits, s1))
    × (s1.pin ≡ pin)
    × ((fired : Line N × System) × (fire nvic s1.interrupt w ≡ some fired)
        × IsMarked t fired.1
        × ((s2 : ExtiPin N P) × (wait_poll nvic port v waits (record s1 { interrupt = fired.0 })
              ≡ some (ready tt, done, s2))
            × (s2.pin ≡ port.clear_pending_bit pin)
            × (s2.interrupt.func ≡ none)))

module _ {N P : Type 0} (nvic : Nvic N) (port : Instance P) (laws : MaskLaws nvic) where
  -- The port when a future was polled that has to wait.
  abbrev waiting : ℕ → EdgeOption → ExtiPin N P → ExtiPin N P
  waiting t edge s = record (listen nvic port edge s) {
    interrupt = (future_poll nvic t (new_future nvic s.interrupt)).1;
  }

  await-Wakes :
      (t v : ℕ) (edge : EdgeOption) (f : Wait) (s : ExtiPin N P) (w : System)
      → (w.headers t).spawned ≡ true
      → wait_poll nvic port t f s ≡ some (await nvic port t (listen nvic port edge s))
      → Wakes nvic port t v f s (port.trigger_edge edge s.pin) w
  unfolding wait_poll wait_answer drop_future remove_handler
  await-Wakes t v edge f s w live is =
      let (first, fires, marks, later, early, quiet, quick) =
        interrupt_wakes nvic laws t v s.interrupt w live in
      let s1 = waiting t edge s in
      let fired = irq_wake_handler nvic s1.interrupt.ctx s1.interrupt w in
      let line = (future_poll nvic t (new_future nvic s.interrupt)).1 in
      let line2 = (future_poll nvic v fired.0).1 in
      let again = record s1 { interrupt = fired.0 } in
      (
        s1,
        is ∙ ap (λ a. some (wait_answer nvic port a line (listen nvic port edge s))) first,
        refl,
        (
          fired,
          fires,
          marks,
          (
            record again {
              interrupt = drop_future nvic line2;
              pin = port.clear_pending_bit again.pin;
            },
            ap (λ a. some (wait_answer nvic port a line2 again)) later,
            refl,
            refl,
          ),
        ),
      )

-- The edge to a level.
abbrev pub edge_to : Bool → EdgeOption
edge_to state = if state then rising else falling

-- A wait for an edge clears the pending bit, and waits for the interrupt.
pub wait_for_edge-Wakes :
    {N P : Type 0} (nvic : Nvic N) (port : Instance P) (t v : ℕ) (edge : EdgeOption)
    (s : ExtiPin N P) (w : System)
    → MaskLaws nvic
    → (w.headers t).spawned ≡ true
    → let (f, s0) = wait_for_edge nvic port edge s in
      Wakes nvic port t v f s0 (port.trigger_edge edge (port.clear_pending_bit s.pin)) w
unfolding wait_for_edge wait_poll
wait_for_edge-Wakes nvic port t v edge s w laws live =
    await-Wakes nvic port laws t v edge (for_edge edge)
      (record s { pin = port.clear_pending_bit s.pin }) w live refl
