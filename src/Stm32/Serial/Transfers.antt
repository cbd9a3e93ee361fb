-- ===== src/Stm32/Serial/Transfers.antt =====
-- A transfer ends with its interrupt and gives back what it took; one that is dropped does not.
use embassy.Base.{ℕ, ◌≡◌, refl, ap, true, none, some, if◌then◌else◌}
use embassy.Base.Options.{>>=-none}
use embassy.Time.{Profile}
use embassy.Poll.{pending, ready}
use embassy.Executor.{System}
use embassy.Interrupt.{
  Nvic, MaskLaws, Line, set_handler, remove_handler, set_handler_context, enable, disable, unpend,
  is_enabled,
}
use embassy.Util.InterruptFuture.{
  irq_wake_handler, fire, new_future, future_poll, drop_future, interrupt_wakes,
}
use embassy.Util.Woken.{IsMarked}
use embassy.Stm32.Serial.{
  Dma, Serial, created, waits, done, idle_created, write_answer, write_wait, write_poll, write_drop,
  read_poll, idle_poll,
}

module _ {N D : Type 0} (nvic : Nvic N) (dma : Dma D) where
  -- A new future is pending.
  first_pending :
      MaskLaws nvic → (t : ℕ) (l : Line N) → (future_poll nvic t (new_future nvic l)).0 ≡ pending
  unfolding future_poll new_future enable set_handler set_handler_context disable unpend is_enabled
  first_pending laws t l = ap (λ b. if b then pending else ready tt) (laws.unmasked _)

  write_wait-pending :
      (t st u : ℕ) (s : Serial N D)
      → (future_poll nvic t s.tx_int).0 ≡ pending
      → write_wait nvic dma t st u s
        ≡ (pending, waits st u, record s { tx_int = (future_poll nvic t s.tx_int).1 })
  unfolding write_answer
  write_wait-pending t st u s e =
      ap (λ a. write_answer nvic dma st u a (future_poll nvic t s.tx_int).1 s) e

  write_wait-ready :
      (t st u : ℕ) (s : Serial N D)
      → (future_poll nvic t s.tx_int).0 ≡ ready tt
      → write_wait nvic dma t st u s ≡ (
        ready tt,
        done,
        record s {
          tx_int = drop_future nvic (future_poll nvic t s.tx_int).1;
          tx_dma = dma.free s.tx_dma;
          tx_stream = some st;
          usart = some u;
        },
      )
  unfolding write_answer
  write_wait-ready t st u s e =
      ap (λ a. write_answer nvic dma st u a (future_poll nvic t s.tx_int).1 s) e

  -- The port when a write was polled for the first time.
  abbrev writing : ℕ → ℕ → Serial N D → Serial N D
  writing t len s = record s {
    tx_stream = none;
    usart = none;
    tx_dma = dma.start (dma.init len s.tx_dma);
    tx_int = (future_poll nvic t (new_future nvic s.tx_int)).1;
  }

  write_poll-writing :
      (t st u len : ℕ) (s : Serial N D)
      → MaskLaws nvic
      → s.tx_stream ≡ some st
      → s.usart ≡ some u
      → write_poll nvic dma t (created len) s ≡ some (pending, waits st u, writing t len s)
  unfolding write_poll
  write_poll-writing t st u len s laws has_stream has_usart =
      rw (has_stream, has_usart)
        (ap some (write_wait-pending t st u _ (first_pending laws t s.tx_int)))

-- A write to a port that has its stream and its registers, by a spawned task, is pending at first.
-- When the stream's interrupt then comes, its handler marks the task to run, and the next poll ends
-- the write: the port has the same stream and registers again, and no handler.
write_completes :
    {N D : Type 0} (nvic : Nvic N) (dma : Dma D) (t v st u len : ℕ) (s : Serial N D) (w : System)
    → MaskLaws nvic
    → s.tx_stream ≡ some st
    → s.usart ≡ some u
    → (w.headers t).spawned ≡ true
    → (s1 : Serial N D) × (write_poll nvic dma t (created len) s ≡ some (pending, waits st u, s1))
      × ((fired : Line N × System) × (fire nvic s1.tx_int w ≡ some fired)
          × IsMarked t fired.1
          × ((s2 : Serial N D) × (write_poll nvic dma v
                  (waits st u)
                  (record s1 { tx_int = fired.0 })
                ≡ some (ready tt, done, s2))
              × (s2.tx_stream ≡ some st)
              × (s2.usart ≡ some u)
              × (s2.tx_int.func ≡ none)))
unfolding write_poll drop_future remove_handler
write_completes nvic dma t v st u len s w laws has_stream has_usart live =
    let (first, fires, marks, later, early, quiet, quick) =
      interrupt_wakes nvic laws t v s.tx_int w live in
    let s1 = writing nvic dma t len s in
    let fired = irq_wake_handler nvic s1.tx_int.ctx s1.tx_int w in
    (
      s1,
      write_poll-writing nvic dma t st u len s laws has_stream has_usart,
      (
        fired,
        fires,
        marks,
        (
          _,
          ap some (write_wait-ready nvic dma v st u (record s1 { tx_int = fired.0 }) later),
          refl,
          refl,
          refl,
        ),
      ),
    )

-- If a write to a port that has its stream and its registers is dropped while it is pending, then the
-- port has lost them: every later write, read or read until the line is idle panics at its first poll.
pub abandoned_write :
    {N D : Type 0} (nvic : Nvic N) (dma : Dma D) (p : Profile) (t v st u len m : ℕ) (s : Serial N D)
    → MaskLaws nvic
    → s.tx_stream ≡ some st
    → s.usart ≡ some u
    → (s1 : Serial N D) × (write_poll nvic dma t (created len) s ≡ some (pending, waits st u, s1))
      × (let dropped = write_drop nvic dma (waits st u) s1 in
          (write_poll nvic dma v (created m) dropped ≡ none)
          × (read_poll nvic dma v (created m) dropped ≡ none)
          × (idle_poll nvic dma p v (idle_created m) dropped ≡ none))
unfolding write_poll read_poll idle_poll write_drop
abandoned_write nvic dma p t v st u len m s laws has_stream has_usart = (
  writing nvic dma t len s,
  write_poll-writing nvic dma t st u len s laws has_stream has_usart,
  (refl, >>=-none s.rx_stream _ (λ a. refl), >>=-none s.rx_stream _ (λ a. refl)),
)
