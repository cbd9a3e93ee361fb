-- ===== src/Stm32/Serial/Idle.antt =====
-- A read until the line is idle ends with either interrupt, and counts what has come.
use embassy.Base.{
  ℕ, ◌-◌, ◌^◌, ◌≤◌, ◌<◌, ◌≡◌, refl, ap, ◌∙◌, true, false, none, some, arith, if◌then◌else◌,
}
use mathlib.Core.Option
use embassy.Time.{Profile, dev, release, sub_u32}
use embassy.Poll.{Poll, pending, ready}
use embassy.Executor.{System}
use embassy.Interrupt.{
  Nvic, MaskLaws, Line, set_handler, set_handler_context, enable, disable, unpend, is_enabled,
}
use embassy.Util.InterruptFuture.{
  irq_wake_handler, fire, new_future, future_poll, drop_future, interrupt_wakes,
}
use embassy.Util.Woken.{IsMarked}
use embassy.Stm32.Serial.{
  Dma, Serial, idle_created, idle_waits, idle_done, idle_end, port_answer, stream_answer, idle_wait,
  idle_poll,
}

-- What the code relies on: a transfer that is set up has its whole buffer left, where its length fits
-- in the 16 bits of the count, and freeing it does not change what is left.
pub record CountLaws {D : Type 0} (dma : Dma D) : Type 0 where
  pub set_up : (len : ℕ) (d : D) → len < 2 ^ 16 → dma.remaining (dma.init len d) ≡ len
  pub freed : (d : D) → dma.remaining (dma.free d) ≡ dma.remaining d

difference : (p : Profile) (a b : ℕ) → b ≤ a → a < 2 ^ 32 → sub_u32 p a b ≡ some (a - b)
difference dev a b le fits = ground arith
difference release a b le fits = ground arith

module _ {N D : Type 0} (nvic : Nvic N) (dma : Dma D) (laws : MaskLaws nvic)
    (counts : CountLaws dma) where
  waiting : (t : ℕ) (l : Line N) → (future_poll nvic t (new_future nvic l)).0 ≡ pending
  unfolding future_poll new_future enable set_handler set_handler_context disable unpend is_enabled
  waiting t l = ap (λ b. if b then pending else ready tt) (laws.unmasked _)

  still_waiting :
      (t v : ℕ) (l : Line N)
      → (future_poll nvic v (future_poll nvic t (new_future nvic l)).1).0 ≡ pending
  unfolding future_poll new_future enable set_handler set_handler_context disable unpend is_enabled
  still_waiting t v l = ap (λ b. if b then pending else ready tt) (laws.unmasked _)

  module _ (p : Profile) (t st u total : ℕ) (s : Serial N D) where
    abbrev rx_polled : Poll (Unit {0}) × Line N
    rx_polled = future_poll nvic t s.rx_int

    abbrev port_polled : Poll (Unit {0}) × Line N
    port_polled = future_poll nvic t s.usart_int

    -- The port when both futures, or just that of the stream, were polled.
    abbrev both_polled : Serial N D
    both_polled = record s { rx_int = rx_polled.1; usart_int = port_polled.1 }

    abbrev stream_polled : Serial N D
    stream_polled = record s { rx_int = rx_polled.1 }

    idle_wait-stream :
        rx_polled.0 ≡ ready tt
        → idle_wait nvic dma p t st u total s ≡ idle_end nvic dma p st u total stream_polled
    unfolding stream_answer
    idle_wait-stream e = ap (λ a. stream_answer nvic dma p t st u total a rx_polled.1 s) e

    idle_wait-port :
        rx_polled.0 ≡ pending
        → idle_wait nvic dma p t st u total s
          ≡ port_answer nvic dma p st u total port_polled.0 port_polled.1 stream_polled
    unfolding stream_answer
    idle_wait-port e = ap (λ a. stream_answer nvic dma p t st u total a rx_polled.1 s) e

    idle_wait-pending :
        rx_polled.0 ≡ pending
        → port_polled.0 ≡ pending
        → idle_wait nvic dma p t st u total s ≡ some (pending, idle_waits st u total, both_polled)
    unfolding port_answer
    idle_wait-pending e e' =
        idle_wait-port e
        ∙ ap (λ a. port_answer nvic dma p st u total a port_polled.1 stream_polled) e'

    idle_wait-idle :
        rx_polled.0 ≡ pending
        → port_polled.0 ≡ ready tt
        → idle_wait nvic dma p t st u total s ≡ idle_end nvic dma p st u total both_polled
    unfolding port_answer
    idle_wait-idle e e' =
        idle_wait-port e
        ∙ ap (λ a. port_answer nvic dma p st u total a port_polled.1 stream_polled) e'

  -- The port when such a read has taken what it needs, and when it was polled for the first time.
  abbrev begun : ℕ → Serial N D → Serial N D
  begun len s = record s {
    rx_stream = none;
    usart = none;
    idleie = true;
    idle = false;
    sr_read = false;
    rx_dma = dma.start (dma.init len s.rx_dma);
    rx_int = new_future nvic s.rx_int;
    usart_int = new_future nvic s.usart_int;
  }

  abbrev reading : ℕ → ℕ → Serial N D → Serial N D
  reading t len s = record (begun len s) {
    rx_int = (future_poll nvic t (new_future nvic s.rx_int)).1;
    usart_int = (future_poll nvic t (new_future nvic s.usart_int)).1;
  }

  idle_poll-reading :
      (p : Profile) (t st u len : ℕ) (s : Serial N D)
      → s.rx_stream ≡ some st
      → s.usart ≡ some u
      → len < 2 ^ 16
      → idle_poll nvic dma p t (idle_created len) s
        ≡ some (pending, idle_waits st u len, reading t len s)
  unfolding idle_poll
  idle_poll-reading p t st u len s has_stream has_usart fits =
      let total = dma.remaining (dma.init len s.rx_dma) in
      rw (has_stream, has_usart)
        (idle_wait-pending p t st u total (begun len s) (waiting t s.rx_int) (waiting t s.usart_int)
          ∙ ap (λ n. some (pending, idle_waits st u n, reading t len s))
              (counts.set_up len s.rx_dma fits))

  -- The port when such a read is done.
  abbrev finished : ℕ → ℕ → Serial N D → Serial N D
  finished st u s = record s {
    rx_int = drop_future nvic s.rx_int;
    usart_int = drop_future nvic s.usart_int;
    rx_dma = dma.free s.rx_dma;
    idleie = false;
    rx_stream = some st;
    usart = some u;
  }

  idle_end-finished :
      (p : Profile) (st u len left : ℕ) (s : Serial N D)
      → dma.remaining s.rx_dma ≡ left
      → left ≤ len
      → len < 2 ^ 16
      → idle_end nvic dma p st u len s ≡ some (ready (len - left), idle_done, finished st u s)
  unfolding idle_end
  idle_end-finished p st u len left s is le fits =
      let count : sub_u32 p len (dma.remaining (dma.free s.rx_dma)) ≡ some (len - left) =
        ap (sub_u32 p len) (counts.freed s.rx_dma ∙ is) ∙ difference p len left le (omega arith) in
      ap (Option.map (λ c. (ready c, idle_done, finished st u s))) count

-- A poll by the task v ends the read with a count; the port has its parts again.
abbrev pub Ends :
    {N D : Type 0} → Nvic N → Dma D → Profile → ℕ → ℕ → ℕ → ℕ → ℕ → Serial N D → Type 0
Ends {N} {D} nvic dma p v st u len count s =
    (s2 : Serial N D) × (idle_poll nvic dma p v (idle_waits st u len) s
      ≡ some (ready count, idle_done, s2))
    × (s2.rx_stream ≡ some st)
    × (s2.usart ≡ some u)
    × (s2.idleie ≡ false)

-- A read until the line is idle of less than 2^16 bytes, on a port that has its stream and its
-- registers and by a spawned task, is pending at first, has enabled the interrupt for an idle line,
-- and has cleared the flag of one. When the stream's interrupt or the port's then comes, with some of
-- the buffer left, it is not masked, the handler that it has marks the task to run, and the next poll ends the read: it answers with the length without what is left, the port has
-- the same stream and registers again, and the interrupt for an idle line is disabled.
pub read_until_idle_counts :
    {N D : Type 0} (nvic : Nvic N) (dma : Dma D) (p : Profile) (t v st u len left : ℕ)
    (s : Serial N D) (w : System) (d : D)
    → MaskLaws nvic
    → CountLaws dma
    → s.rx_stream ≡ some st
    → s.usart ≡ some u
    → (w.headers t).spawned ≡ true
    → dma.remaining d ≡ left
    → left ≤ len
    → len < 2 ^ 16
    → (s1 : Serial N D) × (idle_poll nvic dma p t (idle_created len) s
        ≡ some (pending, idle_waits st u len, s1))
      × (s1.idleie ≡ true)
      × (s1.idle ≡ false)
      × ((full : Line N × System) × (fire nvic s1.rx_int w ≡ some full)
          × IsMarked t full.1
          × Ends nvic dma p v st u len (len - left) (record s1 { rx_int = full.0; rx_dma = d }))
      × ((idle : Line N × System) × (fire nvic s1.usart_int w ≡ some idle)
          × IsMarked t idle.1
          × Ends nvic dma p v st u len (len - left) (record s1 { usart_int = idle.0; rx_dma = d }))
unfolding idle_poll
read_until_idle_counts nvic dma p t v st u len left s w d laws counts has_stream has_usart live is
      le fits =
    let s1 = reading nvic dma laws counts t len s in
    let (first, full_fires, full_marks, full_ready, early, quiet, quick) =
      interrupt_wakes nvic laws t v s.rx_int w live in
    let (first2, idle_fires, idle_marks, idle_ready, early2, quiet2, quick2) =
      interrupt_wakes nvic laws t v s.usart_int w live in
    let full = irq_wake_handler nvic s1.rx_int.ctx s1.rx_int w in
    let idle = irq_wake_handler nvic s1.usart_int.ctx s1.usart_int w in
    let on_full = record s1 { rx_int = full.0; rx_dma = d } in
    let on_idle = record s1 { usart_int = idle.0; rx_dma = d } in
    let ends = idle_end-finished nvic dma laws counts p st u len left in
    let after_full = stream_polled nvic dma laws counts p v st u len on_full in
    let after_idle = both_polled nvic dma laws counts p v st u len on_idle in
    (
      s1,
      idle_poll-reading nvic dma laws counts p t st u len s has_stream has_usart fits,
      refl,
      refl,
      (
        full,
        full_fires,
        full_marks,
        (
          finished nvic dma laws counts st u after_full,
          idle_wait-stream nvic dma laws counts p v st u len on_full full_ready
              ∙ ends after_full is le fits,
          refl,
          refl,
          refl,
        ),
      ),
      (
        idle,
        idle_fires,
        idle_marks,
        (
          finished nvic dma laws counts st u after_idle,
          idle_wait-idle nvic dma laws counts p v st u len on_idle
                (still_waiting nvic dma laws counts t v s.rx_int) idle_ready
              ∙ ends after_idle is le fits,
          refl,
          refl,
          refl,
        ),
      ),
    )
