-- ===== src/Nrf/BufferedUarte/Steps.antt =====
-- Writers, interrupts and the transfer in any order: no byte is lost or sent twice.
use embassy.Base.{
  ℕ, ◌+◌, ◌^◌, ◌≤◌, ◌<◌, ◌≡◌, refl, sym, ◌∙◌, subst, true, false, some, List, [], ◌++◌, length,
  take, drop,
}
use embassy.Base.Options.{some-injective}
use embassy.Io.{Poll, accepted}
use embassy.Executor.{System}
use embassy.Extras.RingBuffer
use embassy.Extras.RingBuffer.{RingBuffer}
use embassy.Extras.RingBuffer.Bounds.{new-IsValid}
use embassy.Extras.RingBuffer.Loans.{contents-new, length-new}
use embassy.Extras.RingBuffer.Queue.{contents}
use embassy.Nrf.BufferedUarte.{Uarte, new_uarte, poll_write, tx_loop, on_interrupt}
use embassy.Nrf.BufferedUarte.Sending.{Sender, sender, progress, IsStream, tx_loop-IsStream}
use embassy.Nrf.BufferedUarte.Interrupts.{on_interrupt-IsStream}
use embassy.Nrf.BufferedUarte.Writing.{poll_write-IsStream, send-IsStream, done-IsStream}

-- The port, the executor, the bytes on the line, and those that writers were told are accepted.
pub record World : Type 0 where
  pub uarte : Uarte
  pub system : System
  pub line : List ℕ
  pub all : List ℕ

-- What may happen: a task writes, the interrupt handler runs, whether or not it was pended, the
-- transfer that runs sends some bytes of the storage or is done, and the receiver's part changes.
pub data Step (width : ℕ) (x x' : World) : Type 0 where
  write :
      (t : ℕ) (buf : List ℕ) (p : Poll ℕ)
      → poll_write t x.uarte x.system buf ≡ some (p, x'.uarte, x'.system)
      → x'.line ≡ x.line
      → x'.all ≡ x.all ++ accepted p buf
      → Step width x x'
  interrupt :
      on_interrupt width x.uarte x.system ≡ some (x'.uarte, x'.system)
      → x'.line ≡ x.line
      → x'.all ≡ x.all
      → Step width x x'
  send :
      (k : ℕ)
      → x.uarte.txd.running ≡ true
      → x.uarte.txd.amount + k ≤ x.uarte.txd.maxcnt
      → sender x'.uarte
        ≡ (x.uarte.tx, x.uarte.tx_state, record x.uarte.txd { amount = x.uarte.txd.amount + k })
      → x'.line ≡ x.line ++ take k (drop (x.uarte.txd.ptr + x.uarte.txd.amount) x.uarte.tx.buf)
      → x'.all ≡ x.all
      → Step width x x'
  done :
      x.uarte.txd.running ≡ true
      → x.uarte.txd.amount ≡ x.uarte.txd.maxcnt
      → sender x'.uarte
        ≡ (x.uarte.tx, x.uarte.tx_state, record x.uarte.txd { running = false; ended = true })
      → x'.line ≡ x.line
      → x'.all ≡ x.all
      → Step width x x'
  receiver : sender x'.uarte ≡ sender x.uarte → x'.line ≡ x.line → x'.all ≡ x.all → Step width x x'

abbrev StreamsIn : ℕ → World → Type 0
StreamsIn width x = IsStream width (sender x.uarte) x.line x.all

-- A state that is described by equations.
IsStream-world :
    (width : ℕ) (x' : World) {q : Sender} {line all : List ℕ}
    → sender x'.uarte ≡ q
    → x'.line ≡ line
    → x'.all ≡ all
    → IsStream width q line all
    → StreamsIn width x'
IsStream-world width x' {q} {line} {all} eq el ea k =
    subst (λ q. IsStream width q x'.line x'.all) (sym eq)
      (subst (λ l. IsStream width q l x'.all) (sym el)
        (subst (λ a. IsStream width q line a) (sym ea) k))

Step-IsStream :
    (width : ℕ) {x x' : World} → Step width x x' → StreamsIn width x → StreamsIn width x'
Step-IsStream width {x} {x'} (write t buf p ran el ea) k =
    let o = poll_write-IsStream width x.line x.all t x.uarte x.system buf k in
    let eq = some-injective (sym o.1 ∙ ran) in
    IsStream-world width x' refl el ea
      (subst (λ y. IsStream width (sender y.1) x.line (x.all ++ accepted y.0 buf)) eq o.2)
Step-IsStream width {x} {x'} (interrupt ran el ea) k =
    IsStream-world width x' refl el ea
      (on_interrupt-IsStream width x.line x.all x.uarte x'.uarte x.system x'.system ran k)
Step-IsStream width {x} {x'} (send n runs upto eq el ea) k =
    let d = x.uarte.txd in
    IsStream-world width x' eq el ea
      (send-IsStream width x.line x.all x.uarte.tx x.uarte.tx_state d n k runs upto)
Step-IsStream width {x} {x'} (done runs all_sent eq el ea) k =
    IsStream-world width x' eq el ea
      (done-IsStream width x.line x.all x.uarte.tx x.uarte.tx_state x.uarte.txd k runs all_sent)
Step-IsStream width {x} {x'} (receiver eq el ea) k = IsStream-world width x' eq el ea k

-- What is reached from a new port.
pub data Reach (width : ℕ) (rx_buffer tx_buffer : List ℕ) : World → Type 0 where
  begin :
      (s : System)
      → Reach width rx_buffer tx_buffer
          (record { uarte = new_uarte rx_buffer tx_buffer; system = s; line = []; all = [] })
  next :
      {x x' : World}
      → Reach width rx_buffer tx_buffer x
      → Step width x x'
      → Reach width rx_buffer tx_buffer x'

new_uarte-IsStream :
    (width : ℕ) (rx_buffer tx_buffer : List ℕ)
    → length tx_buffer < 2 ^ width
    → length tx_buffer < 2 ^ 31
    → IsStream width (sender (new_uarte rx_buffer tx_buffer)) [] []
unfolding new_uarte
new_uarte-IsStream width rx_buffer tx_buffer fits small = record {
  valid = new-IsValid tx_buffer small;
  fits = fits_new;
  flies = (refl, refl);
  streams = contents-new tx_buffer;
}
  where
    fits_new : length (RingBuffer.new tx_buffer).buf < 2 ^ width
    fits_new = subst (λ n. n < 2 ^ width) (sym (length-new tx_buffer)) fits

Reach-IsStream :
    (width : ℕ) (rx_buffer tx_buffer : List ℕ) {x : World}
    → length tx_buffer < 2 ^ width
    → length tx_buffer < 2 ^ 31
    → Reach width rx_buffer tx_buffer x
    → StreamsIn width x
Reach-IsStream width rx_buffer tx_buffer fits small (begin s) =
    new_uarte-IsStream width rx_buffer tx_buffer fits small
Reach-IsStream width rx_buffer tx_buffer fits small (next before step) =
    Step-IsStream width step (Reach-IsStream width rx_buffer tx_buffer fits small before)

-- If the storage for sending is shorter than MAXCNT can say, then whatever writes, interrupts and
-- transfers have come since the port was made, the bytes on the line, followed by those of the ring
-- that the present transfer has not sent, are those that the writers were told are accepted; and the
-- sending part of the interrupt handler ends without a panic.
pub line_carries_all :
    (width : ℕ) (rx_buffer tx_buffer : List ℕ) (x : World)
    → length tx_buffer < 2 ^ width
    → length tx_buffer < 2 ^ 31
    → Reach width rx_buffer tx_buffer x
    → (x.line ++ drop (progress x.uarte.tx_state x.uarte.txd) (contents x.uarte.tx) ≡ x.all)
      × ((o : Uarte × System) × (tx_loop width x.uarte x.system ≡ some o))
line_carries_all width rx_buffer tx_buffer x fits small reach =
    let k = Reach-IsStream width rx_buffer tx_buffer fits small reach in
    let o = tx_loop-IsStream width x.line x.all x.uarte x.system k in (k.streams, (o.0, o.1))
