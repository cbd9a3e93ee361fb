-- ===== src/Nrf/BufferedUarte/Feeds.antt =====
-- Readers, interrupts and the incoming transfer in any order: no byte is lost or read twice.
use embassy.Base.{
  ℕ, ◌+◌, ◌^◌, ◌≤◌, ◌<◌, ◌≡◌, refl, sym, ◌∙◌, subst, true, false, some, List, [], ◌++◌, append-nil,
  length, take, overwrite,
}
use embassy.Executor.{System}
use embassy.Extras.RingBuffer
use embassy.Extras.RingBuffer.{RingBuffer, pop_buf}
use embassy.Extras.RingBuffer.Bounds.{new-IsValid}
use embassy.Extras.RingBuffer.Queue.{contents}
use embassy.Extras.RingBuffer.Loans.{contents-new}
use embassy.Nrf.BufferedUarte.{Uarte, new_uarte, consume_rx, rx_loop, on_interrupt}
use embassy.Nrf.BufferedUarte.Receiving.{
  Receiver, receiver, arrived, IsFed, rx_loop-IsFed, land-IsFed, end-IsFed,
}
use embassy.Nrf.BufferedUarte.Consuming.{consume-IsFed}
use embassy.Nrf.BufferedUarte.Interrupts.{on_interrupt-IsFed}

-- The port, the executor, the bytes that readers consumed, and those that came in.
pub record Inbox : Type 0 where
  pub port : Uarte
  pub executor : System
  pub taken : List ℕ
  pub came : List ℕ

-- What may happen: a reader consumes bytes that it was shown, the interrupt handler runs, bytes come
-- in while the transfer runs, it ends, full or not, and the sender's part or the readers' waker
-- changes.
pub data Move (width : ℕ) (x x' : Inbox) : Type 0 where
  consume :
      (n : ℕ)
      → n ≤ (pop_buf x.port.rx).len
      → consume_rx x.port n ≡ some x'.port
      → x'.taken ≡ x.taken ++ take n (contents x.port.rx)
      → x'.came ≡ x.came
      → Move width x x'
  handle :
      on_interrupt width x.port x.executor ≡ some (x'.port, x'.executor)
      → x'.taken ≡ x.taken
      → x'.came ≡ x.came
      → Move width x x'
  come :
      (bs : List ℕ)
      → x.port.rxd.running ≡ true
      → x.port.rxd.amount + length bs ≤ x.port.rxd.maxcnt
      → receiver x'.port ≡ (
        record x.port.rx { buf = overwrite x.port.rx.buf (x.port.rxd.ptr + x.port.rxd.amount) bs },
        x.port.rx_state,
        record x.port.rxd { amount = x.port.rxd.amount + length bs },
      )
      → x'.taken ≡ x.taken
      → x'.came ≡ x.came ++ bs
      → Move width x x'
  finish :
      x.port.rxd.running ≡ true
      → receiver x'.port
        ≡ (x.port.rx, x.port.rx_state, record x.port.rxd { running = false; ended = true })
      → x'.taken ≡ x.taken
      → x'.came ≡ x.came
      → Move width x x'
  elsewhere :
      receiver x'.port ≡ receiver x.port → x'.taken ≡ x.taken → x'.came ≡ x.came → Move width x x'

abbrev FedIn : Inbox → Type 0
FedIn x = IsFed (receiver x.port) x.taken x.came

IsFed-inbox :
    (x' : Inbox) {q : Receiver} {taken all : List ℕ}
    → receiver x'.port ≡ q
    → x'.taken ≡ taken
    → x'.came ≡ all
    → IsFed q taken all
    → FedIn x'
IsFed-inbox x' {q} {taken} {all} eq et ea k =
    subst (λ q'. IsFed q' x'.taken x'.came) (sym eq)
      (subst (λ t. IsFed q t x'.came) (sym et) (subst (λ a. IsFed q taken a) (sym ea) k))

Move-IsFed : (width : ℕ) {x x' : Inbox} → Move width x x' → FedIn x → FedIn x'
Move-IsFed width {x} {x'} (consume n h ran et ea) k =
    IsFed-inbox x' refl et ea (consume-IsFed x.port x'.port n x.taken x.came h ran k)
Move-IsFed width {x} {x'} (handle ran et ea) k =
    IsFed-inbox x' refl et ea
      (on_interrupt-IsFed width x.taken x.came x.port x'.port x.executor x'.executor ran k)
Move-IsFed width {x} {x'} (come bs runs h eq et ea) k =
    IsFed-inbox x' eq et ea
      (land-IsFed x.port.rx x.port.rx_state x.port.rxd x.taken x.came bs k runs h)
Move-IsFed width {x} {x'} (finish runs eq et ea) k =
    IsFed-inbox x' eq et ea (end-IsFed x.port.rx x.port.rx_state x.port.rxd x.taken x.came k runs)
Move-IsFed width {x} {x'} (elsewhere eq et ea) k = IsFed-inbox x' eq et ea k

-- What is reached from a new port.
pub data Reaches (width : ℕ) (rx_buffer tx_buffer : List ℕ) : Inbox → Type 0 where
  begins :
      (s : System)
      → Reaches width rx_buffer tx_buffer
          (record { port = new_uarte rx_buffer tx_buffer; executor = s; taken = []; came = [] })
  then_moves :
      {x x' : Inbox}
      → Reaches width rx_buffer tx_buffer x
      → Move width x x'
      → Reaches width rx_buffer tx_buffer x'

new_uarte-IsFed :
    (rx_buffer tx_buffer : List ℕ)
    → length rx_buffer < 2 ^ 31
    → IsFed (receiver (new_uarte rx_buffer tx_buffer)) [] []
unfolding new_uarte
new_uarte-IsFed rx_buffer tx_buffer small = record {
  valid = new-IsValid rx_buffer small;
  lands = (refl, refl);
  streams = append-nil (contents (RingBuffer.new rx_buffer)) ∙ contents-new rx_buffer;
}

Reaches-IsFed :
    (width : ℕ) (rx_buffer tx_buffer : List ℕ) {x : Inbox}
    → length rx_buffer < 2 ^ 31
    → Reaches width rx_buffer tx_buffer x
    → FedIn x
Reaches-IsFed width rx_buffer tx_buffer small (begins s) = new_uarte-IsFed rx_buffer tx_buffer small
Reaches-IsFed width rx_buffer tx_buffer small (then_moves before move) =
    Move-IsFed width move (Reaches-IsFed width rx_buffer tx_buffer small before)

-- Whatever readers consume of what they are shown, and whatever interrupts and incoming bytes there
-- have been since the port was made, the bytes that were consumed, those in the ring, and those that
-- the present transfer has put behind them are all that came in, in order; and the receiving part of
-- the interrupt handler ends without a panic.
pub all_is_received :
    (width : ℕ) (rx_buffer tx_buffer : List ℕ) (x : Inbox)
    → length rx_buffer < 2 ^ 31
    → Reaches width rx_buffer tx_buffer x
    → (x.taken ++ (contents x.port.rx ++ arrived x.port.rx x.port.rx_state x.port.rxd) ≡ x.came)
      × ((o : Uarte × System) × (rx_loop width x.port x.executor ≡ some o))
all_is_received width rx_buffer tx_buffer x small reaches =
    let k = Reaches-IsFed width rx_buffer tx_buffer small reaches in
    let o = rx_loop-IsFed width x.taken x.came x.port x.executor k in (k.streams, (o.0, o.1))
