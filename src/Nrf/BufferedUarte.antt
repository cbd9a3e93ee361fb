-- ===== src/Nrf/BufferedUarte.antt =====
-- embassy-nrf/src/buffered_uarte.rs: a serial port that reads into one byte ring and writes from
-- another by DMA. The state holds the registers that the driver uses; a pointer is the offset in a
-- ring's storage. The closures of the methods run in `with`. `none` is a panic.
pub mod Sending
pub mod Writing
pub mod Receiving
pub mod Consuming
pub mod Interrupts
pub mod Steps
pub mod Feeds
pub mod Lost
mod Tests
use embassy.Base.{
  ℕ, zero, suc, ◌%◌, ◌^◌, min, Bool, true, false, not, Option, none, some, List, ◌==◌,
  if◌then◌else◌, length, take,
}
use embassy.Io.{ok, Poll, pending, ready}
use embassy.Executor.{System}
use embassy.Util.Waker.{WakerRegistration, new_registration, register_waker, wake_waker}
use embassy.Extras.RingBuffer
use embassy.Extras.RingBuffer.{RingBuffer, push_buf, pop_buf, fill, bytes_of}

pub data RxState : Type 0 where
  rx_idle receiving : RxState

pub data TxState : Type 0 where
  tx_idle : TxState
  transmitting : ℕ → TxState

-- `amount` counts what the transfer that runs has moved so far.
pub record Dma : Type 0 where
  pub ptr : ℕ
  pub maxcnt : ℕ
  pub amount : ℕ
  pub running : Bool
  pub ended : Bool

abbrev pub idle_dma : Dma
idle_dma = record { ptr = 0; maxcnt = 0; amount = 0; running = false; ended = false }

pub record Uarte : Type 0 where
  pub rx : RingBuffer
  pub rx_state : RxState
  pub rx_waker : WakerRegistration
  pub tx : RingBuffer
  pub tx_state : TxState
  pub tx_waker : WakerRegistration
  pub rxd : Dma
  pub txd : Dma
  pub timer_runs : Bool
  pub irq_pending : Bool

-- The state that `new` makes; the interrupt is pended.
unfoldable pub new_uarte : List ℕ → List ℕ → Uarte
unfolding new_registration
new_uarte rx_buffer tx_buffer = record {
  rx = RingBuffer.new rx_buffer;
  rx_state = rx_idle;
  rx_waker = new_registration;
  tx = RingBuffer.new tx_buffer;
  tx_state = tx_idle;
  tx_waker = new_registration;
  rxd = idle_dma;
  txd = idle_dma;
  timer_runs = false;
  irq_pending = true;
}

-- `AsyncBufRead` and `AsyncWrite`.
unfoldable pub poll_fill_buf : ℕ → Uarte → System → Poll (List ℕ) × Uarte × System
unfolding register_waker
poll_fill_buf t u s =
    let buf = bytes_of u.rx (pop_buf u.rx) in
    let (w, s') = register_waker t u.rx_waker s in
    if not (length buf == 0)
    then (ready (ok buf), u, s)
    else (pending, record u { rx_waker = w }, s')

unfoldable pub consume_rx : Uarte → ℕ → Option Uarte
consume_rx u amt = elim (RingBuffer.pop u.rx amt) [
  | none ↦ none
  | some b ↦ some (record u { rx = b; irq_pending = true })
]

-- The bytes that `poll_write` takes are queued.
unfoldable pub queue_tx : Uarte → List ℕ → Option Uarte
queue_tx u bytes = elim (RingBuffer.push (fill u.tx bytes) (length bytes)) [
  | none ↦ none
  | some b ↦ some (record u { tx = b; irq_pending = true })
]

unfoldable pub poll_write : ℕ → Uarte → System → List ℕ → Option (Poll ℕ × Uarte × System)
unfolding register_waker queue_tx
poll_write t u s buf =
    let n = min (push_buf u.tx).len (length buf) in
    let (w, s') = register_waker t u.tx_waker s in
    if (push_buf u.tx).len == 0
    then some (pending, record u { tx_waker = w }, s')
    else elim (queue_tx u (take n buf)) [ none ↦ none | some u' ↦ some (ready (ok n), u', s) ]

-- A transfer is set up, and its task is triggered; MAXCNT has `width` bits.
abbrev pub start_dma : ℕ → Dma → ℕ → ℕ → Dma
start_dma width d ptr len = record d {
  ptr = ptr;
  maxcnt = len % 2 ^ width;
  amount = 0;
  running = true;
}

-- What one pass of a loop of `on_interrupt` leaves, and whether the loop goes on.
abbrev pub Pass : Type 0
Pass = Option (Bool × Uarte × System)

unfoldable pub start_rx : ℕ → Uarte → Uarte
start_rx width u =
    let buf = push_buf u.rx in
    if not (buf.len == 0)
    then record u { rx_state = receiving; rxd = start_dma width u.rxd buf.from buf.len }
    else u

unfoldable pub end_rx : Uarte → System → Pass
unfolding wake_waker
end_rx u s =
    let (w, s') = wake_waker u.rx_waker s in
    elim (RingBuffer.push u.rx u.rxd.amount) [
      | none ↦ none
      | some b ↦ some (
        true,
        record u {
          timer_runs = false;
          rx = b;
          rxd = record u.rxd { ended = false };
          rx_waker = w;
          rx_state = rx_idle;
        },
        s',
      )
    ]

abbrev pub rx_in : ℕ → RxState → Uarte → System → Pass
rx_in width rx_idle u s = some (false, start_rx width u, s)
rx_in width receiving u s = if u.rxd.ended then end_rx u s else some (false, u, s)

unfoldable pub start_tx : ℕ → Uarte → Uarte
start_tx width u =
    let buf = pop_buf u.tx in
    if not (buf.len == 0)
    then record u { tx_state = transmitting buf.len; txd = start_dma width u.txd buf.from buf.len }
    else u

unfoldable pub end_tx : ℕ → Uarte → System → Pass
unfolding wake_waker
end_tx n u s =
    let (w, s') = wake_waker u.tx_waker s in
    elim (RingBuffer.pop u.tx n) [
      | none ↦ none
      | some b ↦ some (
        true,
        record u { tx = b; txd = record u.txd { ended = false }; tx_waker = w; tx_state = tx_idle },
        s',
      )
    ]

abbrev pub tx_in : ℕ → TxState → Uarte → System → Pass
tx_in width tx_idle u s = some (false, start_tx width u, s)
tx_in width (transmitting n) u s = if u.txd.ended then end_tx n u s else some (false, u, s)

-- A loop that breaks when a pass does; `none` is also out of fuel. After a pass that goes on the
-- state is idle, and the next one breaks: two are enough.
abbrev pub again : (Uarte → System → Option (Uarte × System)) → Pass → Option (Uarte × System)
again rest none = none
again rest (some (false, u, s)) = some (u, s)
again rest (some (true, u, s)) = rest u s

abbrev pub irq_loop : (Uarte → System → Pass) → ℕ → Uarte → System → Option (Uarte × System)
irq_loop pass zero u s = none
irq_loop pass (suc fuel) u s = again (irq_loop pass fuel) (pass u s)

unfoldable pub rx_loop : ℕ → Uarte → System → Option (Uarte × System)
unfolding start_rx end_rx
rx_loop width = irq_loop (λ u s. rx_in width u.rx_state u s) 2

unfoldable pub tx_loop : ℕ → Uarte → System → Option (Uarte × System)
unfolding start_tx end_tx
tx_loop width = irq_loop (λ u s. tx_in width u.tx_state u s) 2

unfoldable pub on_interrupt : ℕ → Uarte → System → Option (Uarte × System)
unfolding rx_loop tx_loop
on_interrupt width u s = elim (rx_loop width u s) [
  | none ↦ none
  | some (u', s') ↦ tx_loop width u' s'
]
