-- ===== src/Stm32/Serial.antt =====
-- embassy-stm32/src/f4/serial.rs: a serial port that moves bytes by DMA and waits for interrupts. The
-- transfers are the hal crate's: they are a parameter. A future is its state between two polls; a
-- panic is `none`.
mod Transfers
mod Idle
mod Tests
use embassy.Base.{ℕ, Bool, true, false, Option, none, some, if◌then◌else◌}
use mathlib.Core.Option
use embassy.Base.Options.{◌>>=◌}
use embassy.Time.{Profile, sub_u32}
use embassy.Poll.{Poll, pending, ready}
use embassy.Interrupt.{Nvic, Line}
use embassy.Util.InterruptFuture.{new_future, future_poll, drop_future}

-- `Transfer::init` with the length of the buffer, `start`, `free`, its drop, and
-- `get_number_of_transfers`, on the state of a stream.
pub record Dma (D : Type 0) : Type 0 where
  pub init : ℕ → D → D
  pub start : D → D
  pub free : D → D
  pub stop : D → D
  pub remaining : D → ℕ

-- The parts that the futures take are named by numbers; `idleie` is the bit of CR1, and `idle` the
-- flag of SR, which a read of SR and then of DR clears: `sr_read` is whether SR was read last.
pub record Serial (N D : Type 0) : Type 0 where
  pub tx_stream : Option ℕ
  pub rx_stream : Option ℕ
  pub usart : Option ℕ
  pub tx_int : Line N
  pub rx_int : Line N
  pub usart_int : Line N
  pub tx_dma : D
  pub rx_dma : D
  pub idleie : Bool
  pub idle : Bool
  pub sr_read : Bool

abbrev pub read_sr : {N D : Type 0} → Serial N D → Serial N D
read_sr s = record s { sr_read = true }

abbrev pub read_dr : {N D : Type 0} → Serial N D → Serial N D
read_dr s = record s { idle = if s.sr_read then false else s.idle; sr_read = false }

-- A future is given the length of its buffer, then holds the stream and the port, and ends.
pub data Transfer : Type 0 where
  created : ℕ → Transfer
  waits : ℕ → ℕ → Transfer
  done : Transfer

-- That of `read_until_idle` also keeps `total_bytes`.
pub data IdleTransfer : Type 0 where
  idle_created : ℕ → IdleTransfer
  idle_waits : ℕ → ℕ → ℕ → IdleTransfer
  idle_done : IdleTransfer

module _ {N D : Type 0} (nvic : Nvic N) (dma : Dma D) where
  abbrev pub Written : Type 0
  Written = Poll (Unit {0}) × Transfer × Serial N D

  -- What `write` does with the answer of its future.
  unfoldable pub write_answer : ℕ → ℕ → Poll (Unit {0}) → Line N → Serial N D → Written
  write_answer stream usart pending line s =
      (pending, waits stream usart, record s { tx_int = line })
  write_answer stream usart (ready _) line s = (
    ready tt,
    done,
    record s {
      tx_int = drop_future nvic line;
      tx_dma = dma.free s.tx_dma;
      tx_stream = some stream;
      usart = some usart;
    },
  )

  abbrev pub write_wait : ℕ → ℕ → ℕ → Serial N D → Written
  write_wait t stream usart s =
      let (answer, line) = future_poll nvic t s.tx_int in write_answer stream usart answer line s

  unfoldable pub write_poll : ℕ → Transfer → Serial N D → Option Written
  write_poll t (created len) s = do
    stream ← s.tx_stream
    usart ← s.usart
    some (
        write_wait t stream usart (record s {
          tx_stream = none;
          usart = none;
          tx_dma = dma.start (dma.init len s.tx_dma);
          tx_int = new_future nvic s.tx_int;
        }))
  write_poll t (waits stream usart) s = some (write_wait t stream usart s)
  write_poll t done s = none

  -- A future that is dropped drops what it holds.
  unfoldable pub write_drop : Transfer → Serial N D → Serial N D
  write_drop (created len) s = s
  write_drop (waits stream usart) s = record s {
    tx_int = drop_future nvic s.tx_int;
    tx_dma = dma.stop s.tx_dma;
  }
  write_drop done s = s

  -- What `read` does with the answer of its future.
  unfoldable pub read_answer : ℕ → ℕ → Poll (Unit {0}) → Line N → Serial N D → Written
  read_answer stream usart pending line s =
      (pending, waits stream usart, record s { rx_int = line })
  read_answer stream usart (ready _) line s = (
    ready tt,
    done,
    record s {
      rx_int = drop_future nvic line;
      rx_dma = dma.free s.rx_dma;
      rx_stream = some stream;
      usart = some usart;
    },
  )

  abbrev pub read_wait : ℕ → ℕ → ℕ → Serial N D → Written
  read_wait t stream usart s =
      let (answer, line) = future_poll nvic t s.rx_int in read_answer stream usart answer line s

  unfoldable pub read_poll : ℕ → Transfer → Serial N D → Option Written
  read_poll t (created len) s = do
    stream ← s.rx_stream
    usart ← s.usart
    some (
        read_wait t stream usart (record s {
          rx_stream = none;
          usart = none;
          rx_dma = dma.start (dma.init len s.rx_dma);
          rx_int = new_future nvic s.rx_int;
        }))
  read_poll t (waits stream usart) s = some (read_wait t stream usart s)
  read_poll t done s = none

  unfoldable pub read_drop : Transfer → Serial N D → Serial N D
  read_drop (created len) s = s
  read_drop (waits stream usart) s = record s {
    rx_int = drop_future nvic s.rx_int;
    rx_dma = dma.stop s.rx_dma;
  }
  read_drop done s = s

  abbrev pub IdleRead : Type 0
  IdleRead = Poll ℕ × IdleTransfer × Serial N D

  -- What follows when either future of `select` is ready; both are dropped.
  unfoldable pub idle_end : Profile → ℕ → ℕ → ℕ → Serial N D → Option IdleRead
  idle_end p stream usart total s =
      let rx_dma = dma.free s.rx_dma in
      Option.map
        (λ count. (
          ready count,
          idle_done,
          record s {
            rx_int = drop_future nvic s.rx_int;
            usart_int = drop_future nvic s.usart_int;
            rx_dma = rx_dma;
            idleie = false;
            rx_stream = some stream;
            usart = some usart;
          },
        ))
        (sub_u32 p total (dma.remaining rx_dma))

  -- `select` polls the future of the stream, and if that is pending the one of the port.
  unfoldable pub port_answer :
      Profile → ℕ → ℕ → ℕ → Poll (Unit {0}) → Line N → Serial N D → Option IdleRead
  port_answer p stream usart total pending line s =
      some (pending, idle_waits stream usart total, record s { usart_int = line })
  port_answer p stream usart total (ready _) line s =
      idle_end p stream usart total (record s { usart_int = line })

  unfoldable pub stream_answer :
      Profile → ℕ → ℕ → ℕ → ℕ → Poll (Unit {0}) → Line N → Serial N D → Option IdleRead
  stream_answer p t stream usart total pending line s =
      let (answer, line2) = future_poll nvic t s.usart_int in
      port_answer p stream usart total answer line2 (record s { rx_int = line })
  stream_answer p t stream usart total (ready _) line s =
      idle_end p stream usart total (record s { rx_int = line })

  abbrev pub idle_wait : Profile → ℕ → ℕ → ℕ → ℕ → Serial N D → Option IdleRead
  idle_wait p t stream usart total s =
      let (answer, line) = future_poll nvic t s.rx_int in
      stream_answer p t stream usart total answer line s

  unfoldable pub idle_poll : Profile → ℕ → IdleTransfer → Serial N D → Option IdleRead
  idle_poll p t (idle_created len) s = do
    stream ← s.rx_stream
    usart ← s.usart
    idle_wait p t stream usart (dma.remaining (dma.init len s.rx_dma))
        (record (read_dr (read_sr (record s { rx_stream = none; usart = none; idleie = true }))) {
          rx_dma = dma.start (dma.init len s.rx_dma);
          rx_int = new_future nvic s.rx_int;
          usart_int = new_future nvic s.usart_int;
        })
  idle_poll p t (idle_waits stream usart total) s = idle_wait p t stream usart total s
  idle_poll p t idle_done s = none
