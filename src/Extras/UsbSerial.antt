-- ===== src/Extras/UsbSerial.antt =====
-- embassy-extras/src/usb/usb_serial.rs: a serial port over two byte rings. The endpoints of the class
-- are the usb-device crate's, a parameter. `none` is a panic; a waker is its task.
pub mod Sent
pub mod Received
mod Tests
use embassy.Base.{
  ℕ, ◌+◌, ◌-◌, min, Bool, true, false, not, Option, none, some, List, [], ltb, ◌==◌, if◌then◌else◌,
  length, take,
}
use embassy.Io.{ok, err, Poll, pending, ready}
use embassy.Io.ErrorKinds
use embassy.Executor.{System}
use embassy.Util.Waker.{WakerRegistration, new_registration, register_waker, wake_waker}
use embassy.Extras.RingBuffer
use embassy.Extras.RingBuffer.{RingBuffer, push_buf, pop_buf, fill, bytes_of}

-- `Result` of the usb-device crate: `WouldBlock` is apart from its other errors.
pub data UsbResult (A : Type 0) : Type 0 where
  done : A → UsbResult A
  would_block : UsbResult A
  usb_error : UsbResult A

-- What is used of `CdcAcmClass`: a packet is written, or one is read into a buffer of some length,
-- which gives the bytes that were put at its front.
pub record CdcAcm (C : Type 0) : Type 0 where
  pub max_packet_size : ℕ
  pub write_packet : C → List ℕ → UsbResult ℕ × C
  pub read_packet : C → ℕ → UsbResult (List ℕ) × C
  pub reset_class : C → C
  pub write_ep_address : ℕ
  pub read_ep_address : ℕ

pub data WriteState : Type 0 where
  idle short : WriteState
  full : ℕ → WriteState

pub record UsbSerial (C : Type 0) : Type 0 where
  pub inner : C
  pub read_buf : RingBuffer
  pub write_buf : RingBuffer
  pub read_waker : WakerRegistration
  pub write_waker : WakerRegistration
  pub write_state : WriteState
  pub read_error : Bool
  pub write_error : Bool

unfoldable pub new_serial : {C : Type 0} → C → List ℕ → List ℕ → UsbSerial C
unfolding new_registration
new_serial inner read_buf write_buf = record {
  inner = inner;
  read_buf = RingBuffer.new read_buf;
  write_buf = RingBuffer.new write_buf;
  read_waker = new_registration;
  write_waker = new_registration;
  write_state = idle;
  read_error = false;
  write_error = false;
}

abbrev pub short_packet_interval : ℕ
short_packet_interval = 10

abbrev pub full_size_packets : WriteState → ℕ
full_size_packets idle = 0
full_size_packets short = 0
full_size_packets (full c) = c

-- Where the writer's ring is popped by what was sent.
abbrev pub popped_by : {C : Type 0} → UsbSerial C → ℕ → Option (UsbSerial C)
popped_by u count = elim (RingBuffer.pop u.write_buf count) [
  | none ↦ none
  | some b ↦ some (record u { write_buf = b })
]

module _ {C : Type 0} (cdc : CdcAcm C) where
  abbrev pub max_size : UsbSerial C → ℕ
  max_size u =
      if ltb short_packet_interval (full_size_packets u.write_state)
      then cdc.max_packet_size - 1
      else cdc.max_packet_size

  -- The bytes of the next packet.
  unfoldable pub packet : UsbSerial C → List ℕ
  packet u = take (max_size u) (bytes_of u.write_buf (pop_buf u.write_buf))

  -- The state of the writer after a packet of data.
  abbrev pub state_after : UsbSerial C → WriteState
  state_after u =
      if length (packet u) == cdc.max_packet_size
      then full (full_size_packets u.write_state + 1)
      else short

  -- The branch of `flush_write` with data, and the one that ends a transaction.
  unfoldable pub flush_data : UsbSerial C → UsbResult ℕ × C → Option (UsbSerial C)
  unfolding packet
  flush_data u (done c, inner) =
      popped_by (record u { inner = inner; write_state = state_after u }) c
  flush_data u (would_block, inner) =
      popped_by (record u { inner = inner; write_state = state_after u }) 0
  flush_data u (usb_error, inner) = some (record u { inner = inner; write_error = true })

  unfoldable pub flush_end : UsbSerial C → UsbResult ℕ × C → UsbSerial C
  flush_end u (done c, inner) = record u { inner = inner; write_state = idle }
  flush_end u (would_block, inner) = record u { inner = inner }
  flush_end u (usb_error, inner) = record u { inner = inner; write_error = true }

  unfoldable pub flush_write : UsbSerial C → Option (UsbSerial C)
  unfolding packet flush_data flush_end
  flush_write u =
      if not (length (packet u) == 0)
      then flush_data u (cdc.write_packet u.inner (packet u))
      else if ltb 0 (full_size_packets u.write_state)
      then some (flush_end u (cdc.write_packet u.inner []))
      else some u

  -- `AsyncBufRead` of the port.
  unfoldable pub poll_fill_buf : ℕ → UsbSerial C → System → Poll (List ℕ) × UsbSerial C × System
  unfolding register_waker
  poll_fill_buf t u s =
      let buf = bytes_of u.read_buf (pop_buf u.read_buf) in
      let (w, s') = register_waker t u.read_waker s in
      if u.read_error
      then (ready (err ErrorKinds.other), record u { read_error = false }, s)
      else if length buf == 0
      then (pending, record u { read_waker = w }, s')
      else (ready (ok buf), u, s)

  unfoldable pub consume_read : UsbSerial C → ℕ → Option (UsbSerial C)
  consume_read u amt = elim (RingBuffer.pop u.read_buf amt) [
    | none ↦ none
    | some b ↦ some (record u { read_buf = b })
  ]

  -- The part of `poll_write` that has room.
  unfoldable pub accept : UsbSerial C → List ℕ → Option (UsbSerial C)
  unfolding flush_write
  accept u bytes = elim (RingBuffer.push (fill u.write_buf bytes) (length bytes)) [
    | none ↦ none
    | some b ↦ flush_write (record u { write_buf = b })
  ]

  -- `AsyncWrite` of the port.
  unfoldable pub poll_write :
      ℕ → UsbSerial C → System → List ℕ → Option (Poll ℕ × UsbSerial C × System)
  unfolding register_waker accept
  poll_write t u s buf =
      let room = (push_buf u.write_buf).len in
      let count = min room (length buf) in
      let (w, s') = register_waker t u.write_waker s in
      if u.write_error
      then some (ready (err ErrorKinds.other), record u { write_error = false }, s)
      else if room == 0
      then some (pending, record u { write_waker = w }, s')
      else elim (accept u (take count buf)) [
        | none ↦ none
        | some u' ↦ some (ready (ok count), u', s)
      ]

  -- The calls of `UsbClass` that change the port.
  unfoldable pub reset_serial : UsbSerial C → UsbSerial C
  reset_serial u = record u {
    inner = cdc.reset_class u.inner;
    read_buf = RingBuffer.clear u.read_buf;
    write_buf = RingBuffer.clear u.write_buf;
    write_state = idle;
  }

  unfoldable pub endpoint_in_complete : ℕ → UsbSerial C → System → Option (UsbSerial C × System)
  unfolding wake_waker flush_write
  endpoint_in_complete addr u s =
      let (w, s') = wake_waker u.write_waker s in
      if addr == cdc.write_ep_address
      then elim (flush_write (record u { write_waker = w })) [
        | none ↦ none
        | some u' ↦ some (u', s')
      ]
      else some (u, s)

  -- What `endpoint_out` does with what was read.
  unfoldable pub received :
      UsbSerial C → System → UsbResult (List ℕ) × C → Option (UsbSerial C × System)
  unfolding wake_waker
  received u s (usb_error, inner) = some (record u { inner = inner; read_error = true }, s)
  received u s (would_block, inner) = some (record u { inner = inner }, s)
  received u s (done bytes, inner) =
      let (w, s') = wake_waker u.read_waker s in
      if length bytes == 0
      then some (record u { inner = inner }, s)
      else elim (RingBuffer.push (fill u.read_buf bytes) (length bytes)) [
        | none ↦ none
        | some b ↦ some (record u { inner = inner; read_buf = b; read_waker = w }, s')
      ]

  unfoldable pub endpoint_out : ℕ → UsbSerial C → System → Option (UsbSerial C × System)
  unfolding received
  endpoint_out addr u s =
      if addr == cdc.read_ep_address
      then received u s (cdc.read_packet u.inner (push_buf u.read_buf).len)
      else some (u, s)
