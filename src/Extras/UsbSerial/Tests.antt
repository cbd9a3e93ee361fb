-- ===== src/Extras/UsbSerial/Tests.antt =====
-- The port over an endpoint that takes whole packets, and runs of its code.
use embassy.Base.{
  ℕ, ◌≡◌, sym, ap, inl, false, some, List, [], ◌∷◌, ◌++◌, arith, length, take, drop, length-take,
  take_all,
}
use embassy.Io.{Poll, accepted}
use embassy.Executor.{System, new_system}
use embassy.Util.Waker.{new_registration}
use embassy.Extras.RingBuffer.{RingBuffer, push_buf}
use embassy.Extras.RingBuffer.Bounds.{IsValid}
use embassy.Extras.RingBuffer.Queue.{contents}
use embassy.Extras.UsbSerial.{UsbResult, done, CdcAcm, idle, UsbSerial, poll_write, endpoint_out}
use embassy.Extras.UsbSerial.Sent.{Sends, poll_write-stream}
use embassy.Extras.UsbSerial.Received.{ReadsFit, Delivers, endpoint_out-Delivers}

-- What was sent, and what is still to come.
abbrev Wire : Type 0
Wire = List ℕ × List ℕ

abbrev write_all : Wire → List ℕ → UsbResult ℕ × Wire
write_all w buf = (done (length buf), (w.0 ++ buf, w.1))

abbrev read_most : Wire → ℕ → UsbResult (List ℕ) × Wire
read_most w n = (done (take n w.1), (w.0, drop n w.1))

abbrev wire : CdcAcm Wire
wire = record {
  max_packet_size = 4;
  write_packet = write_all;
  read_packet = read_most;
  reset_class = λ w. w;
  write_ep_address = 129;
  read_ep_address = 1;
}

wire-Sends : Sends wire
wire-Sends = record {
  sent = λ w. w.0;
  few = λ w buf. omega arith;
  grows = λ w buf. ap (λ xs. w.0 ++ xs) (sym (take_all {0} (length buf) buf (omega arith)));
}

wire-ReadsFit : ReadsFit wire
wire-ReadsFit w n = let short = length-take {0} n w.1 in omega arith

-- A ring of three bytes that holds 8, then 9, round its end.
abbrev ring : RingBuffer
ring = record { buf = 9 ∷ 7 ∷ 8 ∷ []; start = 2; end = 1; empty = false }

ring-IsValid : IsValid ring
ring-IsValid = record {
  small = omega arith;
  start_in = inl (omega arith);
  end_in = inl (omega arith);
  empty_eq = λ e. cc;
}

abbrev port : UsbSerial Wire
port = record {
  inner = ([], 5 ∷ 6 ∷ []);
  read_buf = ring;
  write_buf = ring;
  read_waker = new_registration;
  write_waker = new_registration;
  write_state = idle;
  read_error = false;
  write_error = false;
}

poll_write-stream_example :
    (o : Poll ℕ × UsbSerial Wire × System) × (poll_write wire 1 port new_system (5 ∷ 6 ∷ [])
      ≡ some o)
    × IsValid o.1.write_buf
    × (o.1.inner.0 ++ contents o.1.write_buf ≡ contents ring ++ accepted o.0 (5 ∷ 6 ∷ []))
unfolding wire-Sends contents
poll_write-stream_example =
    poll_write-stream wire wire-Sends 1 port new_system (5 ∷ 6 ∷ []) ring-IsValid

endpoint_out-Delivers_example :
    Delivers wire 1 port new_system
      (wire.read_packet port.inner (push_buf ring).len).0
      (endpoint_out wire 1 port new_system)
endpoint_out-Delivers_example =
    endpoint_out-Delivers wire wire-ReadsFit 1 port new_system ring-IsValid
