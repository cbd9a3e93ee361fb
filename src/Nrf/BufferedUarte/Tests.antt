-- ===== src/Nrf/BufferedUarte/Tests.antt =====
-- The theorems on the port at small rings, and a run of it.
use embassy.Base.{ℕ, ◌<◌, ◌≡◌, refl, inl, true, false, some, [], ◌∷◌, ◌++◌, arith, drop}
use embassy.Io.{ok, ready}
use embassy.Executor.{System, new_system}
use embassy.Extras.RingBuffer.{RingBuffer, new, push_buf, wrap, push, pop_buf, pop, fill}
use embassy.Extras.RingBuffer.Bounds.{IsValid}
use embassy.Extras.RingBuffer.Queue.{contents}
use embassy.Nrf.BufferedUarte.{
  receiving, transmitting, Dma, Uarte, new_uarte, consume_rx, queue_tx, poll_write, start_rx,
  end_rx, start_tx, rx_loop, tx_loop, on_interrupt,
}
use embassy.Nrf.BufferedUarte.Receiving.{arrived}
use embassy.Nrf.BufferedUarte.Feeds.{
  Inbox, Move, finish, consume, handle, come, Reaches, begins, then_moves, all_is_received,
}
use embassy.Util.Waker.{new_registration, wake_waker}
use embassy.Nrf.BufferedUarte.Steps.{
  World, Step, write, interrupt, send, Reach, begin, next, line_carries_all,
}
use embassy.Nrf.BufferedUarte.Lost.{transferred, long_run_lost}

abbrev first : World
first = record {
  uarte = new_uarte (0 ∷ 0 ∷ []) (0 ∷ 0 ∷ 0 ∷ []);
  system = new_system;
  line = [];
  all = [];
}

abbrev queued : RingBuffer
queued = record { buf = 5 ∷ 6 ∷ 0 ∷ []; start = 0; end = 2; empty = false }

-- Two bytes are written.
abbrev written : World
written = record first {
  uarte = record first.uarte { tx = queued; irq_pending = true };
  all = 5 ∷ 6 ∷ [];
}

abbrev started : ℕ → Dma
started n = record { ptr = 0; maxcnt = 2; amount = n; running = true; ended = false }

-- Both transfers are started.
abbrev handled : World
handled = record written {
  uarte = record written.uarte {
    rx_state = receiving;
    rxd = started 0;
    tx_state = transmitting 2;
    txd = started 0;
  };
}

-- The first byte is on the line.
abbrev sending : World
sending = record handled { uarte = record handled.uarte { txd = started 1 }; line = 5 ∷ [] }

write_step : Step 8 first written
unfolding poll_write new_uarte queue_tx push_buf push wrap fill new
write_step = write 1 (5 ∷ 6 ∷ []) (ready (ok 2)) refl refl refl

irq_step : Step 8 written handled
unfolding on_interrupt rx_loop tx_loop start_rx start_tx new_uarte push_buf pop_buf new
irq_step = interrupt refl refl refl

send_step : Step 8 handled sending
send_step = send 1 refl (omega arith) refl refl refl

sending-Reach : Reach 8 (0 ∷ 0 ∷ []) (0 ∷ 0 ∷ 0 ∷ []) sending
sending-Reach = next (next (next (begin new_system) write_step) irq_step) send_step

line_carries_all_example :
    ((5 ∷ []) ++ drop 1 (contents queued) ≡ 5 ∷ 6 ∷ [])
    × ((o : Uarte × System) × (tx_loop 8 sending.uarte new_system ≡ some o))
line_carries_all_example =
    line_carries_all 8 (0 ∷ 0 ∷ []) (0 ∷ 0 ∷ 0 ∷ []) sending (omega arith) (omega arith)
      sending-Reach

queued-IsValid : IsValid queued
queued-IsValid = record {
  small = omega arith;
  start_in = inl (omega arith);
  end_in = inl (omega arith);
  empty_eq = λ e. cc;
}

-- A MAXCNT of one bit cannot say 2: nothing is sent, and both bytes are taken from the ring.
long_run_lost_example :
    ((transferred (start_tx 1 written.uarte)).txd.amount < (pop_buf queued).len)
    × ((o : Uarte × System) × (tx_loop 1 (transferred (start_tx 1 written.uarte)) new_system
          ≡ some o)
        × (contents o.0.tx ≡ drop (pop_buf queued).len (contents queued)))
unfolding new_uarte pop_buf
long_run_lost_example =
    long_run_lost 1 written.uarte new_system queued-IsValid (omega arith) (omega arith) refl

abbrev inbox : Inbox
inbox = record {
  port = new_uarte (0 ∷ 0 ∷ []) (0 ∷ []);
  executor = new_system;
  taken = [];
  came = [];
}

abbrev listening : Inbox
listening = record inbox { port = record inbox.port { rx_state = receiving; rxd = started 0 } }

-- One byte comes in, and then the line is idle.
abbrev one_came : Inbox
one_came = record listening {
  port = record listening.port {
    rx = record listening.port.rx { buf = 7 ∷ 0 ∷ [] };
    rxd = started 1;
  };
  came = 7 ∷ [];
}

abbrev line_idle : Inbox
line_idle = record one_came {
  port = record one_came.port { rxd = record (started 1) { running = false; ended = true } };
}

-- The byte is in the ring, and the next transfer is for the other one.
abbrev one_queued : Inbox
one_queued = record line_idle {
  port = record line_idle.port {
    rx = record { buf = 7 ∷ 0 ∷ []; start = 0; end = 1; empty = false };
    rxd = record { ptr = 1; maxcnt = 1; amount = 0; running = true; ended = false };
  };
}

abbrev one_taken : Inbox
one_taken = record one_queued {
  port = record one_queued.port {
    rx = record { buf = 7 ∷ 0 ∷ []; start = 1; end = 1; empty = true };
    irq_pending = true;
  };
  taken = 7 ∷ [];
}

listen_move : Move 8 inbox listening
unfolding on_interrupt rx_loop tx_loop start_rx start_tx new_uarte push_buf pop_buf new
listen_move = handle refl refl refl

come_move : Move 8 listening one_came
unfolding new_uarte new
come_move = come (7 ∷ []) refl (omega arith) refl refl refl

idle_move : Move 8 one_came line_idle
idle_move = finish refl refl refl refl

queue_move : Move 8 line_idle one_queued
unfolding on_interrupt rx_loop tx_loop start_rx start_tx end_rx new_uarte push_buf pop_buf push wrap
    new wake_waker new_registration
queue_move = handle refl refl refl

take_move : Move 8 one_queued one_taken
unfolding consume_rx pop pop_buf wrap new_uarte contents
take_move = consume 1 (omega arith) refl refl refl

one_taken-Reaches : Reaches 8 (0 ∷ 0 ∷ []) (0 ∷ []) one_taken
one_taken-Reaches =
    then_moves
      (then_moves
        (then_moves (then_moves (then_moves (begins new_system) listen_move) come_move) idle_move)
        queue_move)
      take_move

all_is_received_example :
    ((7 ∷ [])
        ++ (contents one_taken.port.rx
            ++ arrived one_taken.port.rx one_taken.port.rx_state one_taken.port.rxd)
      ≡ 7 ∷ [])
    × ((o : Uarte × System) × (rx_loop 8 one_taken.port new_system ≡ some o))
all_is_received_example =
    all_is_received 8 (0 ∷ 0 ∷ []) (0 ∷ []) one_taken (omega arith) one_taken-Reaches
