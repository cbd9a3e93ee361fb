-- ===== src/Nrf/Gpiote.antt =====
-- embassy-nrf/src/gpiote.rs: events of pins that wake tasks. Of the registers there are those that the
-- driver uses. A pin is named by its `pin_port`, port * 32 + pin; `ports` counts the chip's ports.
pub mod Bits
pub mod Pins
pub mod Channels
pub mod Wakes
mod Tests
use embassy.Base.{
  ℕ, zero, suc, ◌+◌, ◌*◌, ◌/◌, ◌%◌, Bool, true, false, Option, none, some, List, [], ◌∷◌, ◌==◌,
  if◌then◌else◌,
}
use embassy.Base.Bits.{clear_bit, trailing_zeros}
use embassy.Base.Tables.{put}
use embassy.Poll.{Poll, pending, ready}
use embassy.Executor.{System}
use embassy.Util.Waker.{AtomicWaker, register_atomic, wake_atomic}

pub data InputChannelPolarity : Type 0 where
  input_none hi_to_lo lo_to_hi input_toggle : InputChannelPolarity

pub data OutputChannelPolarity : Type 0 where
  output_set output_clear output_toggle : OutputChannelPolarity

-- The fields of a CONFIG register.
pub data Mode : Type 0 where
  mode_disabled mode_event mode_task : Mode

pub data Polarity : Type 0 where
  no_polarity rising falling toggle : Polarity

pub record Config : Type 0 where
  pub mode : Mode
  pub polarity : Polarity
  pub outinit : Bool
  pub port : Bool
  pub psel : ℕ

-- What `write` starts from.
abbrev pub reset_config : Config
reset_config = record {
  mode = mode_disabled;
  polarity = no_polarity;
  outinit = false;
  port = false;
  psel = 0;
}

pub data Sense : Type 0 where
  sense_disabled sense_high sense_low : Sense

pub data Trigger : Type 0 where
  task_out task_set task_clr : ℕ → Trigger

-- The registers, the latest task that was triggered first, and the wakers. `inten` has a bit for each
-- channel, and bit 31 for the ports; `latch` has a word for each port, `sense` a field for each pin.
pub record Gpiote : Type 0 where
  pub events_in : ℕ → Bool
  pub events_port : Bool
  pub inten : ℕ → Bool
  pub config : ℕ → Config
  pub triggers : List Trigger
  pub ldetect : ℕ → Bool
  pub latch : ℕ → ℕ
  pub sense : ℕ → Sense
  pub channel_wakers : ℕ → AtomicWaker
  pub port_wakers : ℕ → AtomicWaker

abbrev pub channel_count : ℕ
channel_count = 8

abbrev pub port_bit : ℕ
port_bit = 31

-- The loop of `initialize` over the first `n` ports; ones that are written to a latch clear it.
abbrev pub init_ports : ℕ → Gpiote → Gpiote
init_ports zero g = g
init_ports (suc n) g =
    let g' = init_ports n g in
    record g' { ldetect = put g'.ldetect n true; latch = put g'.latch n 0 }

-- `initialize`, before it sets the handler and enables the interrupt.
unfoldable pub initialize : ℕ → Gpiote → Gpiote
initialize ports g =
    let g' = init_ports ports g in
    record g' { events_port = false; inten = put g'.inten port_bit true }

-- `BitIter::next`, on words of 32 bits.
unfoldable pub next_bit : ℕ → ℕ → Option (ℕ × ℕ)
next_bit w bits =
    let b = trailing_zeros w bits in if b == w then none else some (b, clear_bit bits b)

-- What a loop over `BitIter` sees in its first rounds.
unfoldable pub bit_iter : ℕ → ℕ → ℕ → List ℕ
bit_iter zero w bits = []
bit_iter (suc fuel) w bits = elim (next_bit w bits) [
  | none ↦ []
  | some (b, rest) ↦ b ∷ bit_iter fuel w rest
]

-- The bodies of the three loops of `on_irq`, and those.
unfoldable pub channel_event : ℕ → Gpiote × System → Gpiote × System
unfolding wake_atomic
channel_event i (g, s) =
    if g.events_in i
    then (record g { inten = put g.inten i false }, wake_atomic (g.channel_wakers i) s)
    else (g, s)

unfoldable pub channel_events : ℕ → Gpiote × System → Gpiote × System
unfolding channel_event
channel_events zero st = st
channel_events (suc n) st = channel_event n (channel_events n st)

unfoldable pub pin_event : ℕ → ℕ → Gpiote × System → Gpiote × System
unfolding wake_atomic
pin_event port pin (g, s) = (
  record g { sense = put g.sense (port * 32 + pin) sense_disabled },
  wake_atomic (g.port_wakers (port * 32 + pin)) s,
)

unfoldable pub pin_events : ℕ → List ℕ → Gpiote × System → Gpiote × System
unfolding pin_event
pin_events port [] st = st
pin_events port (pin ∷ pins) st = pin_events port pins (pin_event port pin st)

-- The bits that were read are written back, which clears them.
unfoldable pub port_event : ℕ → Gpiote × System → Gpiote × System
unfolding pin_events bit_iter
port_event port (g, s) =
    let (g', s') = pin_events port (bit_iter 32 32 (g.latch port)) (g, s) in
    (record g' { latch = put g'.latch port 0 }, s')

unfoldable pub port_events : ℕ → Gpiote × System → Gpiote × System
unfolding port_event
port_events zero st = st
port_events (suc n) st = port_event n (port_events n st)

unfoldable pub on_irq : ℕ → Gpiote × System → Gpiote × System
unfolding channel_events port_events
on_irq ports st =
    let (g, s) = channel_events channel_count st in
    if g.events_port then port_events ports (record g { events_port = false }, s) else (g, s)

abbrev pub drop_channel : ℕ → Gpiote → Gpiote
drop_channel num g = record g {
  config = put g.config num reset_config;
  inten = put g.inten num false;
}

abbrev pub input_polarity : InputChannelPolarity → Polarity
input_polarity hi_to_lo = falling
input_polarity lo_to_hi = rising
input_polarity input_none = no_polarity
input_polarity input_toggle = toggle

-- `InputChannel::new`; with one port there is no port bit to set.
unfoldable pub new_input : ℕ → ℕ → InputChannelPolarity → Gpiote → Gpiote
new_input num pin_port polarity g = record g {
  config = put g.config num (record reset_config {
    mode = mode_event;
    polarity = input_polarity polarity;
    port = pin_port / 32 == 1;
    psel = pin_port % 32;
  });
  events_in = put g.events_in num false;
}

-- `InputChannel::wait`, up to its future, and that.
unfoldable pub wait : ℕ → Gpiote → Gpiote
wait num g = record g { events_in = put g.events_in num false; inten = put g.inten num true }

unfoldable pub wait_poll : ℕ → ℕ → Gpiote → Poll (Unit {0}) × Gpiote
unfolding register_atomic
wait_poll num t g = (
  if g.events_in num then ready tt else pending,
  record g { channel_wakers = put g.channel_wakers num (register_atomic t (g.channel_wakers num)) },
)

abbrev pub output_polarity : OutputChannelPolarity → Polarity
output_polarity output_set = rising
output_polarity output_clear = falling
output_polarity output_toggle = toggle

-- `OutputChannel::new`, of a pin that is set high or low, and the methods.
unfoldable pub new_output : ℕ → ℕ → Bool → OutputChannelPolarity → Gpiote → Gpiote
new_output num pin_port high polarity g = record g {
  config = put g.config num (record reset_config {
    mode = mode_task;
    polarity = output_polarity polarity;
    outinit = high;
    port = pin_port / 32 == 1;
    psel = pin_port % 32;
  });
}

abbrev pub out : ℕ → Gpiote → Gpiote
out num g = record g { triggers = task_out num ∷ g.triggers }

abbrev pub set : ℕ → Gpiote → Gpiote
set num g = record g { triggers = task_set num ∷ g.triggers }

abbrev pub clear : ℕ → Gpiote → Gpiote
clear num g = record g { triggers = task_clr num ∷ g.triggers }

-- `wait_for_high` and `wait_for_low`, by what the pin is to sense, and their future.
unfoldable pub wait_for : Sense → ℕ → Gpiote → Gpiote
wait_for level pin_port g = record g { sense = put g.sense pin_port level }

abbrev pub is_disabled : Sense → Bool
is_disabled sense_disabled = true
is_disabled sense_high = false
is_disabled sense_low = false

unfoldable pub port_poll : ℕ → ℕ → Gpiote → Poll (Unit {0}) × Gpiote
unfolding register_atomic
port_poll pin_port t g = (
  if is_disabled (g.sense pin_port) then ready tt else pending,
  record g {
    port_wakers = put g.port_wakers pin_port (register_atomic t (g.port_wakers pin_port));
  },
)

unfoldable pub drop_port_future : ℕ → Gpiote → Gpiote
drop_port_future pin_port g = record g { sense = put g.sense pin_port sense_disabled }
