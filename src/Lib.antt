-- ===== src/Lib.antt =====
-- embassy: an asynchronous runtime for microcontrollers. Tasks are statics; an executor polls those
-- that are queued to run, wakes those whose time has come, and sets an alarm for the next one. Around
-- it stand a clock's arithmetic, buffered readers, a byte ring that drivers share with interrupts, and
-- the drivers of serial ports, of hardware clocks and of pins.
--
-- - Base: names passed on, Boolean tests on the native numbers, lists and writes into them, arrays as
--   functions (Tables), the bits of words (Words, Bits), and chains that may fail (Options).
-- - Time (embassy/src/time/): `Duration` and `Instant` with every operation. A panic is `none`; plain
--   products overflow by the profile, `dev` with overflow checks and `release` without. The clock's
--   reading is a parameter.
-- - Executor (embassy/src/executor/): `TaskHeader` and `System` are the statics and one executor over
--   them; RunQueue is run_queue.rs, TimerQueue is timer_queue.rs, Raw is raw.rs and the spawners of
--   mod.rs. A pointer is a number; the `state` word is kept as its three bits. The futures are a
--   parameter: from the state at a poll, the actions (wakes, timers, spawns) during it, which may
--   also be those of interrupts, and whether it is ready. Every operation runs undivided: the
--   exchange loops of `enqueue` succeed at once. Loops over the queues take fuel; twice the length of
--   the timer queue and that of the run queue are enough for a whole round, since only `update` links
--   a timer, once for each task polled.
-- - Executor.Timer (embassy/src/executor/timer.rs): `Timer`, `Ticker`, `Delay`, `with_timeout`; every
--   poll is by a task, at a reading of the clock, on the executor's state.
-- - Interrupt (embassy/src/interrupt.rs, embassy-macros/src/lib.rs): one interrupt's handler, context and
--   mask, and the trampoline that calls the handler when the interrupt comes; the interrupt controller
--   is a parameter with the laws of its mask.
-- - Util (embassy/src/util/): `Signal`, `InterruptFuture`, `Portal` and `Forever`, where a waker is a
--   task; the waker registrations of waker.rs and waker_agnostic.rs; Guards is drop_bomb.rs and
--   on_drop.rs. A portal's closure is a state. The mutexes of mutex.rs are not modelled.
-- - Io (embassy/src/io/): readers are an interface with a contract over the chunks that they have yet
--   to show. ReadExact is util/read_exact.rs, Readers the other futures of util/ that read, over the
--   loop of Loop; ReadWhile, ReadToEnd and Drain are about three of them. Fuel is above the bytes
--   wanted, or above the chunks of the script and the room: every pass that goes on takes one.
--   Writers is the futures that write, over writers with a contract, and copy_buf.rs; WriteAll and Copy
--   are about two of them, with fuel above the bytes to write: every pass that goes on writes one.
-- - Extras.RingBuffer (embassy-extras/src/ring_buffer.rs): the ring, its invariant, and the queue of
--   bytes that it holds. `usize` has 32 bits.
-- - Extras.Peripheral (embassy-extras/src/peripheral.rs, peripheral_shared.rs): state that is shared
--   with a handler, whose context is the place of the state. In its child Exclusion an interrupt is
--   raised, which goes through the trampoline.
-- - Extras.UsbSerial (embassy-extras/src/usb/usb_serial.rs): the port over two rings; the endpoints of
--   the usb-device crate are a parameter. Sent is about its writer, Received about its reader.
-- - Nrf.Rtc (embassy-nrf/src/rtc.rs): the clock and its three alarms over the registers that are
--   written, with what is read of the counter as an argument. Events has the events that the counter
--   raises, Handled and Ticks are about the handler, and Steps has the ticks with their interrupts and
--   the calls as a relation; a callback is a function on the driver's state. The interrupt of a tick is
--   handled before the next tick.
-- - Nrf.BufferedUarte (embassy-nrf/src/buffered_uarte.rs): the port over two rings and the registers of
--   its two transfers; MAXCNT has any width. Sending and Writing are about the sending half, Receiving
--   and Consuming about the other, and Interrupts about the handler; Steps has writers, interrupts and
--   the outgoing transfer as a relation, Feeds has readers, interrupts and the incoming one.
--   Each loop of the handler makes at most two passes. Setting up pins, the timer and the baud rate is
--   not modelled.
-- - Nrf.Gpiote (embassy-nrf/src/gpiote.rs): channels and pins whose events wake tasks, over the
--   registers and the wakers. A word's bits are visited in at most 32 rounds, one for each. Channels and
--   Pins are about the loops of the handler, Wakes about tasks.
-- - Nrf.Qspi (embassy-nrf/src/qspi.rs): the commands to a flash chip, each a future over its registers;
--   Bytes is about the words of a custom instruction, Waits about tasks. Chip has what the hardware
--   does with the registers; the flash chip's own part of that is a parameter.
-- - Stm32.Rtc (embassy-stm32/src/rtc.rs): the clock over a timer's registers, with three alarms or one.
--   Masked has the calls and the interrupts as a relation, Periods and Missed are about the handler
--   without overflow checks, Early is about flags of disabled channels.
-- - Stm32.Serial (embassy-stm32/src/f4/serial.rs), Stm32.Exti (embassy-stm32/src/exti.rs): futures that
--   wait for an interrupt through InterruptFuture; a future is its state between two polls. The
--   transfers and the pins of the hal crate are parameters. A transfer has less than 2^16 bytes.
-- - Rp.Pll, Rp.Uart (embassy-rp/src/pll.rs, uart.rs): the dividers of both, which Rates is about for
--   the port, and the queue of bytes that the transmitter holds; how many of them leave it is an argument.
--
-- Not modelled: memory orderings and interleavings within one queue operation; more than one executor
-- over a task; the drop of a future that is ready; register blocks and their drivers.
pub mod Base
pub mod Extras
pub mod Time
pub mod Executor
pub mod Io
pub mod Poll
pub mod Nrf
pub mod Stm32
pub mod Rp
pub mod Interrupt
pub mod Util
