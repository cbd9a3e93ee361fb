-- ===== src/Util.antt =====
-- embassy/src/util/: signals and waker registrations. A waker is the task that it wakes, and waking
-- goes to the executor's state; critical sections make every operation undivided.
pub mod Signal
pub mod Forever
pub mod Guards
pub mod Portal
pub mod InterruptFuture
pub mod Waker
pub mod Woken
pub mod WakerAgnostic
pub mod Registered
mod Tests
