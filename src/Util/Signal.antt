-- ===== src/Util/Signal.antt =====
-- embassy/src/util/signal.rs, `Signal`: a value that a task waits for. `none` is a panic.
pub mod Mailbox
use embassy.Base.{ℕ, Bool, true, false, Option, none, some, ◌==◌, if◌then◌else◌}
use embassy.Poll.{Poll, pending, ready}
use embassy.Executor.{System}
use embassy.Executor.Raw.{enqueue}

pub data State (T : Type 0) : Type 0 where
  no_value : State T
  waiting : ℕ → State T
  signaled_with : T → State T

pub record Signal (T : Type 0) : Type 0 where
  pub state : State T

unfoldable pub new_signal : {T : Type 0} → Signal T
new_signal = record { state = no_value }

-- `Signal::signal`: a task that waits is woken.
unfoldable pub signal : {T : Type 0} → T → Signal T → System → Signal T × System
unfolding enqueue
signal val g s =
    (record { state = signaled_with val }, elim g.state [ waiting w ↦ enqueue s w | _ ↦ s ])

unfoldable pub reset : {T : Type 0} → Signal T → Signal T
reset g = record { state = no_value }

-- `Signal::poll_wait` by the task `t`, and each poll of the future that `Signal::wait` gives.
unfoldable pub poll_wait : {T : Type 0} → ℕ → Signal T → Option (Poll T × Signal T)
poll_wait t g = elim g.state [
  | no_value ↦ some (pending, record { state = waiting t })
  | waiting w ↦ if w == t then some (pending, g) else none
  | signaled_with res ↦ some (ready res, record { state = no_value })
]

unfoldable pub signaled : {T : Type 0} → Signal T → Bool
signaled g = elim g.state [ signaled_with v ↦ true | _ ↦ false ]
