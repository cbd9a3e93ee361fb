-- ===== src/Util/Waker.antt =====
-- embassy/src/util/waker.rs: the registrations that keep the task of a waker.
use embassy.Base.{ℕ, Option, none, some, ◌==◌, if◌then◌else◌}
use embassy.Executor.{System}
use embassy.Executor.Raw.{enqueue}

pub record WakerRegistration : Type 0 where
  pub waker : Option ℕ

unfoldable pub new_registration : WakerRegistration
new_registration = record { waker = none }

-- `WakerRegistration::register`: another task that was registered is woken.
unfoldable pub register_waker : ℕ → WakerRegistration → System → WakerRegistration × System
unfolding enqueue
register_waker w r s = elim r.waker [
  | none ↦ (record { waker = some w }, s)
  | some w2 ↦ if w == w2 then (r, s) else (record { waker = some w }, enqueue s w2)
]

-- `WakerRegistration::wake`.
unfoldable pub wake_waker : WakerRegistration → System → WakerRegistration × System
unfolding enqueue
wake_waker r s = elim r.waker [ none ↦ (r, s) | some w ↦ (record { waker = none }, enqueue s w) ]

-- `AtomicWaker`, an atomic pointer that is null or a task.
pub record AtomicWaker : Type 0 where
  pub task : Option ℕ

unfoldable pub new_atomic : AtomicWaker
new_atomic = record { task = none }

unfoldable pub register_atomic : ℕ → AtomicWaker → AtomicWaker
register_atomic w a = record { task = some w }

-- `AtomicWaker::wake`: the task stays registered.
unfoldable pub wake_atomic : AtomicWaker → System → System
unfolding enqueue
wake_atomic a s = elim a.task [ none ↦ s | some w2 ↦ enqueue s w2 ]
