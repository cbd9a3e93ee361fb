-- ===== src/Util/WakerAgnostic.antt =====
-- embassy/src/util/waker_agnostic.rs: the registrations that keep a waker. `will_wake` compares the
-- tasks of two wakers.
use embassy.Base.{ℕ, Bool, false, none, some, ◌==◌, if◌then◌else◌}
use embassy.Executor.{System}
use embassy.Executor.Raw.{enqueue}
use embassy.Util.Waker.{WakerRegistration, AtomicWaker}

-- `WakerRegistration::register`: a registered waker that wakes the same task is kept, and any other
-- is replaced and woken.
unfoldable pub register_any_waker : ℕ → WakerRegistration → System → WakerRegistration × System
unfolding enqueue
register_any_waker w r s =
    let same : Bool = elim r.waker [ none ↦ false | some w2 ↦ w2 == w ] in
    let woken : System = elim r.waker [ none ↦ s | some old_waker ↦ enqueue s old_waker ] in
    let replaced : WakerRegistration = record { waker = some w } in
    if same then (r, s) else (replaced, woken)

-- `WakerRegistration::wake`: the waker is taken.
unfoldable pub wake_any_waker : WakerRegistration → System → WakerRegistration × System
unfolding enqueue
wake_any_waker r s = (record { waker = none }, elim r.waker [ none ↦ s | some w ↦ enqueue s w ])

-- `AtomicWaker`, a cell in a critical section.
unfoldable pub register_cell : ℕ → AtomicWaker → AtomicWaker
register_cell w a = elim a.task [
  | none ↦ record { task = some w }
  | some w2 ↦ if w2 == w then record { task = some w2 } else record { task = some w }
]

-- `AtomicWaker::wake`: the waker is taken out, woken, and put back.
unfoldable pub wake_cell : AtomicWaker → System → AtomicWaker × System
unfolding enqueue
wake_cell a s = elim a.task [
  | none ↦ (record { task = none }, s)
  | some w ↦ (record { task = some w }, enqueue s w)
]
