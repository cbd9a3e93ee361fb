-- ===== src/Executor/RunQueue.antt =====
-- embassy/src/executor/run_queue.rs: the intrusive stack of tasks that are ready to run.
use embassy.Base.{ℕ, zero, suc, Bool, true, false, Option, none, some}
use embassy.Executor.{System, set_header}

-- `RunQueue::enqueue` with nothing in between: the exchange succeeds at once. The flag says whether
-- the queue was empty.
unfoldable pub enqueue : System → ℕ → System × Bool
enqueue s item =
    let linked = set_header s item (record (s.headers item) { run_next = s.run_head }) in
    (record linked { run_head = some item }, elim s.run_head [ none ↦ true | some p ↦ false ])

-- The loop of `dequeue_all`: `next` is read before the task is processed. `none` is out of fuel.
unfoldable pub walk : ℕ → (System → ℕ → System) → System → Option ℕ → Option System
walk fuel on_task s none = some s
walk zero on_task s (some t) = none
walk (suc fuel) on_task s (some t) = walk fuel on_task (on_task s t) ((s.headers t).run_next)

-- `RunQueue::dequeue_all`: the head is swapped with null, and the batch is walked.
unfoldable pub dequeue_all : ℕ → (System → ℕ → System) → System → Option System
unfolding walk
dequeue_all fuel on_task s = walk fuel on_task (record s { run_head = none }) s.run_head
