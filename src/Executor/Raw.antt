-- ===== src/Executor/Raw.antt =====
-- embassy/src/executor/raw.rs and mod.rs: waking, spawning, polling, and the executor's round.
use embassy.Base.{
  ℕ, ◌+◌, min, Bool, true, false, not, ◌||◌, Option, none, some, List, [], ◌∷◌, if◌then◌else◌,
}
use embassy.Executor.{System, never, set_header}
use embassy.Executor.RunQueue
use embassy.Executor.TimerQueue

-- `Executor::enqueue`: the executor is signalled if its queue was empty.
unfoldable pub executor_enqueue : System → ℕ → System
unfolding RunQueue.enqueue
executor_enqueue s t =
    let (s', was_empty) = RunQueue.enqueue s t in
    if was_empty then record s' { signals = s'.signals + 1 } else s'

-- `TaskHeader::enqueue`, which is also `wake_task` and a waker's `wake`.
unfoldable pub enqueue : System → ℕ → System
unfolding executor_enqueue
enqueue s t =
    let h = s.headers t in
    if h.run_queued || not h.spawned
    then s
    else executor_enqueue (set_header s t (record h { run_queued = true })) t

-- `Task::spawn_allocate`: the state goes from 0 to SPAWNED | RUN_QUEUED.
unfoldable pub spawn_allocate : System → ℕ → System × Bool
spawn_allocate s t =
    let h = s.headers t in
    if h.spawned || (h.run_queued || h.timer_queued)
    then (s, false)
    else (set_header s t (record h { spawned = true; run_queued = true }), true)

-- `Task::spawn_pool`: the token of the first task that is free. The future is a parameter of the
-- round, so `spawn_initialize` has nothing else to store.
unfoldable pub spawn_pool : System → List ℕ → System × Option ℕ
unfolding spawn_allocate
spawn_pool s [] = (s, none)
spawn_pool s (t ∷ pool) =
    let (s', free) = spawn_allocate s t in
    elim free [ true ↦ (s', some t) | false ↦ spawn_pool s pool ]

-- `Task::spawn`.
unfoldable pub task_spawn : System → ℕ → System × Option ℕ
unfolding spawn_allocate
task_spawn s t = let (s', free) = spawn_allocate s t in if free then (s', some t) else (s, none)

pub data SpawnError : Type 0 where
  busy : SpawnError

-- `Spawner::spawn` and `SendSpawner::spawn` of mod.rs, over `Executor::spawn`.
unfoldable pub spawner_spawn : System → Option ℕ → System × Option SpawnError
unfolding executor_enqueue
spawner_spawn s none = (s, some busy)
spawner_spawn s (some t) = (executor_enqueue s t, none)

-- `register_timer`.
unfoldable pub register_timer : System → ℕ → ℕ → System
register_timer s t at =
    let h = s.headers t in set_header s t (record h { expires_at = min h.expires_at at })

-- What a future, or an interrupt during its poll, does to the executor's state.
pub data Action : Type 0 where
  wake : ℕ → Action
  register : ℕ → ℕ → Action
  spawn : List ℕ → Action

unfoldable pub perform : System → Action → System
unfolding enqueue register_timer spawn_pool spawner_spawn
perform s (wake t) = enqueue s t
perform s (register t at) = register_timer s t at
perform s (spawn pool) = let (s', token) = spawn_pool s pool in (spawner_spawn s' token).0

unfoldable pub perform_all : System → List Action → System
unfolding perform
perform_all s [] = s
perform_all s (a ∷ as') = perform_all (perform s a) as'

-- The futures of the program: from the state at a poll, the actions during it and whether it is
-- `Poll::Ready`.
abbrev pub Futures : Type 0
Futures = System → ℕ → List Action × Bool

-- `Task::poll`: a future that is ready is dropped, and SPAWNED is cleared.
unfoldable pub poll : Futures → System → ℕ → System
unfolding perform_all
poll futures s t =
    let (actions, ready) = futures s t in
    let after = perform_all (record s { polls = t ∷ s.polls }) actions in
    if ready then set_header after t (record (after.headers t) { spawned = false }) else after

-- The closure that `run_queued` hands to `dequeue_all`.
unfoldable pub process : Futures → System → ℕ → System
unfolding poll TimerQueue.update
process futures s t =
    let h = s.headers t in
    let taken = set_header s t (record h { expires_at = never; run_queued = false }) in
    if not h.spawned then taken else TimerQueue.update (poll futures taken t) t

-- The last part of `run_queued`.
unfoldable pub set_alarm : ℕ → System → Option System
unfolding TimerQueue.next_expiration
set_alarm fuel s =
    if s.has_alarm
    then elim (TimerQueue.next_expiration fuel s) [
      | none ↦ none
      | some (at, s') ↦ some (record s' { alarm_signals = true; alarm_at = some at })
    ]
    else some s

-- The first part: tasks whose time has come are woken.
unfoldable pub wake_expired : ℕ → ℕ → System → Option System
unfolding TimerQueue.dequeue_expired enqueue
wake_expired fuel now s =
    if s.has_alarm
    then elim (TimerQueue.dequeue_expired fuel now enqueue s) [
      | none ↦ none
      | some (u, s') ↦ some s'
    ]
    else some s

-- `Executor::run_queued` at the time `now`; the fuel bounds the length of each of its three loops.
unfoldable pub run_queued : Futures → ℕ → ℕ → System → Option System
unfolding wake_expired RunQueue.dequeue_all process set_alarm
run_queued futures fuel now s = elim (wake_expired fuel now s) [
  | none ↦ none
  | some woken ↦ elim (RunQueue.dequeue_all fuel (process futures) woken) [
    | none ↦ none
    | some ran ↦ set_alarm fuel ran
  ]
]
