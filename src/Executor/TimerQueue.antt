-- ===== src/Executor/TimerQueue.antt =====
-- embassy/src/executor/timer_queue.rs: the intrusive list of tasks that wait for a time.
pub mod Links
pub mod Retain
pub mod Expiry
use embassy.Base.{
  ℕ, zero, suc, min, Bool, true, false, not, Option, none, some, leb, ◌==◌, if◌then◌else◌,
}
use embassy.Executor.{System, never, set_header}

-- `TimerQueue::update`.
unfoldable pub update : System → ℕ → System
update s t =
    let h = s.headers t in
    if h.expires_at == never
    then s
    else if h.timer_queued
    then s
    else record (set_header s t (record h { timer_queued = true; timer_next = s.timer_head })) {
      timer_head = some t;
    }

-- A `Cell<*mut TaskHeader>`: the head's, or the `next` of a task.
abbrev pub get_cell : System → Option ℕ → Option ℕ
get_cell s none = s.timer_head
get_cell s (some p) = (s.headers p).timer_next

abbrev pub set_cell : System → Option ℕ → Option ℕ → System
set_cell s none v = record s { timer_head = v }
set_cell s (some p) v = set_header s p (record (s.headers p) { timer_next = v })

-- What `retain` does with a task that its closure lets go.
abbrev pub remove : System → Option ℕ → ℕ → System
remove s prev p =
    let unlinked = set_cell s prev ((s.headers p).timer_next) in
    set_header unlinked p (record (unlinked.headers p) { timer_queued = false })

-- The loop of `TimerQueue::retain`, over the cell `prev`. The closure has a state of its own beside
-- the system's. `none` is out of fuel.
module _ {X : Type 0} (f : X → System → ℕ → X × System × Bool) where
  unfoldable pub retain_from : ℕ → X → System → Option ℕ → Option ℕ → Option (X × System)
  retain_from fuel x s prev none = some (x, s)
  retain_from zero x s prev (some p) = none
  retain_from (suc fuel) x s prev (some p) =
      let (x', s', keep) = f x s p in
      let prev' = if keep then some p else prev in
      let t = if keep then s' else remove s' prev p in
      retain_from fuel x' t prev' (get_cell t prev')

  unfoldable pub retain : ℕ → X → System → Option (X × System)
  unfolding retain_from
  retain fuel x s = retain_from fuel x s none (get_cell s none)

-- `TimerQueue::next_expiration`: the closure's state is the least time so far.
abbrev pub earliest : ℕ → System → ℕ → ℕ × System × Bool
earliest res s p =
    let expires = (s.headers p).expires_at in (min res expires, s, not (expires == never))

unfoldable pub next_expiration : ℕ → System → Option (ℕ × System)
unfolding retain
next_expiration fuel s = retain earliest fuel never s

-- `TimerQueue::dequeue_expired`.
abbrev pub expire : ℕ → (System → ℕ → System) → Unit {0} → System → ℕ → Unit {0} × System × Bool
expire now on_task u s p =
    if leb (s.headers p).expires_at now then (tt, on_task s p, false) else (tt, s, true)

unfoldable pub dequeue_expired : ℕ → ℕ → (System → ℕ → System) → System → Option (Unit {0} × System)
unfolding retain
dequeue_expired fuel now on_task s = retain (expire now on_task) fuel tt s
