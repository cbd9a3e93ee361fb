-- ===== src/Executor/Invariant.antt =====
-- The run queue's invariant: what is linked from its head is linked once and is just what is marked.
pub mod Actions
pub mod Keeps
pub mod Round
pub mod Due
pub mod Timers
pub mod Complete
use embassy.Base.{
  ℕ, ◌≡◌, sym, ◌∙◌, true, false, Option, some, List, ◌∷◌, ◌++◌, arith, ◌==◌, if◌then◌else◌,
}
use embassy.Executor.{TaskHeader, System, set_header, mem, Chain, Distinct}
use embassy.Executor.Chains.{Chain-ext, mem_append_false, member_ne}
use embassy.Executor.RunQueue
use embassy.Executor.Raw.{executor_enqueue}

abbrev pub run_next_of : System → ℕ → Option ℕ
run_next_of s t = (s.headers t).run_next

-- `queue` is linked from the head, `batch` is what a walk at `cursor` has left to process. No task
-- stands in them twice, and the tasks marked RUN_QUEUED are those in them.
pub record IsLinked (s : System) (cursor : Option ℕ) (queue batch : List ℕ) : Type 0 where
  pub linked : Chain (run_next_of s) s.run_head queue
  pub rest : Chain (run_next_of s) cursor batch
  pub distinct : Distinct (queue ++ batch)
  pub marked : (t : ℕ) → (s.headers t).run_queued ≡ mem t (queue ++ batch)

-- What `Executor::enqueue` of a header that was just stored leaves.
module _ (s : System) (t : ℕ) (h : TaskHeader) where
  abbrev pub linked_at : System
  linked_at = executor_enqueue (set_header s t h) t

  head-executor_enqueue : linked_at.run_head ≡ some t
  unfolding executor_enqueue RunQueue.enqueue
  head-executor_enqueue = ground arith

  next-executor_enqueue_self : run_next_of linked_at t ≡ s.run_head
  unfolding executor_enqueue RunQueue.enqueue
  next-executor_enqueue_self = ground arith

  next-executor_enqueue : (u : ℕ) → (t == u) ≡ false → run_next_of linked_at u ≡ run_next_of s u
  unfolding executor_enqueue RunQueue.enqueue
  next-executor_enqueue u ne = ground arith

  pub marks-executor_enqueue :
      (u : ℕ)
      → (linked_at.headers u).run_queued
        ≡ (if t == u then h.run_queued else (s.headers u).run_queued)
  unfolding executor_enqueue RunQueue.enqueue
  marks-executor_enqueue u = ground arith

  pub spawned-executor_enqueue :
      (u : ℕ)
      → (linked_at.headers u).spawned ≡ (if t == u then h.spawned else (s.headers u).spawned)
  unfolding executor_enqueue RunQueue.enqueue
  spawned-executor_enqueue u = ground arith

  pub polls-executor_enqueue : linked_at.polls ≡ s.polls
  unfolding executor_enqueue RunQueue.enqueue
  polls-executor_enqueue = ground arith

module _ {s : System} {cursor : Option ℕ} {queue batch : List ℕ}
    (inv : IsLinked s cursor queue batch) where
  -- A task that is not marked is linked in front, and marked.
  pub executor_enqueue-IsLinked :
      (t : ℕ) (h : TaskHeader)
      → (s.headers t).run_queued ≡ false
      → h.run_queued ≡ true
      → IsLinked (executor_enqueue (set_header s t h) t) cursor (t ∷ queue) batch
  executor_enqueue-IsLinked t h free m =
      let out : mem t (queue ++ batch) ≡ false = sym (inv.marked t) ∙ free in
      let outs = mem_append_false t queue batch out in
      let s' = executor_enqueue (set_header s t h) t in
      let same = λ (u : ℕ). next-executor_enqueue s t h u in
      record {
        linked = (
          head-executor_enqueue s t h,
          rw (next-executor_enqueue_self s t h) (
              Chain-ext (run_next_of s) (run_next_of s') s.run_head queue
                (λ u i. same u (member_ne t u queue outs.0 i)) inv.linked),
        );
        rest =
            Chain-ext (run_next_of s) (run_next_of s') cursor batch
              (λ u i. same u (member_ne t u batch outs.1 i)) inv.rest;
        distinct = (out, inv.distinct);
        marked = λ u. marks-executor_enqueue s t h u ∙ ground (arith, inv.marked u);
      }

  -- A change of headers that leaves the run queue's fields alone keeps the invariant.
  pub same_links-IsLinked :
      (s' : System)
      → s'.run_head ≡ s.run_head
      → ((u : ℕ) → run_next_of s' u ≡ run_next_of s u)
      → ((u : ℕ) → (s'.headers u).run_queued ≡ (s.headers u).run_queued)
      → IsLinked s' cursor queue batch
  same_links-IsLinked s' head next marks = record {
    linked =
        rw head
          (Chain-ext (run_next_of s) (run_next_of s') s.run_head queue (λ u i. next u) inv.linked);
    rest = Chain-ext (run_next_of s) (run_next_of s') cursor batch (λ u i. next u) inv.rest;
    distinct = inv.distinct;
    marked = λ u. marks u ∙ inv.marked u;
  }
