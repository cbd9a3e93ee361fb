-- ===== src/Executor/Invariant/Round.antt =====
-- `dequeue_all` with the closure of `run_queued`: the batch is processed whole, once, in order.
use embassy.Base.{
  ℕ, zero, suc, ◌+◌, ◌≤◌, ◌≡◌, refl, sym, ap, ◌∙◌, subst, inl, inr, Bool, true, false, not, Option,
  none, some, List, [], ◌∷◌, ◌++◌, append-nil, arith, ◌==◌, if◌then◌else◌, ==_iff, Bool-cases,
  length,
}
use embassy.Executor.{System, never, set_header, mem, Distinct}
use embassy.Executor.Chains.{
  mem_self, mem-append, Chain-ext, Distinct-middle, mem_middle, mem_append_false, member_ne,
}
use embassy.Executor.Invariant.{run_next_of, IsLinked, same_links-IsLinked}
use embassy.Executor.Invariant.Actions.{Grows, regroup, perform_all-Grows}
use embassy.Executor.Invariant.Timers.{Timed, process-Timed}
use embassy.Executor.TimerQueue.Links.{IsTimed}
use embassy.Executor.Invariant.Keeps.{IsKept, Keeps-trans, Keeps, perform_all-Keeps}
use embassy.Executor.RunQueue
use embassy.Executor.TimerQueue
use embassy.Executor.Raw.{perform_all, Futures, poll, process}

-- What a batch adds to the record of polls: its tasks that are spawned, the last one first.
abbrev pub with_polls : System → List ℕ → List ℕ → List ℕ
with_polls s [] polls = polls
with_polls s (t ∷ batch) polls =
    with_polls s batch (if (s.headers t).spawned then t ∷ polls else polls)

pub with_polls_ext :
    (s s' : System) (batch polls : List ℕ)
    → ((u : ℕ) → mem u batch ≡ true → (s'.headers u).spawned ≡ (s.headers u).spawned)
    → with_polls s' batch polls ≡ with_polls s batch polls
with_polls_ext s s' [] polls same = refl
with_polls_ext s s' (t ∷ batch) polls same =
    rw (same t (mem_self t batch)) (with_polls_ext s s' batch _ (λ u m. same u (ground (arith, m))))

abbrev taken : System → ℕ → System
taken s t = set_header s t (record (s.headers t) { expires_at = never; run_queued = false })

taken-IsLinked :
    (s : System) (cursor : Option ℕ) (t : ℕ) (queue batch : List ℕ)
    → IsLinked s cursor queue (t ∷ batch)
    → IsLinked (taken s t) (run_next_of s t) queue batch
taken-IsLinked s cursor t queue batch inv =
    let middle = Distinct-middle t queue batch inv.distinct in
    record {
      linked =
          Chain-ext (run_next_of s) (run_next_of (taken s t)) s.run_head queue (λ u m. ground arith)
            inv.linked;
      rest =
          Chain-ext (run_next_of s) (run_next_of (taken s t)) (run_next_of s t) batch
            (λ u m. ground arith) inv.rest.1;
      distinct = middle.1;
      marked = λ u.
          ground
            (arith, inv.marked u, mem_middle u t queue batch, middle.0, ==_iff t u, ==_iff u t);
    }

module _ (futures : Futures) where
  poll-Grows :
      {s : System} {cursor : Option ℕ} {queue batch : List ℕ} (t : ℕ)
      → IsLinked s cursor queue batch
      → Grows (poll futures s t) cursor queue batch
  unfolding poll
  poll-Grows {s} t inv =
      let start = record s { polls = t ∷ s.polls } in
      let g =
        perform_all-Grows (futures s t).0
          (same_links-IsLinked inv start refl (λ u. refl) (λ u. refl)) in
      let after = perform_all start (futures s t).0 in
      elim (Bool-cases (futures s t).1) [
        | inl ready ↦
            let done = set_header after t (record (after.headers t) { spawned = false }) in
            rw ready
              (g.0, same_links-IsLinked g.1 done refl (λ u. ground arith) (λ u. ground arith))
        | inr pending ↦ rw pending g
      ]

  update-IsLinked :
      {s : System} {cursor : Option ℕ} {queue batch : List ℕ} (t : ℕ)
      → IsLinked s cursor queue batch
      → IsLinked (TimerQueue.update s t) cursor queue batch
  unfolding TimerQueue.update
  update-IsLinked {s} t inv =
      same_links-IsLinked inv (TimerQueue.update s t) (ground arith) (λ u. ground arith)
        (λ u. ground arith)

  process-Grows :
      {s : System} {cursor : Option ℕ} {queue batch : List ℕ} (t : ℕ)
      → IsLinked s cursor queue (t ∷ batch)
      → Grows (process futures s t) (run_next_of s t) queue batch
  unfolding process
  process-Grows {s} {cursor} {queue} {batch} t inv =
      let ready = taken-IsLinked s cursor t queue batch inv in
      elim (Bool-cases (not (s.headers t).spawned)) [
        | inl dead ↦ rw dead ([], ready)
        | inr live ↦ let g = poll-Grows t ready in rw live (g.0, update-IsLinked t g.1)
      ]

  poll-IsKept : (s : System) (t u : ℕ) → (t == u) ≡ false → IsKept s (poll futures s t) u
  unfolding poll
  poll-IsKept s t u ne =
      let k = perform_all-Keeps (futures s t).0 (record s { polls = t ∷ s.polls }) u in
      elim (Bool-cases (futures s t).1) [
        | inl ready ↦ rw ready (λ m. rw ne (k.0 m))
        | inr pending ↦ rw pending (λ m. k.0 m)
      ]

  poll-polls : (s : System) (t : ℕ) → (poll futures s t).polls ≡ t ∷ s.polls
  unfolding poll
  poll-polls s t =
      let k = perform_all-Keeps (futures s t).0 (record s { polls = t ∷ s.polls }) t in
      elim (Bool-cases (futures s t).1) [ inl ready ↦ rw ready k.1 | inr pending ↦ rw pending k.1 ]

  update-Keeps : (s : System) (t u : ℕ) → Keeps s (TimerQueue.update s t) u
  unfolding TimerQueue.update
  update-Keeps s t u = (λ m. ground arith, ground arith)

  process-IsKept : (s : System) (t u : ℕ) → (t == u) ≡ false → IsKept s (process futures s t) u
  unfolding process
  process-IsKept s t u ne =
      let first : IsKept s (taken s t) u = λ m. rw ne (m, refl) in
      let polled = poll futures (taken s t) t in
      elim (Bool-cases (not (s.headers t).spawned)) [
        | inl dead ↦ rw dead first
        | inr live ↦ rw live (
            Keeps-trans s (taken s t) (TimerQueue.update polled t) u first (
              Keeps-trans (taken s t) polled (TimerQueue.update polled t) u
                (poll-IsKept (taken s t) t u ne) (update-Keeps polled t u).0))
      ]

  process-polls :
      (s : System) (t : ℕ)
      → (process futures s t).polls ≡ (if (s.headers t).spawned then t ∷ s.polls else s.polls)
  unfolding process
  process-polls s t = elim (Bool-cases (s.headers t).spawned) [
    | inl live ↦ ap after live ∙ polled ∙ sym (ap expected live)
    | inr dead ↦ ap after dead ∙ sym (ap expected dead)
  ]
    where
      after : Bool → List ℕ
      after b =
          (if not b then taken s t else TimerQueue.update (poll futures (taken s t) t) t).polls

      expected : Bool → List ℕ
      expected b = if b then t ∷ s.polls else s.polls

      polled : after true ≡ t ∷ s.polls
      polled = (update-Keeps (poll futures (taken s t) t) t t).1 ∙ poll-polls (taken s t) t

  -- The tasks of a batch after the first are spawned or not as before, once the first is processed.
  batch_kept :
      {s : System} {cursor : Option ℕ} {queue batch : List ℕ} (t : ℕ)
      → IsLinked s cursor queue (t ∷ batch)
      → (u : ℕ) → mem u batch ≡ true
      → ((process futures s t).headers u).spawned ≡ (s.headers u).spawned
  batch_kept {s} {queue = queue} {batch = batch} t inv u m =
      let out = mem_append_false t queue batch (Distinct-middle t queue batch inv.distinct).0 in
      let ne = member_ne t u batch out.1 m in
      (process-IsKept s t u ne
        (inv.marked u ∙ ground (arith, mem_middle u t queue batch, mem-append u queue batch))).1

  -- The system after a batch, with its run queue and its timer queue.
  abbrev After : System → Option System → List ℕ → List ℕ → ℕ → Type 0
  After s r queue batch n =
      (s' : System) × (r ≡ some s')
      × Grows s' none queue []
      × (s'.polls ≡ with_polls s batch s.polls)
      × Timed s' (n + length batch)
      × (s'.has_alarm ≡ s.has_alarm)

  walk_all :
      (batch : List ℕ) (fuel n : ℕ) {s : System} {cursor : Option ℕ} {queue : List ℕ}
      → IsLinked s cursor queue batch
      → Timed s n
      → length batch ≤ fuel
      → After s (RunQueue.walk fuel (process futures) s cursor) queue batch n
  unfolding RunQueue.walk
  walk_all [] fuel n {s} {queue = queue} inv timed le = (
    s,
    ap (RunQueue.walk fuel (process futures) s) inv.rest,
    ([], record { linked = inv.linked; rest = refl; distinct = inv.distinct; marked = inv.marked }),
    refl,
    (timed.0, timed.1, omega (arith, timed.2)),
    refl,
  )
  walk_all (t ∷ batch) zero n inv timed le = absurd (omega arith)
  walk_all (t ∷ batch) (suc fuel) n {s} {queue = queue} inv timed le =
      let g = process-Grows t inv in
      let timed' = process-Timed futures s t n timed in
      let s1 = process futures s t in
      let r = walk_all batch fuel (n + 1) g.1 timed'.0 (omega arith) in
      (
        r.0,
        ap (RunQueue.walk (suc fuel) (process futures) s) inv.rest.0 ∙ r.1,
        (r.2.0 ++ g.0, regroup r.2.0 g.0 queue r.2.1),
        r.3
            ∙ ap (with_polls s1 batch) (process-polls s t)
            ∙ with_polls_ext s s1 batch _ (batch_kept t inv),
        (r.4.0, r.4.1, omega (arith, r.4.2)),
        r.5 ∙ timed'.1,
      )

  -- If both queues are linked and the fuel is at least the length of the run queue, then `dequeue_all`
  -- with the closure of `run_queued` ends, for any futures. It polls each task that was queued and
  -- spawned exactly once, in the order of the links, and no other, whatever is woken meanwhile. What
  -- is woken or spawned meanwhile is linked, once, for the next round; the timer queue is linked
  -- again, longer by at most one task for each that was queued; and there is an alarm as before.
  pub dequeue_all_round :
      {s : System} {queue tasks : List ℕ} (fuel : ℕ)
      → IsLinked s none queue []
      → IsTimed s tasks
      → length queue ≤ fuel
      → (s' : System) × (next : List ℕ) × (RunQueue.dequeue_all fuel (process futures) s ≡ some s')
        × (s'.polls ≡ with_polls s queue s.polls)
        × IsLinked s' none next []
        × Timed s' (length tasks + length queue)
        × (s'.has_alarm ≡ s.has_alarm)
  unfolding RunQueue.dequeue_all
  dequeue_all_round {s} {queue} {tasks} fuel inv timed le =
      let emptied = record s { run_head = none } in
      let start : IsLinked emptied s.run_head [] queue = record {
        linked = refl;
        rest = inv.linked;
        distinct = subst Distinct (append-nil queue) inv.distinct;
        marked = λ u. inv.marked u ∙ ap (mem u) (append-nil queue);
      } in
      let timed' : Timed emptied (length tasks) = (
        tasks,
        record { linked = timed.linked; distinct = timed.distinct; marked = timed.marked },
        omega arith,
      ) in
      let r = walk_all queue fuel (length tasks) start timed' le in
      (
        r.0,
        r.2.0 ++ [],
        r.1,
        r.3 ∙ with_polls_ext s emptied queue s.polls (λ u m. refl),
        r.2.1,
        r.4,
        r.5,
      )
