-- ===== src/Executor/Invariant/Timers.antt =====
-- The timer queue while a batch runs: only `update` links a task, at most one for each poll.
use embassy.Base.{
  ℕ, ◌+◌, ◌≤◌, ◌≡◌, refl, sym, ap, ◌∙◌, subst, inl, inr, Bool, true, false, not, Option, some, List,
  [], ◌∷◌, arith, ◌==◌, if◌then◌else◌, ==_iff, ==_refl, Bool-cases, length,
}
use embassy.Executor.{System, never, set_header, mem}
use embassy.Executor.Invariant.Actions.{in_use, allocated, spawn_pool-taken, spawn_pool-free}
use embassy.Executor.Invariant.Due.{enqueue-SameTimers, alarm-enqueue}
use embassy.Executor.RunQueue
use embassy.Executor.Raw.{
  executor_enqueue, spawn_pool, spawner_spawn, register_timer, Action, wake, register, spawn,
  perform, perform_all, Futures, poll, process,
}
use embassy.Executor.Chains.{Chain-ext, member_ne}
use embassy.Executor.TimerQueue
use embassy.Executor.TimerQueue.Links.{timer_next_of, IsTimed}
use embassy.Executor.TimerQueue.Retain.{SameTimers, SameTimers-IsTimed}

-- The timer queue's links and the alarm are as before.
abbrev pub Quiet : System → System → Type 0
Quiet s s' = SameTimers s s' × (s'.has_alarm ≡ s.has_alarm)

Quiet-refl : (s : System) → Quiet s s
Quiet-refl s = (record { head = refl; next = λ u. refl; mark = λ u. refl }, refl)

Quiet-trans : {r s t : System} → Quiet r s → Quiet s t → Quiet r t
Quiet-trans a b = (
  record {
    head = b.0.head ∙ a.0.head;
    next = λ u. b.0.next u ∙ a.0.next u;
    mark = λ u. b.0.mark u ∙ a.0.mark u;
  },
  b.1 ∙ a.1,
)

executor_enqueue-Quiet :
    (s : System) (t : ℕ) → Quiet s (executor_enqueue (set_header s t (allocated s t)) t)
unfolding executor_enqueue RunQueue.enqueue
executor_enqueue-Quiet s t = (
  record { head = ground arith; next = λ u. ground arith; mark = λ u. ground arith },
  ground arith,
)

spawn-Quiet : (s : System) (pool : List ℕ) → Quiet s (perform s (spawn pool))
unfolding perform spawner_spawn spawn_pool
spawn-Quiet s [] = Quiet-refl s
spawn-Quiet s (t ∷ pool) = elim (Bool-cases (in_use (s.headers t))) [
  | inl taken ↦ subst After (sym (spawn_pool-taken s t pool taken)) (spawn-Quiet s pool)
  | inr free ↦ subst After (sym (spawn_pool-free s t pool free)) (executor_enqueue-Quiet s t)
]
  where
    After : System × Option ℕ → Type 0
    After r = Quiet s (spawner_spawn r.0 r.1).0

perform-Quiet : (s : System) (a : Action) → Quiet s (perform s a)
unfolding perform register_timer
perform-Quiet s (wake t) = (enqueue-SameTimers s t, alarm-enqueue s t)
perform-Quiet s (register t at) =
    (record { head = refl; next = λ u. ground arith; mark = λ u. ground arith }, refl)
perform-Quiet s (spawn pool) = spawn-Quiet s pool

perform_all-Quiet : (actions : List Action) (s : System) → Quiet s (perform_all s actions)
unfolding perform_all
perform_all-Quiet [] s = Quiet-refl s
perform_all-Quiet (a ∷ actions) s =
    Quiet-trans (perform-Quiet s a) (perform_all-Quiet actions (perform s a))

-- The timer queue with one more task at most.
abbrev pub Timed : System → ℕ → Type 0
Timed s n = (tasks : List ℕ) × IsTimed s tasks × (length tasks ≤ n)

update-alarm : (s : System) (t : ℕ) → (TimerQueue.update s t).has_alarm ≡ s.has_alarm
unfolding TimerQueue.update
update-alarm s t = ground arith

module _ (s : System) (t : ℕ) where
  abbrev timed_at : System
  timed_at =
      record (set_header s t
        (record (s.headers t) { timer_queued = true; timer_next = s.timer_head })) {
          timer_head = some t;
        }

  timed_at-next : timer_next_of timed_at t ≡ s.timer_head
  timed_at-next = ground (arith, ==_refl t)

  timed_at-next_ne : (u : ℕ) → (t == u) ≡ false → timer_next_of timed_at u ≡ timer_next_of s u
  timed_at-next_ne u ne = ground arith

  -- A task that is not marked is linked in front, and marked.
  timed_at-IsTimed :
      (tasks : List ℕ)
      → IsTimed s tasks
      → (s.headers t).timer_queued ≡ false
      → IsTimed timed_at (t ∷ tasks)
  timed_at-IsTimed tasks inv free =
      let out : mem t tasks ≡ false = sym (inv.marked t) ∙ free in
      record {
        linked = (
          refl,
          rw timed_at-next (
              Chain-ext (timer_next_of s) (timer_next_of timed_at) s.timer_head tasks
                (λ u m. timed_at-next_ne u (member_ne t u tasks out m)) inv.linked),
        );
        distinct = (out, inv.distinct);
        marked = λ u. ground (arith, inv.marked u, ==_iff t u, ==_iff u t);
      }

  update-idle : ((s.headers t).expires_at == never) ≡ true → TimerQueue.update s t ≡ s
  unfolding TimerQueue.update
  update-idle e = ap (λ b. if b then s else if (s.headers t).timer_queued then s else timed_at) e

  update-waits :
      ((s.headers t).expires_at == never) ≡ false
      → (b : Bool) → (s.headers t).timer_queued ≡ b
      → TimerQueue.update s t ≡ (if b then s else timed_at)
  unfolding TimerQueue.update
  update-waits e b q =
      ap (λ b. if b then s else if (s.headers t).timer_queued then s else timed_at) e
      ∙ ap (λ b. if b then s else timed_at) q

  update-Timed : (n : ℕ) → Timed s n → Timed (TimerQueue.update s t) (n + 1)
  update-Timed n (tasks, inv, le) = elim (Bool-cases ((s.headers t).expires_at == never)) [
    | inl idle ↦ subst (λ r. Timed r (n + 1)) (sym (update-idle idle)) (tasks, inv, omega arith)
    | inr waits ↦ elim (Bool-cases (s.headers t).timer_queued) [
      | inl old ↦
          subst (λ r. Timed r (n + 1)) (sym (update-waits waits true old)) (tasks, inv, omega arith)
      | inr new ↦
          subst (λ r. Timed r (n + 1)) (sym (update-waits waits false new))
            (t ∷ tasks, timed_at-IsTimed tasks inv new, omega arith)
    ]
  ]

Quiet-Timed : (s s' : System) (n : ℕ) → Quiet s s' → Timed s n → Timed s' n
Quiet-Timed s s' n q (tasks, inv, le) = (tasks, SameTimers-IsTimed q.0 inv, le)

module _ (futures : Futures) where
  poll-Quiet : (s : System) (t : ℕ) → Quiet s (poll futures s t)
  unfolding poll
  poll-Quiet s t =
      let start = record s { polls = t ∷ s.polls } in
      let same : Quiet s start =
        (record { head = refl; next = λ u. refl; mark = λ u. refl }, refl) in
      let q : Quiet s (perform_all start (futures s t).0) =
        Quiet-trans {s = start} same (perform_all-Quiet (futures s t).0 start) in
      let after = perform_all start (futures s t).0 in
      elim (Bool-cases (futures s t).1) [
        | inl ready ↦ rw ready (
            Quiet-trans q
              (record { head = refl; next = λ u. ground arith; mark = λ u. ground arith }, refl))
        | inr pending ↦ rw pending q
      ]

  -- What one task of the batch does to the timer queue and the alarm.
  pub process-Timed :
      (s : System) (t n : ℕ)
      → Timed s n
      → Timed (process futures s t) (n + 1) × ((process futures s t).has_alarm ≡ s.has_alarm)
  unfolding process
  process-Timed s t n timed =
      let taken =
        set_header s t (record (s.headers t) { expires_at = never; run_queued = false }) in
      let first : Quiet s taken =
        (record { head = refl; next = λ u. ground arith; mark = λ u. ground arith }, refl) in
      let polled = poll futures taken t in
      let q = Quiet-trans first (poll-Quiet taken t) in
      elim (Bool-cases (not (s.headers t).spawned)) [
        | inl dead ↦
            let r = Quiet-Timed s taken n first timed in
            rw dead ((r.0, r.1, omega (arith, r.2)), refl)
        | inr live ↦
            rw live (
              update-Timed polled t n (Quiet-Timed s polled n q timed),
              update-alarm polled t ∙ q.1,
            )
      ]
