-- ===== src/Executor/Invariant/Complete.antt =====
-- A whole round of `Executor::run_queued`.
use embassy.Base.{
  ℕ, ◌+◌, ◌*◌, ◌≤◌, ◌≡◌, refl, sym, ap, ◌∙◌, subst, ◌⊎◌, inl, inr, Bool, true, not, Option, none,
  some, List, [], ◌∷◌, ◌++◌, append-nil, arith, ◌==◌, if◌then◌else◌, Bool-cases, length,
  length-append,
}
use embassy.Executor.{System, never, mem, Distinct}
use embassy.Executor.Chains.{mem_self, mem-append}
use embassy.Executor.Invariant.{IsLinked, same_links-IsLinked}
use embassy.Executor.Invariant.Due.{due, stays, wake_expired-Woken}
use embassy.Executor.Invariant.Round.{with_polls, with_polls_ext, dequeue_all_round}
use embassy.Executor.RunQueue
use embassy.Executor.Raw.{Futures, process, set_alarm, wake_expired, run_queued}
use embassy.Executor.TimerQueue.Links.{IsTimed}
use embassy.Executor.TimerQueue.Retain.{keep_only}
use embassy.Executor.TimerQueue.Expiry.{
  All, expiry, least, least_reached, waits, next_expiration_lem,
}

All-keep_only :
    (P : ℕ → Type 0) (keep : ℕ → Bool) (tasks : List ℕ) → All P tasks → All P (keep_only keep tasks)
All-keep_only P keep [] a = tt
All-keep_only P keep (x ∷ xs) a = elim (Bool-cases (keep x)) [
  | inl kept ↦ rw kept (a.0, All-keep_only P keep xs a.1)
  | inr gone ↦ rw gone (All-keep_only P keep xs a.1)
]

All-ext :
    (s s' : System) (at : ℕ) (tasks : List ℕ)
    → ((u : ℕ) → expiry s' u ≡ expiry s u)
    → All (λ p. at ≤ expiry s p) tasks
    → All (λ p. at ≤ expiry s' p) tasks
All-ext s s' at [] same a = tt
All-ext s s' at (x ∷ xs) same a = (rw (same x) a.0, All-ext s s' at xs same a.1)

mem-keep_only :
    (keep : ℕ → Bool) (p : ℕ) (tasks : List ℕ)
    → mem p tasks ≡ true
    → keep p ≡ true
    → mem p (keep_only keep tasks) ≡ true
mem-keep_only keep p [] m k = m
mem-keep_only keep p (x ∷ xs) m k = elim (Bool-cases (p == x)) [
  | inl same ↦
      let e : x ≡ p = ground arith in
      rw (subst (λ y. keep y ≡ true) (sym e) k)
        (subst (λ y. mem p (y ∷ keep_only keep xs) ≡ true) (sym e) (mem_self p _))
  | inr other ↦ elim (Bool-cases (keep x)) [
    | inl kept ↦ rw kept (rw other (mem-keep_only keep p xs (ground (arith, m, other)) k))
    | inr gone ↦ rw gone (mem-keep_only keep p xs (ground (arith, m, other)) k)
  ]
]

All-mem : (P : ℕ → Type 0) (tasks : List ℕ) → ((t : ℕ) → mem t tasks ≡ true → P t) → All P tasks
All-mem P [] all = tt
All-mem P (x ∷ xs) all = (all x (mem_self x xs), All-mem P xs (λ t m. all t (ground (arith, m))))

-- The time `at` is never, or that of one of the tasks.
abbrev pub IsReached : System → ℕ → List ℕ → Type 0
IsReached s at tasks = (at ≡ never) ⊎ ((p : ℕ) × (mem p tasks ≡ true) × (at ≡ expiry s p))

least-IsReached :
    (s s' : System) (tasks : List ℕ)
    → ((u : ℕ) → expiry s' u ≡ expiry s u)
    → IsReached s' (least s never tasks) (keep_only (waits s) tasks)
least-IsReached s s' tasks same = elim (least_reached s never tasks) [
  | inl none_waits ↦ inl none_waits
  | inr (p, m, e) ↦ elim (Bool-cases (expiry s p == never)) [
    | inl no_time ↦ inl (ground (arith, e, no_time))
    | inr time ↦ inr (p, mem-keep_only (waits s) p tasks m (ap not time), e ∙ sym (same p))
  ]
]

length-keep_only : (keep : ℕ → Bool) (tasks : List ℕ) → length (keep_only keep tasks) ≤ length tasks
length-keep_only keep [] = omega arith
length-keep_only keep (x ∷ xs) = ground (arith, length-keep_only keep xs)

mem-with_polls_acc :
    (s : System) (t : ℕ) (batch polls : List ℕ)
    → mem t polls ≡ true
    → mem t (with_polls s batch polls) ≡ true
mem-with_polls_acc s t [] polls m = m
mem-with_polls_acc s t (x ∷ batch) polls m = mem-with_polls_acc s t batch _ (ground (arith, m))

mem-with_polls :
    (s : System) (t : ℕ) (batch polls : List ℕ)
    → mem t batch ≡ true
    → (s.headers t).spawned ≡ true
    → mem t (with_polls s batch polls) ≡ true
mem-with_polls s t [] polls m live = cc
mem-with_polls s t (x ∷ batch) polls m live = elim (Bool-cases (t == x)) [
  | inl same ↦
      let e : x ≡ t = ground arith in
      mem-with_polls_acc s t batch _ (
        subst (λ v. mem t (if (s.headers v).spawned then v ∷ polls else polls) ≡ true) (sym e)
          (rw live (mem_self t polls)))
  | inr other ↦ mem-with_polls s t batch _ (ground arith) live
]

-- What a round leaves: `woken` are the tasks that their time has woken.
record Round (s s' : System) (queue tasks : List ℕ) (now : ℕ) : Type 0 where
  woken : List ℕ
  next : List ℕ
  waiting : List ℕ
  at : ℕ
  polled : s'.polls ≡ with_polls s (woken ++ queue) s.polls
  due_woken :
      (t : ℕ)
      → mem t tasks ≡ true
      → due now s t ≡ true
      → (s.headers t).spawned ≡ true
      → mem t (woken ++ queue) ≡ true
  distinct : Distinct (woken ++ queue)
  due_only : All (λ t. (mem t tasks ≡ true) × (due now s t ≡ true)) woken
  linked : IsLinked s' none next []
  timed : IsTimed s' waiting
  alarm : s'.alarm_at ≡ some at
  signals : s'.alarm_signals ≡ true
  soonest : All (λ p. at ≤ expiry s' p) waiting
  reached : IsReached s' at waiting

set_alarm_lem :
    (fuel : ℕ) {s : System} {next tasks : List ℕ}
    → IsLinked s none next []
    → IsTimed s tasks
    → s.has_alarm ≡ true
    → length tasks ≤ fuel
    → (s' : System) × (at : ℕ) × (waiting : List ℕ) × (set_alarm fuel s ≡ some s')
      × (s'.polls ≡ s.polls)
      × IsLinked s' none next []
      × IsTimed s' waiting
      × (s'.alarm_at ≡ some at)
      × (s'.alarm_signals ≡ true)
      × All (λ p. at ≤ expiry s' p) waiting
      × IsReached s' at waiting
unfolding set_alarm
set_alarm_lem fuel {s} {next} {tasks} inv timed alarm le =
    let r = next_expiration_lem fuel s tasks timed le in
    let at = least s never tasks in
    let s' = record (r.0) { alarm_signals = true; alarm_at = some at } in
    let e = r.4 in
    let kept = keep_only (waits s) tasks in
    (
      s',
      at,
      kept,
      rw alarm (ap answer r.1),
      e.polls,
      same_links-IsLinked inv s' e.run_head e.run_next e.run_queued,
      record { linked = r.3.linked; distinct = r.3.distinct; marked = r.3.marked },
      refl,
      refl,
      All-keep_only (λ p. at ≤ expiry s' p) (waits s) tasks (All-ext s s' at tasks e.expires r.2),
      least-IsReached s s' tasks e.expires,
    )
  where
    answer : Option (ℕ × System) → Option System
    answer o = elim o [
      | none ↦ none
      | some (at, s') ↦ some (record s' { alarm_signals = true; alarm_at = some at })
    ]

module _ (futures : Futures) (now fuel : ℕ) {s : System} {queue tasks : List ℕ}
    (inv : IsLinked s none queue []) (timed : IsTimed s tasks) (alarm : s.has_alarm ≡ true)
    (enough : length queue + 2 * length tasks ≤ fuel) where
  stages :
      (w r s' : System)
      → wake_expired fuel now s ≡ some w
      → RunQueue.dequeue_all fuel (process futures) w ≡ some r
      → set_alarm fuel r ≡ some s'
      → run_queued futures fuel now s ≡ some s'
  unfolding run_queued
  stages w r s' e1 e2 e3 = ap second e1 ∙ ap third e2 ∙ e3
    where
      third : Option System → Option System
      third o = elim o [ none ↦ none | some ran ↦ set_alarm fuel ran ]

      second : Option System → Option System
      second o = elim o [
        | none ↦ none
        | some woken ↦ third (RunQueue.dequeue_all fuel (process futures) woken)
      ]

  -- All stages of the round.
  round : (s' : System) × (run_queued futures fuel now s ≡ some s') × Round s s' queue tasks now
  round =
      let w = wake_expired-Woken now fuel inv timed alarm (omega arith) in
      let j = w.3 in
      let stay = stays now s queue tasks in
      let short = length-keep_only stay tasks in
      let grown = length-append {0} j.new queue in
      let few = j.few in
      let d = dequeue_all_round futures fuel j.queued w.2 (omega arith) in
      let timers = d.5 in
      let a = set_alarm_lem fuel d.4 timers.1 (d.6 ∙ j.alarm ∙ alarm) (omega (arith, timers.2)) in
      (
        a.0,
        stages w.0 d.0 a.0 w.1 d.2 a.3,
        record {
          woken = j.new;
          next = d.1;
          waiting = a.2;
          at = a.1;
          polled =
              a.4
              ∙ d.3
              ∙ ap (with_polls w.0 (j.new ++ queue)) j.polls
              ∙ with_polls_ext s w.0 (j.new ++ queue) s.polls (λ u m. j.spawned u);
          due_woken = λ t m is_due live.
              ap (mem t) (sym (append-nil (j.new ++ queue)))
              ∙ sym (j.queued.marked t)
              ∙ j.marked t m is_due live refl;
          distinct = subst Distinct (append-nil (j.new ++ queue)) j.queued.distinct;
          due_only = All-mem _ j.new j.due_only;
          linked = a.5;
          timed = a.6;
          alarm = a.7;
          signals = a.8;
          soonest = a.9;
          reached = a.10;
        },
      )

  -- If both queues are linked, the executor has an alarm, and the fuel is at least the length of the
  -- run queue and twice that of the timer queue, then `run_queued` ends, for any futures. It polls
  -- the spawned tasks of one batch in its order, which is the run queue with the tasks that it has
  -- woken in front, in which no task stands twice. Those that it has woken are tasks of the timer queue
  -- whose time has come. Both queues are linked after it, the run queue with what was woken meanwhile.
  -- The alarm has the executor's signal as its callback, and is set to the least time of the tasks in
  -- the timer queue, or to the greatest instant if none waits.
  pub run_queued_round :
      (s' : System) × (woken next waiting : List ℕ) × (at : ℕ) × (run_queued futures fuel now s
        ≡ some s')
      × (s'.polls ≡ with_polls s (woken ++ queue) s.polls)
      × Distinct (woken ++ queue)
      × All (λ t. (mem t tasks ≡ true) × (due now s t ≡ true)) woken
      × IsLinked s' none next []
      × IsTimed s' waiting
      × (s'.alarm_at ≡ some at)
      × (s'.alarm_signals ≡ true)
      × All (λ p. at ≤ expiry s' p) waiting
      × IsReached s' at waiting
  run_queued_round =
      let (s', e, r) = round in
      (
        s', r.woken, r.next, r.waiting, r.at, e, r.polled, r.distinct, r.due_only, r.linked,
        r.timed, r.alarm, r.signals, r.soonest, r.reached,
      )

  -- Under the same conditions a spawned task that is queued to run, or whose time in the timer queue
  -- has come, is polled in the round.
  pub run_queued_polls :
      (t : ℕ)
      → (s.headers t).spawned ≡ true
      → ((mem t queue ≡ true) ⊎ ((mem t tasks ≡ true) × (due now s t ≡ true)))
      → (s' : System) × (run_queued futures fuel now s ≡ some s') × (mem t s'.polls ≡ true)
  run_queued_polls t live ready =
      let (s', e, r) = round in
      (
        s',
        e,
        ap (mem t) r.polled ∙ mem-with_polls s t (r.woken ++ queue) s.polls (within r ready) live,
      )
    where
      within :
          {s' : System} (r : Round s s' queue tasks now)
          → ((mem t queue ≡ true) ⊎ ((mem t tasks ≡ true) × (due now s t ≡ true)))
          → mem t (r.woken ++ queue) ≡ true
      within r (inl m) = ground (arith, mem-append t r.woken queue)
      within r (inr d) = r.due_woken t d.0 d.1 live
