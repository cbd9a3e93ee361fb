-- ===== src/Executor/Invariant/Due.antt =====
-- The first part of `run_queued`: every task whose time has come leaves the timer queue, and is woken.
use embassy.Base.{
  ℕ, ◌+◌, ◌≤◌, ◌≡◌, refl, sym, ap, ◌∙◌, subst, inl, inr, Bool, true, false, not, Option, none, some,
  List, [], ◌∷◌, ◌++◌, arith, leb, ◌==◌, if◌then◌else◌, ==_refl, Bool-cases, length, length-append,
}
use embassy.Executor.{System, mem}
use embassy.Executor.Chains.{mem_self, mem-append}
use embassy.Executor.Invariant.{IsLinked, same_links-IsLinked}
use embassy.Executor.Invariant.Actions.{regroup, enqueue_one}
use embassy.Executor.Invariant.Keeps.{enqueue-Keeps}
use embassy.Executor.RunQueue
use embassy.Executor.Raw.{executor_enqueue, enqueue, wake_expired}
use embassy.Executor.TimerQueue.{remove, expire, dequeue_expired}
use embassy.Executor.TimerQueue.Links.{IsTimed}
use embassy.Executor.TimerQueue.Retain.{keep_only, SameTimers, Closure, retain_lem}
use embassy.Executor.TimerQueue.Expiry.{expiry, remove-SameElse}

-- `wake` changes nothing of the timer queue, of the times, and of what is spawned.
module _ (s : System) (t : ℕ) where
  pub enqueue-SameTimers : SameTimers s (enqueue s t)
  unfolding enqueue executor_enqueue RunQueue.enqueue
  enqueue-SameTimers = record {
    head = ground arith;
    next = λ u. ground arith;
    mark = λ u. ground arith;
  }

  expiry-enqueue : (u : ℕ) → expiry (enqueue s t) u ≡ expiry s u
  unfolding enqueue executor_enqueue RunQueue.enqueue
  expiry-enqueue u = ground arith

  pub spawned-enqueue : (u : ℕ) → ((enqueue s t).headers u).spawned ≡ (s.headers u).spawned
  unfolding enqueue executor_enqueue RunQueue.enqueue
  spawned-enqueue u = ground arith

  pub alarm-enqueue : (enqueue s t).has_alarm ≡ s.has_alarm
  unfolding enqueue executor_enqueue RunQueue.enqueue
  alarm-enqueue = ground arith

  -- A spawned task is marked after it is woken, whether it was before or not.
  pub enqueue_marks : (s.headers t).spawned ≡ true → ((enqueue s t).headers t).run_queued ≡ true
  unfolding enqueue executor_enqueue RunQueue.enqueue
  enqueue_marks live = ground (arith, ==_refl t)

abbrev pub due : ℕ → System → ℕ → Bool
due now s p = leb (expiry s p) now

-- The closure of `dequeue_expired` after some tasks of the queue, from the state `start`.
module _ (now : ℕ) (start : System) (queue tasks : List ℕ) where
  pub record Woken (u : Unit {0}) (s : System) (rest : List ℕ) : Type 0 where
    pub expires : (t : ℕ) → expiry s t ≡ expiry start t
    pub spawned : (t : ℕ) → (s.headers t).spawned ≡ (start.headers t).spawned
    pub polls : s.polls ≡ start.polls
    pub alarm : s.has_alarm ≡ start.has_alarm
    pub new : List ℕ
    pub queued : IsLinked s none (new ++ queue) []
    pub few : length new + length rest ≤ length tasks
    pub marked :
        (t : ℕ)
        → mem t tasks ≡ true
        → due now start t ≡ true
        → (start.headers t).spawned ≡ true
        → mem t rest ≡ false
        → (s.headers t).run_queued ≡ true
    pub within : (t : ℕ) → mem t rest ≡ true → mem t tasks ≡ true
    pub due_only : (t : ℕ) → mem t new ≡ true → (mem t tasks ≡ true) × (due now start t ≡ true)

  abbrev pub stays : ℕ → Bool
  stays p = not (due now start p)

  -- One task that is due.
  Woken-due :
      (s : System) (p : ℕ) (rest : List ℕ)
      → due now start p ≡ true
      → Woken tt s (p ∷ rest)
      → Woken tt (enqueue s p) rest
  Woken-due s p rest now_due j =
      let one = enqueue_one j.queued p in
      record {
        expires = λ t. expiry-enqueue s p t ∙ j.expires t;
        spawned = λ t. spawned-enqueue s p t ∙ j.spawned t;
        polls = (enqueue-Keeps s p p).1 ∙ j.polls;
        alarm = alarm-enqueue s p ∙ j.alarm;
        new = one.0 ++ j.new;
        queued = regroup one.0 j.new queue one.1;
        few = omega (arith, length-append {0} one.0 j.new, one.2, j.few);
        within = λ t m. j.within t (ground (arith, m));
        due_only = λ t m. elim (Bool-cases (mem t one.0)) [
          | inl added ↦
              let e : t ≡ p = one.3 t added in
              (
                j.within t (subst (λ v. mem v (p ∷ rest) ≡ true) (sym e) (mem_self p rest)),
                subst (λ v. due now start v ≡ true) (sym e) now_due,
              )
          | inr old ↦ j.due_only t (ground (arith, mem-append t one.0 j.new, m, old))
        ];
        marked = λ t m d live out. elim (Bool-cases (t == p)) [
          | inl same ↦
              let e : t ≡ p = ground arith in
              subst (λ v. ((enqueue s p).headers v).run_queued ≡ true) (sym e)
                (enqueue_marks s p
                  (j.spawned p ∙ subst (λ v. (start.headers v).spawned ≡ true) e live))
          | inr other ↦ ((enqueue-Keeps s p t).0 (j.marked t m d live (ground arith))).0
        ];
      }

  -- One task that is not.
  Woken-later :
      (s : System) (p : ℕ) (rest : List ℕ)
      → due now start p ≡ false
      → Woken tt s (p ∷ rest)
      → Woken tt s rest
  Woken-later s p rest later j = record {
    expires = j.expires;
    spawned = j.spawned;
    polls = j.polls;
    alarm = j.alarm;
    new = j.new;
    queued = j.queued;
    few = omega (arith, j.few);
    within = λ t m. j.within t (ground (arith, m));
    due_only = j.due_only;
    marked = λ t m d live out. elim (Bool-cases (t == p)) [
      | inl same ↦
          let e : t ≡ p = ground arith in cc (sym later ∙ subst (λ v. due now start v ≡ true) e d)
      | inr other ↦ j.marked t m d live (ground arith)
    ];
  }

  expire_due :
      (s : System) (p : ℕ)
      → leb (expiry s p) now ≡ true
      → expire now enqueue tt s p ≡ (tt, enqueue s p, false)
  expire_due s p d = ap (λ b. if b then (tt, enqueue s p, false) else (tt, s, true)) d

  expire_later :
      (s : System) (p : ℕ)
      → leb (expiry s p) now ≡ false
      → expire now enqueue tt s p ≡ (tt, s, true)
  expire_later s p d = ap (λ b. if b then (tt, enqueue s p, false) else (tt, s, true)) d

  expire-SameTimers : (s : System) (p : ℕ) → SameTimers s (expire now enqueue tt s p).1
  expire-SameTimers s p = elim (Bool-cases (leb (expiry s p) now)) [
    | inl d ↦
        subst (λ (r : Unit {0} × System × Bool). SameTimers s r.1) (sym (expire_due s p d))
          (enqueue-SameTimers s p)
    | inr d ↦
        subst (λ (r : Unit {0} × System × Bool). SameTimers s r.1) (sym (expire_later s p d))
          (record { head = refl; next = λ u. refl; mark = λ u. refl })
  ]

  expire-Woken :
      (s : System) (p : ℕ) (rest : List ℕ)
      → Woken tt s (p ∷ rest)
      → ((expire now enqueue tt s p).2 ≡ stays p) × Woken tt (expire now enqueue tt s p).1 rest
  expire-Woken s p rest j =
      let same : leb (expiry s p) now ≡ due now start p = ap (λ e. leb e now) (j.expires p) in
      elim (Bool-cases (leb (expiry s p) now)) [
        | inl d ↦
            subst (λ (r : Unit {0} × System × Bool). (r.2 ≡ stays p) × Woken tt r.1 rest)
              (sym (expire_due s p d)) (ap not (sym d ∙ same), Woken-due s p rest (sym same ∙ d) j)
        | inr d ↦
            subst (λ (r : Unit {0} × System × Bool). (r.2 ≡ stays p) × Woken tt r.1 rest)
              (sym (expire_later s p d))
              (ap not (sym d ∙ same), Woken-later s p rest (sym same ∙ d) j)
      ]

  Woken-remove :
      (s : System) (rest : List ℕ) (cell : Option ℕ) (p : ℕ)
      → Woken tt s rest
      → Woken tt (remove s cell p) rest
  Woken-remove s rest cell p j =
      let e = remove-SameElse s cell p in
      record {
        expires = λ t. e.expires t ∙ j.expires t;
        spawned = λ t. e.spawned t ∙ j.spawned t;
        polls = e.polls ∙ j.polls;
        alarm = e.has_alarm ∙ j.alarm;
        new = j.new;
        queued = same_links-IsLinked j.queued (remove s cell p) e.run_head e.run_next e.run_queued;
        few = j.few;
        within = j.within;
        due_only = j.due_only;
        marked = λ t m d live out. e.run_queued t ∙ j.marked t m d live out;
      }

  expire-Closure : Closure (expire now enqueue) stays Woken
  expire-Closure = record {
    answers = λ u s p rest j. (expire-Woken s p rest j).0;
    leaves = λ u s p. expire-SameTimers s p;
    goes_on = λ u s p rest j. (expire-Woken s p rest j).1;
    ignores_links = λ u s rest cell p j. Woken-remove s rest cell p j;
  }

  Woken-start : IsLinked start none queue [] → Woken tt start tasks
  Woken-start inv = record {
    expires = λ t. refl;
    spawned = λ t. refl;
    polls = refl;
    alarm = refl;
    new = [];
    queued = inv;
    few = omega arith;
    within = λ t m. m;
    due_only = λ t m. cc;
    marked = λ t m d live out. cc (sym m ∙ out);
  }

pub wake_expired-Woken :
    (now fuel : ℕ) {s : System} {queue tasks : List ℕ}
    → IsLinked s none queue []
    → IsTimed s tasks
    → s.has_alarm ≡ true
    → length tasks ≤ fuel
    → (s' : System) × (wake_expired fuel now s ≡ some s')
      × IsTimed s' (keep_only (stays now s queue tasks) tasks)
      × Woken now s queue tasks tt s' []
unfolding wake_expired dequeue_expired
wake_expired-Woken now fuel {s} {queue} {tasks} inv timed alarm le =
    let close = expire-Closure now s queue tasks in
    let begin = Woken-start now s queue tasks inv in
    let r =
      retain_lem (expire now enqueue) (stays now s queue tasks) (Woken now s queue tasks) close fuel
        tt s tasks timed begin le in
    (r.1, rw alarm (ap answer r.2), r.3, r.4)
  where
    answer : Option (Unit {0} × System) → Option System
    answer o = elim o [ none ↦ none | some (u, s') ↦ some s' ]

-- If both queues are linked, the executor has an alarm, and the fuel is at least the length of the
-- timer queue, then waking the tasks that are due ends. It leaves in the timer queue just the tasks
-- that are not due, adds at most as many tasks to the run queue as the timer queue had, and marks
-- every spawned task of the timer queue that was due.
wake_expired_lem :
    (now fuel : ℕ) {s : System} {queue tasks : List ℕ} (t : ℕ)
    → IsLinked s none queue []
    → IsTimed s tasks
    → s.has_alarm ≡ true
    → length tasks ≤ fuel
    → mem t tasks ≡ true
    → due now s t ≡ true
    → (s.headers t).spawned ≡ true
    → (s' : System) × (new : List ℕ) × (wake_expired fuel now s ≡ some s')
      × IsLinked s' none (new ++ queue) []
      × (length new ≤ length tasks)
      × IsTimed s' (keep_only (λ p. not (due now s p)) tasks)
      × ((s'.headers t).run_queued ≡ true)
wake_expired_lem now fuel t inv timed alarm le m d live =
    let r = wake_expired-Woken now fuel inv timed alarm le in
    let w = r.3 in (r.0, w.new, r.1, w.queued, omega (arith, w.few), r.2, w.marked t m d live refl)
