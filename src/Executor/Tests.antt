-- ===== src/Executor/Tests.antt =====
-- The executor's theorems at a system of two tasks, and runs of its code.
use embassy.Base.{
  ℕ, ◌≤◌, ◌≡◌, refl, inr, true, false, Option, none, some, List, [], ◌∷◌, ◌++◌, arith, ◌==◌,
  if◌then◌else◌,
}
use embassy.Executor.{new_header, System, new_system, mem, Distinct}
use embassy.Executor.Invariant.{IsLinked}
use embassy.Executor.Invariant.Due.{due}
use embassy.Executor.Invariant.Round.{with_polls, dequeue_all_round}
use embassy.Executor.Invariant.Complete.{IsReached, run_queued_round, run_queued_polls}
use embassy.Executor.Invariant.Timers.{Timed}
use embassy.Executor.RunQueue
use embassy.Executor.Raw.{wake, register, Futures, process, run_queued}
use embassy.Executor.TimerQueue.Links.{IsTimed}
use embassy.Executor.TimerQueue.Expiry.{All, expiry}

-- Task 0 is queued to run; task 1 waits for tick 5.
abbrev two_tasks : System
two_tasks = record new_system {
  headers = λ t.
      if t == 0
      then record new_header { spawned = true; run_queued = true }
      else if t == 1
      then record new_header { spawned = true; timer_queued = true; expires_at = 5 }
      else new_header;
  run_head = some 0;
  timer_head = some 1;
  has_alarm = true;
}

-- Task 0 waits for tick 9 and wakes task 1; task 1 ends.
abbrev two_futures : Futures
two_futures s t = if t == 0 then (register 0 9 ∷ wake 1 ∷ [], false) else ([], true)

two_tasks-IsLinked : IsLinked two_tasks none (0 ∷ []) []
two_tasks-IsLinked = record {
  linked = (refl, refl);
  rest = refl;
  distinct = (refl, tt);
  marked = λ t. ground arith;
}

two_tasks-IsTimed : IsTimed two_tasks (1 ∷ [])
two_tasks-IsTimed = record {
  linked = (refl, refl);
  distinct = (refl, tt);
  marked = λ t. ground arith;
}

-- At tick 6 task 1 is woken by its time and runs first; task 0 wakes it too late and waits for 9.
abbrev polls_of : Option System → List ℕ
polls_of none = []
polls_of (some s) = s.polls

abbrev alarm_of : Option System → Option ℕ
alarm_of none = none
alarm_of (some s) = s.alarm_at

round_at_6 :
    (polls_of (run_queued two_futures 3 6 two_tasks) ≡ 0 ∷ 1 ∷ [])
    × (alarm_of (run_queued two_futures 3 6 two_tasks) ≡ some 9)
unfolding run_queued
round_at_6 = (refl, refl)

dequeue_all_round_example :
    (s' : System) × (next : List ℕ) × (RunQueue.dequeue_all 3 (process two_futures) two_tasks
      ≡ some s')
    × (s'.polls ≡ 0 ∷ [])
    × IsLinked s' none next []
    × Timed s' 2
    × (s'.has_alarm ≡ true)
dequeue_all_round_example =
    dequeue_all_round two_futures 3 two_tasks-IsLinked two_tasks-IsTimed (omega arith)

run_queued_round_example :
    (s' : System) × (woken next waiting : List ℕ) × (at : ℕ) × (run_queued two_futures 3 6 two_tasks
      ≡ some s')
    × (s'.polls ≡ with_polls two_tasks (woken ++ (0 ∷ [])) [])
    × Distinct (woken ++ (0 ∷ []))
    × All (λ t. (mem t (1 ∷ []) ≡ true) × (due 6 two_tasks t ≡ true)) woken
    × IsLinked s' none next []
    × IsTimed s' waiting
    × (s'.alarm_at ≡ some at)
    × (s'.alarm_signals ≡ true)
    × All (λ p. at ≤ expiry s' p) waiting
    × IsReached s' at waiting
run_queued_round_example =
    run_queued_round two_futures 6 3 two_tasks-IsLinked two_tasks-IsTimed refl (omega arith)

run_queued_polls_example :
    (s' : System) × (run_queued two_futures 3 6 two_tasks ≡ some s') × (mem 1 s'.polls ≡ true)
run_queued_polls_example =
    run_queued_polls two_futures 6 3 two_tasks-IsLinked two_tasks-IsTimed refl (omega arith) 1 refl
      (inr (refl, refl))
