-- ===== src/Executor/TimerQueue/Expiry.antt =====
-- `next_expiration` of the timer queue, against a fold over its tasks.
use embassy.Base.{
  ℕ, ◌≤◌, min, ◌≡◌, refl, ap, ◌∙◌, ◌⊎◌, inl, inr, Bool, true, not, Option, none, some, List, [],
  ◌∷◌, arith, ◌==◌, le-or-lt, length,
}
use embassy.Executor.{System, never, mem}
use embassy.Executor.Chains.{mem_self}
use embassy.Executor.TimerQueue.{remove, earliest, next_expiration}
use embassy.Executor.TimerQueue.Links.{IsTimed}
use embassy.Executor.TimerQueue.Retain.{keep_only, Closure, retain_lem}

abbrev pub All : (ℕ → Type 0) → List ℕ → Type 0
All P [] = Unit {0}
All P (x ∷ xs) = P x × All P xs

abbrev pub expiry : System → ℕ → ℕ
expiry s t = (s.headers t).expires_at

-- Nothing but the timer queue's own fields has changed.
pub record SameElse (s s' : System) : Type 0 where
  pub run_head : s'.run_head ≡ s.run_head
  pub run_next : (u : ℕ) → (s'.headers u).run_next ≡ (s.headers u).run_next
  pub run_queued : (u : ℕ) → (s'.headers u).run_queued ≡ (s.headers u).run_queued
  pub spawned : (u : ℕ) → (s'.headers u).spawned ≡ (s.headers u).spawned
  pub expires : (u : ℕ) → expiry s' u ≡ expiry s u
  pub polls : s'.polls ≡ s.polls
  pub has_alarm : s'.has_alarm ≡ s.has_alarm

pub SameElse-refl : (s : System) → SameElse s s
SameElse-refl s = record {
  run_head = refl;
  run_next = λ u. refl;
  run_queued = λ u. refl;
  spawned = λ u. refl;
  expires = λ u. refl;
  polls = refl;
  has_alarm = refl;
}

pub SameElse-trans : {r s t : System} → SameElse r s → SameElse s t → SameElse r t
SameElse-trans a b = record {
  run_head = b.run_head ∙ a.run_head;
  run_next = λ u. b.run_next u ∙ a.run_next u;
  run_queued = λ u. b.run_queued u ∙ a.run_queued u;
  spawned = λ u. b.spawned u ∙ a.spawned u;
  expires = λ u. b.expires u ∙ a.expires u;
  polls = b.polls ∙ a.polls;
  has_alarm = b.has_alarm ∙ a.has_alarm;
}

pub remove-SameElse : (s : System) (cell : Option ℕ) (p : ℕ) → SameElse s (remove s cell p)
remove-SameElse s none p = record {
  run_head = refl;
  run_next = λ u. ground arith;
  run_queued = λ u. ground arith;
  spawned = λ u. ground arith;
  expires = λ u. ground arith;
  polls = refl;
  has_alarm = refl;
}
remove-SameElse s (some q) p = record {
  run_head = refl;
  run_next = λ u. ground arith;
  run_queued = λ u. ground arith;
  spawned = λ u. ground arith;
  expires = λ u. ground arith;
  polls = refl;
  has_alarm = refl;
}

-- The least of a bound and the times of some tasks.
abbrev pub least : System → ℕ → List ℕ → ℕ
least s bound [] = bound
least s bound (p ∷ rest) = least s (min bound (expiry s p)) rest

pub least-le : (s : System) (bound : ℕ) (tasks : List ℕ) → least s bound tasks ≤ bound
least-le s bound [] = omega arith
least-le s bound (p ∷ rest) = omega (arith, least-le s (min bound (expiry s p)) rest)

pub least-All :
    (s : System) (bound : ℕ) (tasks : List ℕ) → All (λ p. least s bound tasks ≤ expiry s p) tasks
least-All s bound [] = tt
least-All s bound (p ∷ rest) = (
  omega (arith, least-le s (min bound (expiry s p)) rest),
  least-All s (min bound (expiry s p)) rest,
)

-- It is the bound, or the time of one of them.
pub least_reached :
    (s : System) (bound : ℕ) (tasks : List ℕ)
    → (least s bound tasks ≡ bound)
      ⊎ ((p : ℕ) × (mem p tasks ≡ true) × (least s bound tasks ≡ expiry s p))
least_reached s bound [] = inl refl
least_reached s bound (p ∷ rest) = elim (least_reached s (min bound (expiry s p)) rest) [
  | inl e ↦ elim (le-or-lt bound (expiry s p)) [
    | inl le ↦ inl (omega (arith, e))
    | inr lt ↦ inr (p, mem_self p rest, omega (arith, e))
  ]
  | inr (q, m, e) ↦ inr (q, ground (arith, m), e)
]

-- The tasks with a time to wait for.
abbrev pub waits : System → ℕ → Bool
waits s p = not (expiry s p == never)

module _ (start : System) (tasks : List ℕ) where
  record Scanned (res : ℕ) (s : System) (rest : List ℕ) : Type 0 where
    same : SameElse start s
    total : least start res rest ≡ least start never tasks

  earliest-Closure : Closure earliest (waits start) Scanned
  earliest-Closure = record {
    answers = λ x s p rest j. ap (λ e. not (e == never)) (j.same.expires p);
    leaves = λ x s p. record { head = refl; next = λ u. refl; mark = λ u. refl };
    goes_on = λ x s p rest j. record {
      same = j.same;
      total = ap (λ e. least start (min x e) rest) (j.same.expires p) ∙ j.total;
    };
    ignores_links = λ x s rest cell p j. record {
      same = SameElse-trans j.same (remove-SameElse s cell p);
      total = j.total;
    };
  }

-- If the timer queue is linked and the fuel is at least its length, then `next_expiration` ends, with
-- the least time of the tasks in it, or `Instant::MAX` if no task waits; it keeps just the tasks that
-- wait for a time, and changes no other field.
pub next_expiration_lem :
    (fuel : ℕ) (s : System) (tasks : List ℕ)
    → IsTimed s tasks
    → length tasks ≤ fuel
    → (s' : System) × (next_expiration fuel s ≡ some (least s never tasks, s'))
      × All (λ p. least s never tasks ≤ expiry s p) tasks
      × IsTimed s' (keep_only (waits s) tasks)
      × SameElse s s'
unfolding next_expiration
next_expiration_lem fuel s tasks inv le =
    let begin : Scanned s tasks never s tasks = record { same = SameElse-refl s; total = refl } in
    let r =
      retain_lem earliest (waits s) (Scanned s tasks) (earliest-Closure s tasks) fuel never s tasks
        inv begin le in
    let at = r.4.total in
    (r.1, r.2 ∙ ap (λ n. some (n, r.1)) at, least-All s never tasks, r.3, r.4.same)
