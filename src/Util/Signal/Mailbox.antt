-- ===== src/Util/Signal/Mailbox.antt =====
-- A signal that one task waits on is a mailbox that keeps the last value.
use mathlib.Core.Option
use embassy.Base.{
  ℕ, ◌≡◌, refl, sym, ap, ap₂, ◌∙◌, subst, Bool, true, false, Option, none, some, List, [], ◌∷◌,
  arith, ◌==◌, ==_refl,
}
use embassy.Poll.{Poll, pending, ready}
use embassy.Executor.{System}
use embassy.Executor.Raw.{}
use embassy.Executor.Invariant.Due.{enqueue_marks}
use embassy.Util.Signal.{
  State, no_value, waiting, signaled_with, Signal, new_signal, signal, reset, poll_wait, signaled,
}

-- What is done with a signal: by anyone, or a poll by the task.
pub data Op (T : Type 0) : Type 0 where
  send : T → Op T
  clear_it : Op T
  ask : Op T
  look : Op T

pub data Answer (T : Type 0) : Type 0 where
  polled : Poll T → Answer T
  seen : Bool → Answer T

module _ {T : Type 0} where
  -- The answers, in order, and the signal and the executor's state after.
  unfoldable pub run :
      ℕ → List (Op T) → Signal T → System → Option (List (Answer T) × Signal T × System)
  unfolding signal reset poll_wait signaled
  run t [] g s = some ([], g, s)
  run t (send v ∷ ops) g s = let (g', s') = signal v g s in run t ops g' s'
  run t (clear_it ∷ ops) g s = run t ops (reset g) s
  run t (look ∷ ops) g s = Option.map (λ o. (seen (signaled g) ∷ o.0, o.1, o.2)) (run t ops g s)
  run t (ask ∷ ops) g s = elim (poll_wait t g) [
    | none ↦ none
    | some (p, g') ↦ Option.map (λ o. (polled p ∷ o.0, o.1, o.2)) (run t ops g' s)
  ]

  -- The mailbox: what the same operations answer, and what is left in it.
  abbrev pub taken : Option T → Poll T
  taken none = pending
  taken (some v) = ready v

  abbrev pub is_full : Option T → Bool
  is_full none = false
  is_full (some v) = true

  abbrev pub answers : List (Op T) → Option T → List (Answer T)
  answers [] box = []
  answers (send v ∷ ops) box = answers ops (some v)
  answers (clear_it ∷ ops) box = answers ops none
  answers (look ∷ ops) box = seen (is_full box) ∷ answers ops box
  answers (ask ∷ ops) box = polled (taken box) ∷ answers ops none

  -- Only the task `t` may wait.
  abbrev pub OnlyBy : ℕ → Option T → State T → Type 0
  OnlyBy t box no_value = box ≡ none
  OnlyBy t box (waiting w) = (w ≡ t) × (box ≡ none)
  OnlyBy t box (signaled_with v) = box ≡ some v

  abbrev Runs : ℕ → List (Op T) → State T → Option T → System → Type 0
  Runs t ops st box s =
      (o : List (Answer T) × Signal T × System) × (run t ops (record { state = st }) s ≡ some o)
      × (o.0 ≡ answers ops box)

  abbrev answered :
      Answer T
      → Option (List (Answer T) × Signal T × System)
      → Option (List (Answer T) × Signal T × System)
  answered a = Option.map (λ o. (a ∷ o.0, o.1, o.2))

  -- An operation that answers, before others.
  Runs-answer :
      (t : ℕ) (op : Op T) (ops : List (Op T)) (st st' : State T) (box box' : Option T) (s : System)
      (a a' : Answer T)
      → Runs t ops st' box' s
      → run t (op ∷ ops) (record { state = st }) s
        ≡ answered a (run t ops (record { state = st' }) s)
      → a ≡ a'
      → answers (op ∷ ops) box ≡ a' ∷ answers ops box'
      → Runs t (op ∷ ops) st box s
  Runs-answer t op ops st st' box box' s a a' (o, e, b) step same spec =
      ((a ∷ o.0, o.1, o.2), step ∙ ap (answered a) e, ap₂ (λ x xs. x ∷ xs) same b ∙ sym spec)

  signaled-is_full :
      (t : ℕ) (st : State T) (box : Option T)
      → OnlyBy t box st
      → signaled (record { state = st }) ≡ is_full box
  unfolding signaled
  signaled-is_full t no_value box h = ap is_full (sym h)
  signaled-is_full t (waiting w) box h = ap is_full (sym h.1)
  signaled-is_full t (signaled_with v) box h = ap is_full (sym h)

  waits_again :
      (t w : ℕ) (ops : List (Op T)) (s : System)
      → w ≡ t
      → run t (ask ∷ ops) (record { state = waiting w }) s
        ≡ answered (polled pending) (run t ops (record { state = waiting w }) s)
  unfolding run poll_wait
  waits_again t w ops s e =
      let same : (w == t) ≡ true = subst (λ u. (w == u) ≡ true) e (==_refl w) in ground arith

  run-Runs :
      (t : ℕ) (ops : List (Op T)) (st : State T) (box : Option T) (s : System)
      → OnlyBy t box st
      → Runs t ops st box s
  unfolding run signal reset poll_wait
  run-Runs t [] st box s h = (([], record { state = st }, s), refl, refl)
  run-Runs t (send v ∷ ops) st box s h =
      run-Runs t ops (signaled_with v) (some v) (signal v (record { state = st }) s).1 refl
  run-Runs t (clear_it ∷ ops) st box s h = run-Runs t ops no_value none s refl
  run-Runs t (look ∷ ops) st box s h =
      Runs-answer t look ops st st box box s _ _ (run-Runs t ops st box s h) refl
        (ap seen (signaled-is_full t st box h)) refl
  run-Runs t (ask ∷ ops) no_value box s h =
      Runs-answer t ask ops no_value (waiting t) box none s _ (polled pending)
        (run-Runs t ops (waiting t) none s (refl, refl)) refl refl
        (ap (λ b. answers (ask ∷ ops) b) h)
  run-Runs t (ask ∷ ops) (waiting w) box s h =
      Runs-answer t ask ops (waiting w) (waiting w) box none s _ (polled pending)
        (run-Runs t ops (waiting w) none s (h.0, refl)) (waits_again t w ops s h.0) refl
        (ap (λ b. answers (ask ∷ ops) b) h.1)
  run-Runs t (ask ∷ ops) (signaled_with v) box s h =
      Runs-answer t ask ops (signaled_with v) no_value box none s _ (polled (ready v))
        (run-Runs t ops no_value none s refl) refl refl (ap (λ b. answers (ask ∷ ops) b) h)

  -- Any sequence of signals, resets, looks and polls by one task on a new signal runs without a
  -- panic, and answers as a mailbox that keeps the last value sent until it is cleared or taken.
  pub signal_mailbox :
      (t : ℕ) (ops : List (Op T)) (s : System)
      → (o : List (Answer T) × Signal T × System) × (run t ops new_signal s ≡ some o)
        × (o.0 ≡ answers ops none)
  unfolding new_signal
  signal_mailbox t ops s = run-Runs t ops no_value none s refl

  pending_waits :
      (t : ℕ) (st : State T) (g' : Signal T)
      → poll_wait t (record { state = st }) ≡ some (pending, g')
      → g'.state ≡ waiting t
  unfolding poll_wait
  pending_waits t no_value g' e = ground arith
  pending_waits t (waiting w) g' e = ground arith
  pending_waits t (signaled_with v) g' e = ground arith

  -- If a poll by a spawned task is pending, then a signal right after it marks the task to run and
  -- the next poll takes its value; but after a reset in between, the signal wakes nobody.
  pub signal_wakes :
      (t : ℕ) (g g' : Signal T) (v : T) (s : System)
      → poll_wait t g ≡ some (pending, g')
      → (s.headers t).spawned ≡ true
      → (((signal v g' s).1.headers t).run_queued ≡ true)
        × (poll_wait t (signal v g' s).0 ≡ some (ready v, new_signal))
        × ((signal v (reset g') s).1 ≡ s)
  unfolding poll_wait signal reset new_signal
  signal_wakes t g g' v s e live = (
    subst (λ st. ((signal v (record { state = st }) s).1.headers t).run_queued ≡ true)
        (sym (pending_waits t g.state g' e)) (enqueue_marks s t live),
    refl,
    refl,
  )
