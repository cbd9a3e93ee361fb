-- ===== src/Util/Portal.antt =====
-- embassy/src/util/portal.rs: a closure that a task waits with is called with values by others.
-- A closure is a state that each call replaces; a call also says whether the closure calls the same
-- portal itself. `none` is a panic. What is dropped while it waits, a panic of its bomb, is left out.
pub mod Calls
use mathlib.Core.Option
use embassy.Base.{ℕ, Bool, Option, none, some, if◌then◌else◌}
use embassy.Poll.{Poll, pending, ready}
use embassy.Executor.{System}
use embassy.Util.Signal.{Signal, new_signal, signal, poll_wait}

-- `State`; the pointer of `Waiting` is to the closure of `wait_once` or of `wait_many`.
pub data PortalState : Type 0 where
  portal_none portal_running waiting_once waiting_many : PortalState

-- The portal, and the variables of the task that waits on it.
pub record Portal (C R : Type 0) : Type 0 where
  pub state : PortalState
  pub closure : C
  pub result : Option R
  pub done : Signal (Unit {0})

module _ {C T R : Type 0} (once : C → T → Bool × R × C) (many : C → T → Bool × Option R × C) where
  -- The end of a wait: the result is written, and the waiting task is woken.
  abbrev pub finish : R → Portal C R → System → Portal C R × System
  finish res p s =
      let (g, s') = signal tt p.done s in
      (record p { state = portal_none; result = some res; done = g }, s')

  -- `call_func` of `wait_once`; a call of the portal by the closure does nothing.
  unfoldable pub call_once : T → Portal C R → System → Portal C R × System
  unfolding signal
  call_once val p s =
      let (reenters, res, c) = once p.closure val in finish res (record p { closure = c }) s

  -- `call_func` of `wait_many`; a call of the portal by the closure is a panic.
  unfoldable pub call_many : T → Portal C R → System → Option (Portal C R × System)
  unfolding signal
  call_many val p s =
      let (reenters, answer, c) = many p.closure val in
      let called = record p { closure = c } in
      let ended = elim answer as (λ x. Portal C R × System) [
        | none ↦ (record called { state = waiting_many }, s)
        | some res ↦ finish res called s
      ] in
      if reenters then none else some ended

  -- `Portal::call`.
  unfoldable pub call : T → Portal C R → System → Option (Portal C R × System)
  unfolding call_once call_many
  call val p s = elim p.state [
    | portal_none ↦ some (p, s)
    | portal_running ↦ none
    | waiting_once ↦ some (call_once val p s)
    | waiting_many ↦ call_many val p s
  ]

-- The parts of `wait_once` and `wait_many` before they await the signal.
unfoldable pub begin_wait : {C R : Type 0} → PortalState → C → Portal C R → Option (Portal C R)
unfolding new_signal
begin_wait kind c p = elim p.state [
  | portal_none ↦ some (record { state = kind; closure = c; result = none; done = new_signal })
  | _ ↦ none
]

-- `signal.wait().await` and what follows, polled by the task `t`: a result that was never written
-- would be read by `assume_init`.
unfoldable pub await_result : {C R : Type 0} → ℕ → Portal C R → Option (Poll R × Portal C R)
unfolding poll_wait
await_result t p = elim (poll_wait t p.done) [
  | none ↦ none
  | some (w, g) ↦ elim w [
    | pending ↦ some (pending, record p { done = g })
    | ready u ↦ Option.map (λ r. (ready r, record p { done = g })) p.result
  ]
]
