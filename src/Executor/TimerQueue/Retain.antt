-- ===== src/Executor/TimerQueue/Retain.antt =====
-- The loop of `TimerQueue::retain` visits each task once, and keeps those that its closure keeps.
use embassy.Base.{
  ℕ, zero, suc, ◌≤◌, ◌≡◌, sym, ap, ◌∙◌, subst, inl, inr, Bool, true, false, Option, none, some,
  List, [], ◌∷◌, ◌++◌, append_assoc, arith, if◌then◌else◌, Bool-cases, length,
}
use embassy.Executor.{System}
use embassy.Executor.Chains.{Chain-ext}
use embassy.Executor.TimerQueue.{get_cell, remove, retain_from, retain}
use embassy.Executor.TimerQueue.Links.{
  timer_next_of, IsTimed, cell_after, cell_after-snoc, cell-Chain, remove-IsTimed,
}

abbrev pub keep_only : (ℕ → Bool) → List ℕ → List ℕ
keep_only keep [] = []
keep_only keep (x ∷ xs) = if keep x then x ∷ keep_only keep xs else keep_only keep xs

pub record SameTimers (s s' : System) : Type 0 where
  pub head : s'.timer_head ≡ s.timer_head
  pub next : (u : ℕ) → timer_next_of s' u ≡ timer_next_of s u
  pub mark : (u : ℕ) → (s'.headers u).timer_queued ≡ (s.headers u).timer_queued

pub SameTimers-IsTimed :
    {s s' : System} {tasks : List ℕ} → SameTimers s s' → IsTimed s tasks → IsTimed s' tasks
SameTimers-IsTimed {s} {s'} {tasks} same inv = record {
  linked = rw same.head (
      Chain-ext (timer_next_of s) (timer_next_of s') s.timer_head tasks (λ u m. same.next u)
        inv.linked);
  distinct = inv.distinct;
  marked = λ u. same.mark u ∙ inv.marked u;
}

-- A closure that answers by `keep`, leaves the timer queue's links alone, and has the invariant
-- `Inv` of its state, the system's, and the tasks that it has yet to see.
pub record Closure {X : Type 0} (f : X → System → ℕ → X × System × Bool) (keep : ℕ → Bool)
    (Inv : X → System → List ℕ → Type 0) : Type 0 where
  pub answers :
      (x : X) (s : System) (p : ℕ) (rest : List ℕ) → Inv x s (p ∷ rest) → (f x s p).2 ≡ keep p
  pub leaves : (x : X) (s : System) (p : ℕ) → SameTimers s (f x s p).1
  pub goes_on :
      (x : X) (s : System) (p : ℕ) (rest : List ℕ)
      → Inv x s (p ∷ rest)
      → Inv (f x s p).0 (f x s p).1 rest
  pub ignores_links :
      (x : X) (s : System) (rest : List ℕ) (cell : Option ℕ) (p : ℕ)
      → Inv x s rest
      → Inv x (remove s cell p) rest

module _ {X : Type 0} (f : X → System → ℕ → X × System × Bool) (keep : ℕ → Bool)
    (Inv : X → System → List ℕ → Type 0) (closure : Closure f keep Inv) where
  abbrev pub Retained : Option (X × System) → List ℕ → Type 0
  Retained r tasks = (x : X) × (s : System) × (r ≡ some (x, s)) × IsTimed s tasks × Inv x s []

  -- The loop goes on from the cell that `prev` is after the closure answered `k`.
  abbrev next_round : ℕ → X × System × Bool → Option ℕ → ℕ → Bool → Option (X × System)
  next_round fuel r prev p k =
      let prev' = if k then some p else prev in
      let t = if k then r.1 else remove r.1 prev p in
      retain_from f fuel r.0 t prev' (get_cell t prev')

  unfold_round :
      (fuel : ℕ) (x : X) (s : System) (prev : Option ℕ) (p : ℕ) (k : Bool)
      → get_cell s prev ≡ some p
      → (f x s p).2 ≡ k
      → retain_from f (suc fuel) x s prev (get_cell s prev) ≡ next_round fuel (f x s p) prev p k
  unfolding retain_from
  unfold_round fuel x s prev p k at e =
      ap (retain_from f (suc fuel) x s prev) at ∙ ap (next_round fuel (f x s p) prev p) e

  stop :
      (fuel : ℕ) (x : X) (s : System) (prev : Option ℕ)
      → get_cell s prev ≡ none
      → retain_from f fuel x s prev (get_cell s prev) ≡ some (x, s)
  unfolding retain_from
  stop fuel x s prev at = ap (retain_from f fuel x s prev) at

  retain_loop :
      (rest : List ℕ) (fuel : ℕ) (x : X) (s : System) (done : List ℕ)
      → IsTimed s (done ++ rest)
      → Inv x s rest
      → length rest ≤ fuel
      → Retained
          (retain_from f fuel x s (cell_after done) (get_cell s (cell_after done)))
          (done ++ keep_only keep rest)
  retain_loop [] fuel x s done inv j le =
      (x, s, stop fuel x s (cell_after done) (cell-Chain s done [] inv.linked), inv, j)
  retain_loop (p ∷ rest) zero x s done inv j le = absurd (omega arith)
  retain_loop (p ∷ rest) (suc fuel) x s done inv j le =
      let at = (cell-Chain s done (p ∷ rest) inv.linked).0 in
      let ans = closure.answers x s p rest j in
      let j' = closure.goes_on x s p rest j in
      let inv' = SameTimers-IsTimed (closure.leaves x s p) inv in
      elim (Bool-cases (keep p)) [
        | inl kept ↦
            let s1 = (f x s p).1 in
            let x1 = (f x s p).0 in
            let grouped = append_assoc done (p ∷ []) in
            let r =
              retain_loop rest fuel x1 s1 (done ++ (p ∷ []))
                (subst (IsTimed s1) (sym (grouped rest)) inv') j' (omega arith) in
            let onward =
              ap (λ c. retain_from f fuel x1 s1 c (get_cell s1 c)) (sym (cell_after-snoc done p)) in
            rw kept (
              r.0,
              r.1,
              unfold_round fuel x s (cell_after done) p true at (ans ∙ kept) ∙ onward ∙ r.2,
              subst (IsTimed r.1) (grouped (keep_only keep rest)) r.3,
              r.4,
            )
        | inr gone ↦
            let s' = remove (f x s p).1 (cell_after done) p in
            let r =
              retain_loop rest fuel (f x s p).0 s' done
                (remove-IsTimed (f x s p).1 done p rest inv')
                (closure.ignores_links (f x s p).0 (f x s p).1 rest (cell_after done) p j')
                (omega arith) in
            rw gone (
              r.0,
              r.1,
              unfold_round fuel x s (cell_after done) p false at (ans ∙ gone) ∙ r.2,
              r.3,
              r.4,
            )
      ]

  -- With fuel for the length of the list, `retain` ends, and what stays linked and marked is what the
  -- closure keeps.
  pub retain_lem :
      (fuel : ℕ) (x : X) (s : System) (tasks : List ℕ)
      → IsTimed s tasks
      → Inv x s tasks
      → length tasks ≤ fuel
      → Retained (retain f fuel x s) (keep_only keep tasks)
  unfolding retain
  retain_lem fuel x s tasks inv j le = retain_loop tasks fuel x s [] inv j le
