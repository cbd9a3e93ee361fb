-- ===== src/Util/Registered.antt =====
-- No task that registered is forgotten, and the two files of registrations do the same.
use embassy.Base.{
  ℕ, ◌≡◌, refl, ap, ◌∙◌, ◌⊎◌, inl, inr, true, Option, none, some, List, [], ◌∷◌, arith, ◌==◌,
  Bool-cases, Option-cases,
}
use embassy.Executor.{System, mem}
use embassy.Executor.Invariant.Keeps.{enqueue-Keeps}
use embassy.Executor.Invariant.Due.{spawned-enqueue, enqueue_marks}
use embassy.Util.Waker.{
  WakerRegistration, register_waker, wake_waker, AtomicWaker, register_atomic, wake_atomic,
}
use embassy.Util.WakerAgnostic.{register_any_waker, wake_any_waker, register_cell, wake_cell}

register_agrees :
    (w : ℕ) (o : Option ℕ) (s : System)
    → register_waker w (record { waker = o }) s ≡ register_any_waker w (record { waker = o }) s
unfolding register_waker register_any_waker
register_agrees w none s = refl
register_agrees w (some w2) s = ground arith

wake_agrees :
    (o : Option ℕ) (s : System)
    → wake_waker (record { waker = o }) s ≡ wake_any_waker (record { waker = o }) s
unfolding wake_waker wake_any_waker
wake_agrees none s = refl
wake_agrees (some w) s = refl

atomic_agrees :
    (w : ℕ) (o : Option ℕ)
    → register_atomic w (record { task = o }) ≡ register_cell w (record { task = o })
unfolding register_atomic register_cell
atomic_agrees w none = refl
atomic_agrees w (some w2) = ground arith

cell_agrees :
    (o : Option ℕ) (s : System)
    → wake_cell (record { task = o }) s ≡ (record { task = o }, wake_atomic (record { task = o }) s)
unfolding wake_cell wake_atomic
cell_agrees none s = refl
cell_agrees (some w) s = refl

-- The registrations of util/waker.rs and of util/waker_agnostic.rs register and wake alike.
registrations_agree :
    (w : ℕ) (r : WakerRegistration) (a : AtomicWaker) (s : System)
    → (register_waker w r s ≡ register_any_waker w r s)
      × (wake_waker r s ≡ wake_any_waker r s)
      × (register_atomic w a ≡ register_cell w a)
      × (wake_cell a s ≡ (a, wake_atomic a s))
unfolding register_waker register_any_waker wake_waker wake_any_waker register_atomic register_cell
    wake_cell wake_atomic
registrations_agree w r a s = (
  register_agrees w r.waker s,
  wake_agrees r.waker s,
  atomic_agrees w a.task,
  cell_agrees a.task s,
)

-- Several tasks register one after the other.
unfoldable pub register_all : List ℕ → WakerRegistration → System → WakerRegistration × System
unfolding register_waker
register_all [] r s = (r, s)
register_all (w ∷ ws) r s = let (r', s') = register_waker w r s in register_all ws r' s'

-- A task that is registered, or will run.
abbrev pub IsHeld : ℕ → WakerRegistration × System → Type 0
IsHeld u (r, s) = (r.waker ≡ some u) ⊎ ((s.headers u).run_queued ≡ true)

module _ (u : ℕ) where
  spawned-register :
      (w : ℕ) (r : WakerRegistration) (s : System)
      → ((register_waker w r s).1.headers u).spawned ≡ (s.headers u).spawned
  unfolding register_waker
  spawned-register w r s = elim (Option-cases r.waker) [
    | inl idle ↦ rw idle refl
    | inr (w2, e) ↦ rw e (elim (Bool-cases (w == w2)) [
      | inl same ↦ rw same refl
      | inr new ↦ rw new (spawned-enqueue s w2 u)
    ])
  ]

  register-IsHeld_self :
      (w : ℕ) (r : WakerRegistration) (s : System)
      → (w == u) ≡ true
      → IsHeld u (register_waker w r s)
  unfolding register_waker
  register-IsHeld_self w r s e =
      let same : w ≡ u = ground arith in
      elim (Option-cases r.waker) [
        | inl idle ↦ rw idle (inl (ap some same))
        | inr (w2, e2) ↦ rw e2 (elim (Bool-cases (w == w2)) [
          | inl old ↦ let eq : w2 ≡ u = ground arith in rw old (inl (ap some eq))
          | inr new ↦ rw new (inl (ap some same))
        ])
      ]

  register-IsHeld :
      (w : ℕ) (r : WakerRegistration) (s : System)
      → (s.headers u).spawned ≡ true
      → IsHeld u (r, s)
      → IsHeld u (register_waker w r s)
  unfolding register_waker
  register-IsHeld w r s live (inl e) = rw e (elim (Bool-cases (w == u)) [
    | inl same ↦ rw same (inl refl)
    | inr new ↦ rw new (inr (enqueue_marks s u live))
  ])
  register-IsHeld w r s live (inr m) = elim (Option-cases r.waker) [
    | inl idle ↦ rw idle (inr m)
    | inr (w2, e) ↦ rw e (elim (Bool-cases (w == w2)) [
      | inl same ↦ rw same (inr m)
      | inr new ↦ rw new (inr ((enqueue-Keeps s w2 u).0 m).0)
    ])
  ]

  register_all-IsHeld :
      (ws : List ℕ) (r : WakerRegistration) (s : System)
      → (s.headers u).spawned ≡ true
      → IsHeld u (r, s)
      → IsHeld u (register_all ws r s)
  unfolding register_all
  register_all-IsHeld [] r s live h = h
  register_all-IsHeld (w ∷ ws) r s live h =
      let n = register_waker w r s in
      register_all-IsHeld ws n.0 n.1 (spawned-register w r s ∙ live) (register-IsHeld w r s live h)

-- After any tasks registered one after the other, each of them that is spawned is the one that is
-- registered, or is marked to run.
no_task_forgotten :
    (u : ℕ) (ws : List ℕ) (r : WakerRegistration) (s : System)
    → (s.headers u).spawned ≡ true
    → mem u ws ≡ true
    → ((register_all ws r s).0.waker ≡ some u)
      ⊎ (((register_all ws r s).1.headers u).run_queued ≡ true)
unfolding register_all
no_task_forgotten u [] r s live m = absurd (ground arith)
no_task_forgotten u (w ∷ ws) r s live m =
    let n = register_waker w r s in
    elim (Bool-cases (w == u)) [
      | inl same ↦
          register_all-IsHeld u ws n.0 n.1 (spawned-register u w r s ∙ live)
            (register-IsHeld_self u w r s same)
      | inr other ↦ no_task_forgotten u ws n.0 n.1 (spawned-register u w r s ∙ live) (ground arith)
    ]
