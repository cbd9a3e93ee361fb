-- ===== src/Util/Woken.antt =====
-- What a wake of an `AtomicWaker` does for a task.
use embassy.Base.{ℕ, ◌≡◌, ◌∙◌, inl, inr, true, some, Option-cases}
use embassy.Executor.{System}
use embassy.Executor.Invariant.Keeps.{enqueue-Keeps}
use embassy.Executor.Invariant.Due.{spawned-enqueue, enqueue_marks}
use embassy.Util.Waker.{AtomicWaker, wake_atomic}

abbrev pub IsLive : ℕ → System → Type 0
IsLive t s = (s.headers t).spawned ≡ true

abbrev pub IsMarked : ℕ → System → Type 0
IsMarked t s = (s.headers t).run_queued ≡ true

module _ (a : AtomicWaker) (t : ℕ) (s : System) where
  pub wake_atomic-IsLive : IsLive t s → IsLive t (wake_atomic a s)
  unfolding wake_atomic
  wake_atomic-IsLive live = elim (Option-cases a.task) [
    | inl idle ↦ rw idle live
    | inr (w, e) ↦ rw e (spawned-enqueue s w t ∙ live)
  ]

  pub wake_atomic-IsMarked : IsMarked t s → IsMarked t (wake_atomic a s)
  unfolding wake_atomic
  wake_atomic-IsMarked m = elim (Option-cases a.task) [
    | inl idle ↦ rw idle m
    | inr (w, e) ↦ rw e ((enqueue-Keeps s w t).0 m).0
  ]

  pub wake_atomic_marks : a.task ≡ some t → IsLive t s → IsMarked t (wake_atomic a s)
  unfolding wake_atomic
  wake_atomic_marks e live = rw e (enqueue_marks s t live)

-- A task stays alive, and marked.
abbrev pub Stays : ℕ → System → System → Type 0
Stays t s s' = (IsLive t s → IsLive t s') × (IsMarked t s → IsMarked t s')

pub wake_atomic-Stays : (a : AtomicWaker) (t : ℕ) (s : System) → Stays t s (wake_atomic a s)
wake_atomic-Stays a t s = (wake_atomic-IsLive a t s, wake_atomic-IsMarked a t s)

pub Stays-trans : (t : ℕ) (s s' s'' : System) → Stays t s s' → Stays t s' s'' → Stays t s s''
Stays-trans t s s' s'' a b = (λ live. b.0 (a.0 live), λ m. b.1 (a.1 m))
