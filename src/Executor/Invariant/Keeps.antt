-- ===== src/Executor/Invariant/Keeps.antt =====
-- What an action leaves alone: a task that is marked stays marked, and spawned or not.
use embassy.Base.{
  ℕ, ◌≡◌, refl, sym, ap, ◌∙◌, subst, inl, inr, true, false, not, ◌||◌, Option, List, [], ◌∷◌, arith,
  ◌==◌, Bool-cases,
}
use embassy.Executor.{TaskHeader, System, set_header}
use embassy.Executor.Invariant.{
  marks-executor_enqueue, spawned-executor_enqueue, polls-executor_enqueue,
}
use embassy.Executor.Invariant.Actions.{in_use, allocated, spawn_pool-taken, spawn_pool-free}
use embassy.Executor.Raw.{
  executor_enqueue, enqueue, spawn_pool, spawner_spawn, register_timer, Action, wake, register,
  spawn, perform, perform_all,
}

abbrev pub IsKept : System → System → ℕ → Type 0
IsKept s s' u =
    (s.headers u).run_queued ≡ true
    → ((s'.headers u).run_queued ≡ true) × ((s'.headers u).spawned ≡ (s.headers u).spawned)

pub Keeps-trans : (r s t : System) (u : ℕ) → IsKept r s u → IsKept s t u → IsKept r t u
Keeps-trans r s t u g h m = ((h (g m).0).0, (h (g m).0).1 ∙ (g m).1)

pub marked_ne :
    (s : System) (t u : ℕ)
    → (s.headers t).run_queued ≡ false
    → (s.headers u).run_queued ≡ true
    → (t == u) ≡ false
marked_ne s t u free m = elim (Bool-cases (t == u)) [
  | inl same ↦ let e : t ≡ u = ground arith in cc (ap (λ v. (s.headers v).run_queued) e)
  | inr ne ↦ ne
]

executor_enqueue-IsKept :
    (s : System) (t : ℕ) (h : TaskHeader) (u : ℕ)
    → (s.headers t).run_queued ≡ false
    → IsKept s (executor_enqueue (set_header s t h) t) u
executor_enqueue-IsKept s t h u free m =
    let ne = marked_ne s t u free m in
    ground (arith, marks-executor_enqueue s t h u, spawned-executor_enqueue s t h u)

-- An action polls no task, and keeps what is marked.
abbrev pub Keeps : System → System → ℕ → Type 0
Keeps s s' u = IsKept s s' u × (s'.polls ≡ s.polls)

pub enqueue-Keeps : (s : System) (t u : ℕ) → Keeps s (enqueue s t) u
unfolding enqueue
enqueue-Keeps s t u = elim (Bool-cases ((s.headers t).run_queued || not (s.headers t).spawned)) [
  | inl old ↦ rw old (λ m. (m, refl), refl)
  | inr new ↦
      let h = record (s.headers t) { run_queued = true } in
      rw new (executor_enqueue-IsKept s t h u (ground arith), polls-executor_enqueue s t h)
]

spawn-Keeps : (s : System) (pool : List ℕ) (u : ℕ) → Keeps s (perform s (spawn pool)) u
unfolding perform spawner_spawn spawn_pool
spawn-Keeps s [] u = (λ m. (m, refl), refl)
spawn-Keeps s (t ∷ pool) u = elim (Bool-cases (in_use (s.headers t))) [
  | inl taken ↦ subst After (sym (spawn_pool-taken s t pool taken)) (spawn-Keeps s pool u)
  | inr free ↦ subst After (sym (spawn_pool-free s t pool free)) (
    executor_enqueue-IsKept s t (allocated s t) u (ground arith),
    polls-executor_enqueue s t (allocated s t),
  )
]
  where
    After : System × Option ℕ → Type 0
    After r = Keeps s (spawner_spawn r.0 r.1).0 u

perform-Keeps : (s : System) (a : Action) (u : ℕ) → Keeps s (perform s a) u
unfolding perform register_timer
perform-Keeps s (wake t) u = enqueue-Keeps s t u
perform-Keeps s (register t at) u = (λ m. ground arith, refl)
perform-Keeps s (spawn pool) u = spawn-Keeps s pool u

pub perform_all-Keeps :
    (actions : List Action) (s : System) (u : ℕ) → Keeps s (perform_all s actions) u
unfolding perform_all
perform_all-Keeps [] s u = (λ m. (m, refl), refl)
perform_all-Keeps (a ∷ actions) s u =
    let one = perform-Keeps s a u in
    let rest = perform_all-Keeps actions (perform s a) u in
    (Keeps-trans s (perform s a) (perform_all (perform s a) actions) u one.0 rest.0, rest.1 ∙ one.1)
