-- ===== src/Executor/Invariant/Actions.antt =====
-- Waking, spawning and registering keep the run queue's invariant, and only add to the queue.
use embassy.Base.{
  ℕ, ◌≤◌, ◌≡◌, refl, sym, subst, inl, inr, Bool, true, false, not, ◌||◌, Option, some, List, [],
  ◌∷◌, ◌++◌, append_assoc, arith, Bool-cases, length,
}
use embassy.Executor.{TaskHeader, System, set_header, mem}
use embassy.Executor.Invariant.{IsLinked, executor_enqueue-IsLinked, same_links-IsLinked}
use embassy.Executor.Raw.{
  enqueue, spawn_allocate, spawn_pool, spawner_spawn, register_timer, Action, wake, register, spawn,
  perform, perform_all,
}

-- The invariant, with new tasks in front of the queue.
abbrev pub Grows : System → Option ℕ → List ℕ → List ℕ → Type 0
Grows s cursor queue batch = (new : List ℕ) × IsLinked s cursor (new ++ queue) batch

pub regroup :
    {s : System} {cursor : Option ℕ} {batch : List ℕ} (late early queue : List ℕ)
    → IsLinked s cursor (late ++ (early ++ queue)) batch
    → IsLinked s cursor ((late ++ early) ++ queue) batch
regroup {s} {cursor} {batch} late early queue =
    subst (λ q. IsLinked s cursor q batch) (sym (append_assoc late early queue))

pub Grows-trans :
    {s t : System} {cursor : Option ℕ} {queue batch : List ℕ} (g : Grows s cursor queue batch)
    → Grows t cursor (g.0 ++ queue) batch
    → Grows t cursor queue batch
Grows-trans {queue = queue} g h = (h.0 ++ g.0, regroup h.0 g.0 queue h.1)

-- The three flags of a task that is not free to be spawned.
abbrev pub in_use : TaskHeader → Bool
in_use h = h.spawned || (h.run_queued || h.timer_queued)

abbrev pub allocated : System → ℕ → TaskHeader
allocated s t = record (s.headers t) { spawned = true; run_queued = true }

pub spawn_pool-taken :
    (s : System) (t : ℕ) (pool : List ℕ)
    → in_use (s.headers t) ≡ true
    → spawn_pool s (t ∷ pool) ≡ spawn_pool s pool
unfolding spawn_pool spawn_allocate
spawn_pool-taken s t pool e = rw (e, spawn_pool)

pub spawn_pool-free :
    (s : System) (t : ℕ) (pool : List ℕ)
    → in_use (s.headers t) ≡ false
    → spawn_pool s (t ∷ pool) ≡ (set_header s t (allocated s t), some t)
unfolding spawn_pool spawn_allocate
spawn_pool-free s t pool e = ground arith

module _ {s : System} {cursor : Option ℕ} {queue batch : List ℕ}
    (inv : IsLinked s cursor queue batch) where
  -- Waking adds one task at most, which is the one that is woken.
  pub enqueue_one :
      (t : ℕ)
      → (new : List ℕ) × IsLinked (enqueue s t) cursor (new ++ queue) batch
        × (length new ≤ 1)
        × ((u : ℕ) → mem u new ≡ true → u ≡ t)
  unfolding enqueue
  enqueue_one t = elim (Bool-cases ((s.headers t).run_queued || not (s.headers t).spawned)) [
    | inl old ↦ rw old ([], inv, omega arith, λ u m. cc)
    | inr new ↦ rw new (
      t ∷ [],
      executor_enqueue-IsLinked inv t (record (s.headers t) { run_queued = true }) (ground arith)
          refl,
      omega arith,
      λ u m. ground arith,
    )
  ]

  pub enqueue-Grows : (t : ℕ) → Grows (enqueue s t) cursor queue batch
  enqueue-Grows t = let r = enqueue_one t in (r.0, r.1)

  pub spawn-Grows : (pool : List ℕ) → Grows (perform s (spawn pool)) cursor queue batch
  unfolding perform spawner_spawn spawn_pool
  spawn-Grows [] = ([], inv)
  spawn-Grows (t ∷ pool) = elim (Bool-cases (in_use (s.headers t))) [
    | inl taken ↦ subst After (sym (spawn_pool-taken s t pool taken)) (spawn-Grows pool)
    | inr free ↦
        subst After (sym (spawn_pool-free s t pool free))
          (t ∷ [], executor_enqueue-IsLinked inv t (allocated s t) (ground arith) refl)
  ]
    where
      After : System × Option ℕ → Type 0
      After r = Grows (spawner_spawn r.0 r.1).0 cursor queue batch

  pub register-Grows : (t at : ℕ) → Grows (perform s (register t at)) cursor queue batch
  unfolding perform register_timer
  register-Grows t at = (
    [],
    same_links-IsLinked inv (register_timer s t at) refl (λ u. ground arith) (λ u. ground arith),
  )

  pub perform-Grows : (a : Action) → Grows (perform s a) cursor queue batch
  unfolding perform
  perform-Grows (wake t) = enqueue-Grows t
  perform-Grows (register t at) = register-Grows t at
  perform-Grows (spawn pool) = spawn-Grows pool

pub perform_all-Grows :
    (actions : List Action) {s : System} {cursor : Option ℕ} {queue batch : List ℕ}
    → IsLinked s cursor queue batch
    → Grows (perform_all s actions) cursor queue batch
unfolding perform_all
perform_all-Grows [] inv = ([], inv)
perform_all-Grows (a ∷ actions) inv =
    let g = perform-Grows inv a in Grows-trans g (perform_all-Grows actions g.1)
