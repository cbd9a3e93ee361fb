-- ===== src/Util/Portal/Calls.antt =====
-- What a task that waits on a portal gets from the calls of others.
use embassy.Base.{
  ℕ, ◌≡◌, refl, ap, ◌∙◌, inl, inr, Bool, false, Option, none, some, List, [], ◌∷◌, ==_refl,
  Option-cases,
}
use embassy.Poll.{Poll, pending, ready}
use embassy.Executor.{System}
use embassy.Executor.Raw.{enqueue}
use embassy.Util.Signal.{State, no_value, waiting, signaled_with, new_signal, signal, poll_wait}
use embassy.Util.Portal.{
  PortalState, portal_none, waiting_many, Portal, call_many, call, begin_wait, await_result,
}

module _ {C T R : Type 0} (once : C → T → Bool × R × C) (many : C → T → Bool × Option R × C) where
  unfoldable pub call_all : List T → Portal C R → System → Option (Portal C R × System)
  unfolding call
  call_all [] p s = some (p, s)
  call_all (v ∷ vs) p s = elim (call once many v p s) [
    | none ↦ none
    | some (p', s') ↦ call_all vs p' s'
  ]

  -- The answer of the first call that has one.
  abbrev pub first_answer : C → List T → Option R
  first_answer c [] = none
  first_answer c (v ∷ vs) =
      let later = first_answer (many c v).2 vs in
      elim (many c v).1 [ none ↦ later | some r ↦ some r ]

  abbrev pub waited : Option R → Poll R
  waited none = pending
  waited (some r) = ready r

  abbrev portal : PortalState → C → Option R → State (Unit {0}) → Portal C R
  portal st c res sg = record {
    state = st;
    closure = c;
    result = res;
    done = record { state = sg };
  }

  call_all_done :
      (vs : List T) (c : C) (res : Option R) (sg : State (Unit {0})) (s : System)
      → call_all vs (portal portal_none c res sg) s ≡ some (portal portal_none c res sg, s)
  unfolding call_all call
  call_all_done [] c res sg s = refl
  call_all_done (v ∷ vs) c res sg s = call_all_done vs c res sg s

  call_all_step :
      (v : T) (vs : List T) (p p' : Portal C R) (s s' : System)
      → call once many v p s ≡ some (p', s')
      → call_all (v ∷ vs) p s ≡ call_all vs p' s'
  unfolding call_all
  call_all_step v vs p p' s s' e =
      ap
        (λ x. elim x as (λ y. Option (Portal C R × System)) [
          | none ↦ none
          | some (p', s') ↦ call_all vs p' s'
        ])
        e

  -- What holds after some calls: the task that waits gets that answer.
  abbrev Gets : ℕ → List T → Portal C R → System → Option R → Type 0
  Gets t vs p s answer =
      (o : Portal C R × System) × (call_all vs p s ≡ some o)
      × ((w : Poll R × Portal C R) × (await_result t o.0 ≡ some w) × (w.0 ≡ waited answer))

  module _ (plain : (c : C) (v : T) → (many c v).0 ≡ false) where
    Gets-calls :
        (t : ℕ) (vs : List T) (c : C) (s : System)
        → Gets t vs (portal waiting_many c none (waiting t)) s (first_answer c vs)
    unfolding call_all call call_many signal await_result poll_wait
    Gets-calls t [] c s =
        let p = portal waiting_many c none (waiting t) in
        let waits : await_result t p ≡ some (pending, p) =
          rw (await_result, poll_wait, ==_refl t) refl in
        ((p, s), refl, ((pending, p), waits, refl))
    Gets-calls t (v ∷ vs) c s = elim (Option-cases (many c v).1) [
      | inl more ↦
          let p = portal waiting_many c none (waiting t) in
          let c' = (many c v).2 in
          let p' = portal waiting_many c' none (waiting t) in
          let called : call once many v p s ≡ some (p', s) = rw (plain c v, more) refl in
          let o = Gets-calls t vs c' s in
          (
            o.0,
            call_all_step v vs p p' s s called ∙ o.1,
            (o.2.0, o.2.1, o.2.2 ∙ ap waited (rw (first_answer, more) refl)),
          )
      | inr (r, found) ↦
          let p = portal waiting_many c none (waiting t) in
          let c' = (many c v).2 in
          let p' = portal portal_none c' (some r) (signaled_with tt) in
          let s' = enqueue s t in
          let called : call once many v p s ≡ some (p', s') = rw (plain c v, found) refl in
          let answers : some r ≡ first_answer c (v ∷ vs) = rw (first_answer, found) refl in
          let after = portal portal_none c' (some r) no_value in
          (
            (p', s'),
            call_all_step v vs p p' s s' called
                ∙ call_all_done vs c' (some r) (signaled_with tt) s',
            ((ready r, after), refl, ap waited answers),
          )
    ]

    -- If no call of the closure calls the portal itself, then a task that waits with `wait_many` on a
    -- free portal and is pending gets, whatever values the portal is called with afterwards, the
    -- answer of the first call that has one, and is pending if none has; nothing panics.
    pub wait_many_answers :
        (t : ℕ) (c : C) (p : Portal C R) (vs : List T) (s : System)
        → p.state ≡ portal_none
        → (p' : Portal C R) × (begin_wait waiting_many c p ≡ some p')
          × ((p'' : Portal C R) × (await_result t p' ≡ some (pending, p''))
              × Gets t vs p'' s (first_answer c vs))
    unfolding begin_wait new_signal await_result poll_wait
    wait_many_answers t c p vs s free =
        let p' = portal waiting_many c none no_value in
        let p'' = portal waiting_many c none (waiting t) in
        (p', rw free refl, (p'', refl, Gets-calls t vs c s))
