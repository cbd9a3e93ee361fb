-- ===== src/Util/Tests.antt =====
-- The theorems on signals and registrations at small inputs, and runs of the code.
use embassy.Base.{
  ℕ, ◌+◌, ◌≡◌, refl, Bool, true, false, Option, none, some, List, [], ◌∷◌, leb, if◌then◌else◌,
}
use embassy.Poll.{Poll, pending, ready}
use embassy.Executor.{new_header, System, new_system}
use embassy.Interrupt.{Nvic, MaskLaws, Line}
use embassy.Util.Signal.{no_value, waiting, Signal, new_signal, signal, reset, poll_wait}
use embassy.Util.Signal.Mailbox.{
  Op, send, clear_it, ask, look, Answer, polled, seen, run, signal_mailbox, signal_wakes,
}
use embassy.Util.Portal.{portal_none, waiting_many, Portal, begin_wait, await_result}
use embassy.Util.Portal.Calls.{call_all, wait_many_answers}
use embassy.Util.Waker.{WakerRegistration, new_registration}
use embassy.Util.Registered.{register_all}

-- All tasks are spawned and idle.
abbrev all_spawned : System
all_spawned = record new_system { headers = λ t. record new_header { spawned = true } }

-- A value that is replaced, taken, and asked for again; and one that is cleared.
abbrev operations : List (Op ℕ)
operations = ask ∷ send 4 ∷ send 5 ∷ look ∷ ask ∷ ask ∷ send 6 ∷ clear_it ∷ look ∷ []

signal_mailbox_example :
    (o : List (Answer ℕ) × Signal ℕ × System) × (run 1 operations new_signal all_spawned ≡ some o)
    × (o.0 ≡ polled pending ∷ seen true ∷ polled (ready 5) ∷ polled pending ∷ seen false ∷ [])
signal_mailbox_example = signal_mailbox 1 operations all_spawned

abbrev waits_for : Signal ℕ
waits_for = record { state = waiting 1 }

waiting_polls : poll_wait {T = ℕ} 1 new_signal ≡ some (pending, waits_for)
unfolding poll_wait new_signal
waiting_polls = refl

signal_wakes_example :
    (((signal 7 waits_for all_spawned).1.headers 1).run_queued ≡ true)
    × (poll_wait 1 (signal 7 waits_for all_spawned).0 ≡ some (ready 7, new_signal))
    × ((signal 7 (reset waits_for) all_spawned).1 ≡ all_spawned)
signal_wakes_example = signal_wakes 1 new_signal waits_for 7 all_spawned waiting_polls refl

-- A second task that polls while another waits is a panic.
second_waiter : poll_wait 2 waits_for ≡ none
unfolding poll_wait
second_waiter = refl

abbrev three_registered : WakerRegistration × System
three_registered = register_all (1 ∷ 2 ∷ 3 ∷ []) new_registration all_spawned

-- A controller that is just the mask, and one that is masked at first.
abbrev one_bit : Nvic Bool
one_bit = record { mask = λ b. false; unmask = λ b. true; unpend = λ b. b; is_enabled = λ b. b }

abbrev one_bit-MaskLaws : MaskLaws one_bit
one_bit-MaskLaws = record { masked = λ b. refl; unmasked = λ b. refl }

abbrev unused : Line Bool
unused = record { func = none; ctx = none; controller = false }

-- A closure that adds up what it is called with, and answers from 5 on.
abbrev sum_once : ℕ → ℕ → Bool × ℕ × ℕ
sum_once c v = (false, c + v, c + v)

abbrev sum_many : ℕ → ℕ → Bool × Option ℕ × ℕ
sum_many c v = (false, if leb 5 (c + v) then some (c + v) else none, c + v)

abbrev free_portal : Portal ℕ ℕ
free_portal = record {
  state = portal_none;
  closure = 0;
  result = none;
  done = record { state = no_value };
}

wait_many_answers_example :
    (p' : Portal ℕ ℕ) × (begin_wait waiting_many 0 free_portal ≡ some p')
    × ((p'' : Portal ℕ ℕ) × (await_result 1 p' ≡ some (pending, p''))
        × ((o : Portal ℕ ℕ × System) × (call_all sum_once sum_many (2 ∷ 4 ∷ 8 ∷ []) p'' all_spawned
              ≡ some o)
            × ((w : Poll ℕ × Portal ℕ ℕ) × (await_result 1 o.0 ≡ some w) × (w.0 ≡ ready 6))))
wait_many_answers_example =
    wait_many_answers sum_once sum_many (λ c v. refl) 1 0 free_portal (2 ∷ 4 ∷ 8 ∷ []) all_spawned
      refl
