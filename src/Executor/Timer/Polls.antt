-- ===== src/Executor/Timer/Polls.antt =====
-- Timers and tickers over the polls of a task, each at a time and on the state of then.
use mathlib.Core.Option
use embassy.Base.{
  ℕ, ◌+◌, ◌*◌, ◌≤◌, ◌<◌, ◌≡◌, refl, sym, ap, ◌∙◌, subst, ◌⊎◌, inl, inr, Bool, true, false, ◌||◌,
  Option, none, some, List, [], ◌∷◌, arith, leb, le-or-lt,
}
use embassy.Poll.{Poll, pending, ready}
use embassy.Time.{u64_mod, now}
use embassy.Time.Duration.{Duration}
use embassy.Time.Instant
use embassy.Time.Instant.{Instant}
use embassy.Executor.{System}
use embassy.Executor.Raw.{register_timer}
use embassy.Executor.Timer.{Timer, timer_after, timer_wait, timer_poll, Ticker, every, poll_next}

-- A poll of a task: the time, and the executor's state.
abbrev pub Visit : Type 0
Visit = ℕ × System

abbrev pub as_tick : Poll (Unit {0}) → ℕ
as_tick pending = 0
as_tick (ready u) = 1

-- The items that a ticker has yielded after those polls, and the ticker then.
unfoldable pub ticks : ℕ → Ticker → List Visit → Option (ℕ × Ticker)
ticks t c [] = some (0, c)
ticks t c (v ∷ vs) = elim (poll_next (some v.0) t c v.1) [
  | none ↦ none
  | some (p, c', s) ↦ Option.map (λ o. (as_tick p + o.0, o.1)) (ticks t c' vs)
]

pub data AllBefore (end : ℕ) : List Visit → Type 0 where
  none_left : AllBefore end []
  before : {v : Visit} {vs : List Visit} → v.0 ≤ end → AllBefore end vs → AllBefore end (v ∷ vs)

-- One poll while the next time fits in 64 bits.
poll_next-due :
    (t : ℕ) (c : Ticker) (v : Visit)
    → c.expires_at.ticks ≤ v.0
    → c.expires_at.ticks + c.duration.ticks < u64_mod
    → poll_next (some v.0) t c v.1
      ≡ some (
        ready tt,
        record c { expires_at = record { ticks = c.expires_at.ticks + c.duration.ticks } },
        v.1,
      )
unfolding poll_next Instant.now_instant Instant.add Instant.checked_add now
poll_next-due t c v due fits = ground arith

poll_next-wait :
    (t : ℕ) (c : Ticker) (v : Visit)
    → v.0 < c.expires_at.ticks
    → poll_next (some v.0) t c v.1 ≡ some (pending, c, register_timer v.1 t c.expires_at.ticks)
unfolding poll_next Instant.now_instant now
poll_next-wait t c v early = ground arith

-- What holds of a ticker that waits for `c`, after some polls until `end`.
abbrev pub Kept : ℕ → Ticker → ℕ × Ticker → Type 0
Kept end c o =
    (o.1 ≡ record c { expires_at = record { ticks = c.expires_at.ticks + o.0 * c.duration.ticks } })
    × ((o.0 ≡ 0) ⊎ (c.expires_at.ticks + o.0 * c.duration.ticks ≤ end + c.duration.ticks))

abbrev next_tick : Ticker → Ticker
next_tick c = record c { expires_at = record { ticks = c.expires_at.ticks + c.duration.ticks } }

abbrev count_from : ℕ → Option (ℕ × Ticker) → Option (ℕ × Ticker)
count_from n = Option.map (λ o. (n + o.0, o.1))

ticks_step :
    (t : ℕ) (c c' : Ticker) (v : Visit) (vs : List Visit) (p : Poll (Unit {0})) (s : System)
    → poll_next (some v.0) t c v.1 ≡ some (p, c', s)
    → ticks t c (v ∷ vs) ≡ count_from (as_tick p) (ticks t c' vs)
unfolding ticks
ticks_step t c c' v vs p s e =
    ap
      (λ x. elim x as (λ y. Option (ℕ × Ticker)) [
        | none ↦ none
        | some (p, c', s) ↦ Option.map (λ o. (as_tick p + o.0, o.1)) (ticks t c' vs)
      ])
      e

Kept-first :
    (end : ℕ) (c : Ticker) (o : ℕ × Ticker)
    → c.expires_at.ticks ≤ end
    → Kept end (next_tick c) o
    → Kept end c (1 + o.0, o.1)
Kept-first end c o le (e, b) =
    let d = c.duration.ticks in
    let sum : (c.expires_at.ticks + d) + o.0 * d ≡ c.expires_at.ticks + (1 + o.0) * d =
      omega arith in
    (
      e ∙ ap (λ n. let i : Instant = record { ticks = n } in record c { expires_at = i }) sum,
      inr (elim b [
        | inl z ↦ subst (λ k. c.expires_at.ticks + (1 + k) * d ≤ end + d) (sym z) (omega arith)
        | inr h ↦ omega arith
      ]),
    )

ticks-Kept :
    (t end : ℕ) (c : Ticker) (vs : List Visit)
    → AllBefore end vs
    → end + c.duration.ticks < u64_mod
    → (o : ℕ × Ticker) × (ticks t c vs ≡ some o) × Kept end c o
unfolding ticks
ticks-Kept t end c [] h fits = (
  (0, c),
  refl,
  (
    ap (λ n. let i : Instant = record { ticks = n } in record c { expires_at = i }) (omega arith),
    inl refl,
  ),
)
ticks-Kept t end c (v ∷ vs) (before le h) fits = elim (le-or-lt c.expires_at.ticks v.0) [
  | inl due ↦
      let o = ticks-Kept t end (next_tick c) vs h fits in
      (
        (1 + o.0.0, o.0.1),
        ticks_step t c (next_tick c) v vs _ _ (poll_next-due t c v due (omega arith))
            ∙ ap (count_from 1) o.1,
        Kept-first end c o.0 (omega arith) o.2,
      )
  | inr early ↦
      let o = ticks-Kept t end c vs h fits in
      let zero_add : 0 + o.0.0 ≡ o.0.0 = omega arith in
      (
        o.0,
        ticks_step t c c v vs _ _ (poll_next-wait t c v early)
            ∙ ap (count_from 0) o.1
            ∙ ap (λ n. some (n, o.0.1)) zero_add,
        o.2,
      )
]

-- A ticker that is made at the time `n` and polled at any times up to `end`, where `end` plus the
-- duration fits in 64 bits, never panics; after `k` items it waits for `n` plus `k + 1` durations,
-- and the `k`th item does not come before `n` plus `k` durations.
pub ticker_keeps_time :
    (t n end : ℕ) (d : Duration) (vs : List Visit)
    → n ≤ end
    → end + d.ticks < u64_mod
    → AllBefore end vs
    → (c : Ticker) × (o : ℕ × Ticker) × (every (some n) d ≡ some c)
      × (ticks t c vs ≡ some o)
      × (o.1.expires_at.ticks ≡ n + (1 + o.0) * d.ticks)
      × (n + o.0 * d.ticks ≤ end)
unfolding every Instant.now_instant Instant.add Instant.checked_add now
ticker_keeps_time t n end d vs le fits h =
    let c : Ticker = record { expires_at = record { ticks = n + d.ticks }; duration = d } in
    let o = ticks-Kept t end c vs h fits in
    let made : every (some n) d ≡ some c = ground arith in
    let reads : (n + d.ticks) + o.0.0 * d.ticks ≡ n + (1 + o.0.0) * d.ticks = omega arith in
    (
      c,
      o.0,
      made,
      o.1,
      ap (λ c. c.expires_at.ticks) o.2.0 ∙ reads,
      elim o.2.1 [
        | inl z ↦ subst (λ k. n + k * d.ticks ≤ end) (sym z) (omega arith)
        | inr b ↦ omega arith
      ],
    )

-- Whether a timer that a task polls at those visits, until it is ready, gets ready.
unfoldable pub run_timer : ℕ → Timer → List Visit → Option Bool
unfolding timer_poll
run_timer t self [] = some false
run_timer t self (v ∷ vs) = elim (timer_poll (some v.0) t self v.1) [
  | none ↦ none
  | some (p, self', s) ↦ elim p [ pending ↦ run_timer t self' vs | ready u ↦ some true ]
]

abbrev pub reached : ℕ → List Visit → Bool
reached time [] = false
reached time (v ∷ vs) = leb time v.0 || reached time vs

run_timer_step :
    (t : ℕ) (self self' : Timer) (v : Visit) (vs : List Visit) (p : Poll (Unit {0})) (s : System)
    → timer_poll (some v.0) t self v.1 ≡ some (p, self', s)
    → run_timer t self (v ∷ vs)
      ≡ elim p as (λ x. Option Bool) [ pending ↦ run_timer t self' vs | ready u ↦ some true ]
unfolding run_timer
run_timer_step t self self' v vs p s e =
    ap
      (λ x. elim x as (λ y. Option Bool) [
        | none ↦ none
        | some (p, self', s) ↦ elim p as (λ y. Option Bool) [
          | pending ↦ run_timer t self' vs
          | ready u ↦ some true
        ]
      ])
      e

timer_poll-due :
    (t : ℕ) (self : Timer) (v : Visit)
    → self.yielded_once ≡ true
    → self.expires_at.ticks ≤ v.0
    → timer_poll (some v.0) t self v.1 ≡ some (ready tt, self, v.1)
unfolding timer_poll Instant.now_instant now
timer_poll-due t self v y due = ground arith

timer_poll-wait :
    (t : ℕ) (self : Timer) (v : Visit)
    → (self.yielded_once ≡ false) ⊎ (v.0 < self.expires_at.ticks)
    → timer_poll (some v.0) t self v.1 ≡ some (timer_wait t self v.1)
unfolding timer_poll Instant.now_instant now
timer_poll-wait t self v y = ground arith

run_timer-reached :
    (t : ℕ) (self : Timer) (vs : List Visit)
    → self.yielded_once ≡ true
    → run_timer t self vs ≡ some (reached self.expires_at.ticks vs)
unfolding run_timer
run_timer-reached t self [] y = refl
run_timer-reached t self (v ∷ vs) y = elim (le-or-lt self.expires_at.ticks v.0) [
  | inl due ↦ run_timer_step t self self v vs _ _ (timer_poll-due t self v y due) ∙ ground arith
  | inr early ↦
      let self' = (timer_wait t self v.1).1 in
      run_timer_step t self self' v vs _ _ (timer_poll-wait t self v (inr early))
      ∙ run_timer-reached t self' vs refl
      ∙ ground arith
]

-- A timer that is made at the time `n` for a duration whose end fits in 64 bits, and is polled until
-- it is ready, never panics, and gets ready exactly if some poll after the first comes at its end or
-- later.
timer_sleeps :
    (t n : ℕ) (d : Duration) (first : Visit) (vs : List Visit)
    → n + d.ticks < u64_mod
    → (self : Timer) × (timer_after (some n) d ≡ some self)
      × (run_timer t self (first ∷ vs) ≡ some (reached (n + d.ticks) vs))
unfolding timer_after Instant.now_instant Instant.add Instant.checked_add now
timer_sleeps t n d first vs fits =
    let self : Timer = record {
      expires_at = record { ticks = n + d.ticks };
      yielded_once = false;
    } in
    let self' = (timer_wait t self first.1).1 in
    let made : timer_after (some n) d ≡ some self = ground arith in
    (
      self,
      made,
      run_timer_step t self self' first vs _ _ (timer_poll-wait t self first (inl refl))
          ∙ run_timer-reached t self' vs refl,
    )
