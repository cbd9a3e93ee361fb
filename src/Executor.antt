-- ===== src/Executor.antt =====
-- embassy/src/executor/: the task headers, which are statics that the queues link, and the state of
-- one executor over them. A task is named by its address, a number.
pub mod RunQueue
pub mod TimerQueue
pub mod Raw
pub mod Timer
pub mod Chains
pub mod Invariant
mod Tests
use embassy.Base.{ℕ, ◌≡◌, Bool, false, ◌||◌, Option, none, some, List, [], ◌∷◌, ◌==◌, if◌then◌else◌}
use embassy.Time.{u64_max}

-- `TaskHeader` of raw.rs. `state` is kept as its three bits; `StateWord` relates them to the u32.
pub record TaskHeader : Type 0 where
  pub spawned : Bool
  pub run_queued : Bool
  pub timer_queued : Bool
  pub run_next : Option ℕ
  pub expires_at : ℕ
  pub timer_next : Option ℕ

-- `TaskHeader::new`.
abbrev pub new_header : TaskHeader
new_header = record {
  spawned = false;
  run_queued = false;
  timer_queued = false;
  run_next = none;
  expires_at = 0;
  timer_next = none;
}

-- The heads of the two queues, how often `signal_fn` was called, whether there is an alarm, whether
-- its callback is `signal_fn` with `signal_ctx`, the last timestamp that it was set to, and the tasks whose `poll_fn` was called, the last one first.
pub record System : Type 0 where
  pub headers : ℕ → TaskHeader
  pub run_head : Option ℕ
  pub timer_head : Option ℕ
  pub signals : ℕ
  pub has_alarm : Bool
  pub alarm_signals : Bool
  pub alarm_at : Option ℕ
  pub polls : List ℕ

-- `Executor::new`.
abbrev pub new_system : System
new_system = record {
  headers = λ t. new_header;
  run_head = none;
  timer_head = none;
  signals = 0;
  has_alarm = false;
  alarm_signals = false;
  alarm_at = none;
  polls = [];
}

-- `Instant::MAX` in ticks: no expiration.
abbrev pub never : ℕ
never = u64_max

abbrev pub set_header : System → ℕ → TaskHeader → System
set_header s t h = record s { headers = λ u. if t == u then h else s.headers u }

abbrev pub mem : ℕ → List ℕ → Bool
mem t [] = false
mem t (x ∷ xs) = t == x || mem t xs

-- The list that `next` links from `head` on.
abbrev pub Chain : (ℕ → Option ℕ) → Option ℕ → List ℕ → Type 0
Chain next head [] = head ≡ none
Chain next head (x ∷ xs) = (head ≡ some x) × Chain next (next x) xs

abbrev pub Distinct : List ℕ → Type 0
Distinct [] = Unit {0}
Distinct (x ∷ xs) = (mem x xs ≡ false) × Distinct xs
