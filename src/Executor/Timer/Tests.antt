-- ===== src/Executor/Timer/Tests.antt =====
-- The theorems on timers at a ticker and a timer, and runs of the code.
use embassy.Base.{ℕ, ◌+◌, ◌*◌, ◌≤◌, ◌≡◌, some, List, [], ◌∷◌, arith}
use embassy.Time.Duration.{Duration}
use embassy.Executor.{System, new_system}
use embassy.Executor.Timer.{Ticker, every}
use embassy.Executor.Timer.Polls.{Visit, ticks, AllBefore, none_left, before, ticker_keeps_time}

abbrev idle : System
idle = new_system

abbrev five : Duration
five = record { ticks = 5 }

-- Polls at 3, 9 and 9 of a ticker that started at 2.
abbrev visits : List Visit
visits = (3, idle) ∷ (9, idle) ∷ (9, idle) ∷ []

abbrev visits-AllBefore : AllBefore 9 visits
visits-AllBefore = before (omega arith) (before (omega arith) (before (omega arith) none_left))

ticker_keeps_time_example :
    (c : Ticker) × (o : ℕ × Ticker) × (every (some 2) five ≡ some c)
    × (ticks 1 c visits ≡ some o)
    × (o.1.expires_at.ticks ≡ 2 + (1 + o.0) * 5)
    × (2 + o.0 * 5 ≤ 9)
ticker_keeps_time_example =
    ticker_keeps_time 1 2 9 five visits (omega arith) (omega arith) visits-AllBefore
