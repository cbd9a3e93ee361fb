-- ===== src/Nrf/Qspi/Waits.antt =====
-- A task that runs a command is woken at its end.
use embassy.Base.{ℕ, ◌≡◌, true, ◌&&◌, some}
use embassy.Poll.{Poll}
use embassy.Interrupt.{Nvic}
use embassy.Util.InterruptFuture.{wake_on_interrupt}
use embassy.Nrf.Qspi.{Qspi, Command, result}
use embassy.Nrf.Qspi.Chip.{Memory, Chip, run_chip, effect}

-- The registers when a command that was started waits.
abbrev asleep : {N : Type 0} → Nvic N → ℕ → Qspi N → Qspi N
asleep nvic t q = record q { irq = wake_on_interrupt nvic t q.irq }

-- The chip then does what the command is for, and its event interrupts, if the line lets it.
abbrev Does : {N : Type 0} → Nvic N → Chip → ℕ → Command → Memory → Qspi N → Type 0
Does {N} nvic chip t c m q =
    (q3 : Qspi N) × (run_chip chip (asleep nvic t q) m ≡ some (q3, (effect chip c m).1))
    × (q3.irq ≡ wake_on_interrupt nvic t q.irq)
    × (q3.events_ready && q3.ready_enabled ≡ true)
    × (q3.events_ready ≡ true)
    × (result nvic c q3 ≡ (effect chip c m).0)
