-- ===== src/Stm32/Serial/Tests.antt =====
-- The theorems on the serial port with a controller that is its mask and streams that are counts.
use embassy.Base.{ℕ, ◌≡◌, refl, Bool, true, false, none, some, arith}
use embassy.Time.{dev}
use embassy.Poll.{pending}
use embassy.Executor.{new_header, System, new_system}
use embassy.Interrupt.{Nvic, MaskLaws, Line}
use embassy.Util.InterruptFuture.{fire}
use embassy.Util.Woken.{IsMarked}
use embassy.Stm32.Serial.{
  Dma, Serial, created, waits, idle_created, idle_waits, write_poll, write_drop, read_poll,
  idle_poll,
}
use embassy.Stm32.Serial.Transfers.{abandoned_write}
use embassy.Stm32.Serial.Idle.{CountLaws, Ends, read_until_idle_counts}

abbrev one_bit : Nvic Bool
one_bit = record { mask = λ b. false; unmask = λ b. true; unpend = λ b. b; is_enabled = λ b. b }

abbrev one_bit-MaskLaws : MaskLaws one_bit
one_bit-MaskLaws = record { masked = λ b. refl; unmasked = λ b. refl }

abbrev counting : Dma ℕ
counting = record {
  init = λ len d. len;
  start = λ d. d;
  free = λ d. d;
  stop = λ d. d;
  remaining = λ d. d;
}

abbrev counting-CountLaws : CountLaws counting
counting-CountLaws = record { set_up = λ len d fits. refl; freed = λ d. refl }

abbrev unused : Line Bool
unused = record { func = none; ctx = none; controller = false }

abbrev whole : Serial Bool ℕ
whole = record {
  tx_stream = some 7;
  rx_stream = some 2;
  usart = some 1;
  tx_int = unused;
  rx_int = unused;
  usart_int = unused;
  tx_dma = 0;
  rx_dma = 0;
  idleie = false;
  idle = true;
  sr_read = false;
}

abbrev running : System
running = record new_system { headers = λ t. record new_header { spawned = true } }

abandoned_write_example :
    (s1 : Serial Bool ℕ) × (write_poll one_bit counting 5 (created 10) whole
      ≡ some (pending, waits 7 1, s1))
    × (let dropped = write_drop one_bit counting (waits 7 1) s1 in
        (write_poll one_bit counting 5 (created 3) dropped ≡ none)
        × (read_poll one_bit counting 5 (created 3) dropped ≡ none)
        × (idle_poll one_bit counting dev 5 (idle_created 3) dropped ≡ none))
abandoned_write_example =
    abandoned_write one_bit counting dev 5 5 7 1 10 3 whole one_bit-MaskLaws refl refl

read_until_idle_counts_example :
    (s1 : Serial Bool ℕ) × (idle_poll one_bit counting dev 5 (idle_created 10) whole
      ≡ some (pending, idle_waits 2 1 10, s1))
    × (s1.idleie ≡ true)
    × (s1.idle ≡ false)
    × ((full : Line Bool × System) × (fire one_bit s1.rx_int running ≡ some full)
        × IsMarked 5 full.1
        × Ends one_bit counting dev 6 2 1 10 6 (record s1 { rx_int = full.0; rx_dma = 4 }))
    × ((idle : Line Bool × System) × (fire one_bit s1.usart_int running ≡ some idle)
        × IsMarked 5 idle.1
        × Ends one_bit counting dev 6 2 1 10 6 (record s1 { usart_int = idle.0; rx_dma = 4 }))
read_until_idle_counts_example =
    read_until_idle_counts one_bit counting dev 5 6 2 1 10 4 whole running 4 one_bit-MaskLaws
      counting-CountLaws refl refl refl refl (omega arith) (omega arith)
